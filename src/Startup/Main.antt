-- ===== src/Startup/Main.antt =====
-- cmd/app/wire_gen.go and cmd/app/main.go: initApp, and main with what it defers.
use kratos_layout_monolith.Prelude.{Bool, Option, none, some, List, [], ◌∷◌, ◌++◌, if◌then◌else◌}
use kratos_layout_monolith.Errors.{Error, panic, Result, ok, err, Done}
use kratos_layout_monolith.Startup.{
  Bootstrap, DataConf, JwtConf, Event, open_config, close_config, shutdown_tracing, close_database,
  new_app, stop_app, register_routes, run_app, Outside,
}
use kratos_layout_monolith.Startup.Parts.{
  Log, nil_pointer, init_tracing, new_database, new_redis, new_http_server,
}

-- How a run of the program ends: main returns, os.Exit(1) of Fatalf, or a panic.
pub data Ending : Type 0 where
  returned exited panicked : Ending

module _ (o : Outside) where
  abbrev pub when : Bool → Event o.F → List (Event o.F)
  when b e = if b then e ∷ [] else []

  -- Cleanups and deferred calls, the first of the list first.
  abbrev pub run_all : List (Event o.F) → Log o → Log o
  run_all [] log = log
  run_all (d ∷ ds) log = run_all ds (d ∷ log)

  -- Fatalf ends the program on the spot; a panic runs the deferred calls.
  unfoldable pub fail : Error → List (Event o.F) → Log o → Ending × Log o
  fail (panic p) deferred log = (panicked, run_all deferred log)
  fail e deferred log = (exited, log)

  -- initApp once the server is made: the cleanups of the components.
  unfoldable pub components : Bool → Done × Log o → Result (List (Event o.F)) × Log o
  components has_database (ok _, log) =
      (ok (stop_app ∷ when has_database close_database), new_app ∷ log)
  components has_database (err (panic p), log) = (err (panic p), log)
  components has_database (err e, log) = (err e, run_all (when has_database close_database) log)

  -- initApp once the database is there.
  unfoldable pub with_database :
      Bootstrap o.F → DataConf → Result Bool × Log o → Result (List (Event o.F)) × Log o
  unfolding components
  with_database b d (err e, log) = (err e, log)
  with_database b d (ok has_database, log) =
      let (has_client, log1) = new_redis o d.redis log in
      components has_database (new_http_server o b.server b.jwt has_database has_client log1)

  -- initApp: the cleanups to run in the end.
  unfoldable pub init_app : Bootstrap o.F → Log o → Result (List (Event o.F)) × Log o
  unfolding with_database
  init_app b log = elim b.data_conf [
    | none ↦ (err nil_pointer, log)
    | some d ↦ with_database b d (new_database o d.database log)
  ]

  -- main from RegisterHTTP on, which reads jwt.Secret without a test for nil.
  unfoldable pub serve : Option JwtConf → List (Event o.F) → Log o → Ending × Log o
  unfolding fail
  serve none deferred log = fail nil_pointer deferred log
  serve (some jwt) deferred log =
      let running = run_app ∷ register_routes jwt.secret jwt.expire ∷ log in
      elim (o.run_app running) [
        | err e ↦ fail e deferred running
        | ok _ ↦ (returned, run_all deferred running)
      ]

  -- main once initApp has returned, with what it deferred before.
  unfoldable pub started :
      Bootstrap o.F → List (Event o.F) → Result (List (Event o.F)) × Log o → Ending × Log o
  unfolding serve fail
  started b early (ok cleanups, log) = serve b.jwt (cleanups ++ early) log
  started b early (err e, log) = fail e early log

  -- main from initApp on.
  unfoldable pub start : Bootstrap o.F → Result Bool × Log o → Ending × Log o
  unfolding init_app started fail
  start b (err e, log) = fail e (close_config ∷ []) log
  start b (ok has_provider, log) =
      started b (when has_provider shutdown_tracing ++ (close_config ∷ [])) (init_app b log)

  unfoldable pub main : Ending × Log o
  unfolding start fail
  main =
      let opened = open_config ∷ [] in
      elim (o.load opened) [
        | err e ↦ fail e (close_config ∷ []) opened
        | ok _ ↦ elim (o.scan opened) [
          | err e ↦ fail e (close_config ∷ []) opened
          | ok b ↦ start b (init_tracing o b.tracing opened)
        ]
      ]
