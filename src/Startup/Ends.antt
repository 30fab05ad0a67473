-- ===== src/Startup/Ends.antt =====
-- What a run of cmd/app/main.go leaves open, for each way in which it can end.
use kratos_layout_monolith.Prelude.{
  Bool, Option, none, some, List, [], ◌∷◌, ◌++◌, ◌≡◌, ◌⊎◌, refl, sym, ap, ◌∙◌, subst, inl, inr,
  Every, Option-cases,
}
use mathlib.Core.List.{append-nil, append_assoc}
use kratos_layout_monolith.Errors.{Error, panic, Result, ok, err, Done, Result-cases}
use kratos_layout_monolith.Startup.{
  Bootstrap, DataConf, JwtConf, Event, open_config, close_config, shutdown_tracing, close_database,
  stop_app, register_routes, run_app, Outside,
}
use kratos_layout_monolith.Startup.Parts.{Log, nil_pointer, new_redis}
use kratos_layout_monolith.Startup.Main.{
  Ending, returned, exited, panicked, when, run_all, fail, components, with_database, init_app,
  serve, started, start, main,
}
use kratos_layout_monolith.Startup.Takes.{
  IsOpening, releases, Grown, nothing_taken, Takes, init_tracing-Takes, new_database-Takes,
  new_redis-Grown, TakesNone, new_http_server-TakesNone,
}

-- What each ending does of the releases that are owed.
abbrev pub Rule : {F : Type 0} → Ending → List (Event F) → List (Event F) → Type 0
Rule returned skipped done = skipped ≡ []
Rule exited skipped done = done ≡ []
Rule {F} panicked skipped done = (others : List (Event F)) × (done ≡ others ++ (close_config ∷ []))

module _ (o : Outside) where
  -- A run takes resources and then releases some of them: those that were taken first, the last of
  -- these first.
  pub record Ended (run : Ending × Log o) : Type 0 where
    pub before : Log o
    pub skipped : List (Event o.F)
    pub done : List (Event o.F)
    pub opens : Every IsOpening before
    pub owes : releases before ≡ skipped ++ done
    pub runs : run.1 ≡ run_all o done before
    pub rule : Rule run.0 skipped done

  -- Parts in a row.
  in_turn :
      {a b c : Log o} {xs ys : List (Event o.F)}
      → Grown o a b xs
      → Grown o b c ys
      → Grown o a c (ys ++ xs)
  in_turn {a = a} {xs = xs} {ys = ys} first next = record {
    opens = λ h. next.opens (first.opens h);
    owes = next.owes ∙ ap (λ rest. ys ++ rest) first.owes ∙ sym (append_assoc ys xs (releases a));
  }

  components-Takes :
      (a b : Log o) (has_database : Bool) (r : Done × Log o)
      → Grown o a b (when o has_database close_database)
      → TakesNone o b r
      → Takes o a (λ cleanups. cleanups) (components o has_database r)
  unfolding components
  components-Takes a b has_database (ok u, log) taken served =
      in_turn taken
        (in_turn {ys = stop_app ∷ []} served (record { opens = λ h. (tt, h); owes = refl }))
  components-Takes a b has_database (err e, log) taken (served, p, same) =
      rw same (when o has_database close_database, in_turn taken served)

  with_database-Takes :
      (a : Log o) (b : Bootstrap o.F) (d : DataConf) (r : Result Bool × Log o)
      → Takes o a (λ has. when o has close_database) r
      → Takes o a (λ cleanups. cleanups) (with_database o b d r)
  unfolding with_database
  with_database-Takes a b d (err e, log) h = h
  with_database-Takes a b d (ok has_database, log) h =
      let (has_client, log1) = new_redis o d.redis log in
      components-Takes a log1 has_database _ (in_turn h (new_redis-Grown o d.redis log))
        (new_http_server-TakesNone o b.server b.jwt has_database has_client log1)

  init_app-Takes :
      (b : Bootstrap o.F) (log : Log o) → Takes o log (λ cleanups. cleanups) (init_app o b log)
  unfolding init_app
  init_app-Takes b log = elim (Option-cases b.data_conf) [
    | inl absent ↦ rw (absent, init_app) ([], nothing_taken o log)
    | inr (d, there) ↦
        rw (there, init_app) (with_database-Takes log b d _ (new_database-Takes o d.database log))
  ]

  fail_cases :
      (e : Error) (deferred : List (Event o.F)) (log : Log o)
      → (fail o e deferred log ≡ (panicked, run_all o deferred log))
        ⊎ (fail o e deferred log ≡ (exited, log))
  unfolding fail
  fail_cases (panic p) deferred log = inl refl
  fail_cases e deferred log = inr refl

  fail-Ended :
      (e : Error) (skipped others : List (Event o.F)) (log : Log o)
      → Every IsOpening log
      → releases log ≡ skipped ++ (others ++ (close_config ∷ []))
      → Ended (fail o e (others ++ (close_config ∷ [])) log)
  fail-Ended e skipped others log opens owes =
      let deferred = others ++ (close_config ∷ []) in
      elim (fail_cases e deferred log) [
        | inl same ↦ rw same (record {
          before = log;
          skipped = skipped;
          done = deferred;
          opens = opens;
          owes = owes;
          runs = refl;
          rule = (others, refl);
        })
        | inr same ↦ rw same (record {
          before = log;
          skipped = releases log;
          done = [];
          opens = opens;
          owes = sym (append-nil (releases log));
          runs = refl;
          rule = refl;
        })
      ]

  -- More is owed after a part that failed.
  fail_later :
      (e : Error) (a b : Log o) (taken others : List (Event o.F))
      → Every IsOpening a
      → releases a ≡ others ++ (close_config ∷ [])
      → Grown o a b taken
      → Ended (fail o e (others ++ (close_config ∷ [])) b)
  fail_later e a b taken others opens owes grown =
      fail-Ended e taken others b (grown.opens opens) (grown.owes ∙ ap (λ rest. taken ++ rest) owes)

  serve-Ended :
      (jwt : Option JwtConf) (others : List (Event o.F)) (log : Log o)
      → Every IsOpening log
      → releases log ≡ others ++ (close_config ∷ [])
      → Ended (serve o jwt (others ++ (close_config ∷ [])) log)
  unfolding serve
  serve-Ended none others log opens owes = fail-Ended nil_pointer [] others log opens owes
  serve-Ended (some jwt) others log opens owes =
      let running = run_app ∷ register_routes jwt.secret jwt.expire ∷ log in
      elim (Result-cases (o.run_app running)) [
        | inr (e, failed) ↦
            rw (failed, serve) (fail-Ended e [] others running (tt, (tt, opens)) owes)
        | inl (u, fine) ↦
            rw (fine, serve)
              (record {
                before = running;
                skipped = [];
                done = others ++ (close_config ∷ []);
                opens = (tt, (tt, opens));
                owes = owes;
                runs = refl;
                rule = refl;
              })
      ]

  started-Ended :
      (b : Bootstrap o.F) (a : Log o) (others : List (Event o.F))
      (r : Result (List (Event o.F)) × Log o)
      → Every IsOpening a
      → releases a ≡ others ++ (close_config ∷ [])
      → Takes o a (λ cleanups. cleanups) r
      → Ended (started o b (others ++ (close_config ∷ [])) r)
  unfolding started
  started-Ended b a others (ok cleanups, log) opens owes grown =
      subst (λ ds. Ended (serve o b.jwt ds log)) (append_assoc cleanups others (close_config ∷ []))
        (serve-Ended b.jwt (cleanups ++ others) log (grown.opens opens) (
          grown.owes
          ∙ ap (λ rest. cleanups ++ rest) owes
          ∙ sym (append_assoc cleanups others (close_config ∷ []))))
  started-Ended b a others (err e, log) opens owes (taken, grown) =
      fail_later e a log taken others opens owes grown

  start-Ended :
      (b : Bootstrap o.F) (r : Result Bool × Log o)
      → Takes o (open_config ∷ []) (λ has. when o has shutdown_tracing) r
      → Ended (start o b r)
  unfolding start started
  start-Ended b (err e, log) (taken, grown) =
      fail_later e (open_config ∷ []) log taken [] (tt, tt) refl grown
  start-Ended b (ok has_provider, log) grown =
      started-Ended b log (when o has_provider shutdown_tracing) (init_app o b log)
        (grown.opens (tt, tt)) grown.owes (init_app-Takes b log)

  -- Every run of main, whatever the calls that it makes answer, is of one of three kinds. Where main
  -- returns, it has released the configuration, the tracer, the database and the app, each that it
  -- took, the last first. Where it exits on an error, it has released nothing. Where it panics, it has
  -- released the first ones that it took, the configuration among them, and left the others. All that
  -- it releases it releases in the end, and it never closes the Redis client.
  pub main-Ended : Ended (main o)
  unfolding main
  main-Ended = elim (Result-cases (o.load (open_config ∷ []))) [
    | inr (e, failed) ↦ rw (failed, main) (fail-Ended e [] [] (open_config ∷ []) (tt, tt) refl)
    | inl (u, loaded) ↦ elim (Result-cases (o.scan (open_config ∷ []))) [
      | inr (e, failed) ↦
          rw (loaded, failed, main) (fail-Ended e [] [] (open_config ∷ []) (tt, tt) refl)
      | inl (b, scanned) ↦
          rw (loaded, scanned, main)
            (start-Ended b _ (init_tracing-Takes o b.tracing (open_config ∷ [])))
    ]
  ]
