-- ===== src/Startup/Takes.antt =====
-- What the parts of a run of cmd/app/main.go open, and what is left to close.
use kratos_layout_monolith.Prelude.{
  String, Bool, true, false, Option, none, some, List, [], ◌∷◌, ◌++◌, ◌≡◌, refl, ap, ◌∙◌, inl, inr,
  Every, if◌then◌else◌, Bool-cases,
}
use kratos_layout_monolith.Errors.{panic, Result, ok, err, Done, Result-cases}
use kratos_layout_monolith.Startup.{
  HttpConf, ServerConf, DatabaseConf, RedisConf, JwtConf, TracingConf, Event, open_config,
  close_config, start_tracing, shutdown_tracing, open_database, close_database, stop_stats,
  close_client, new_app, stop_app, Registered, registered, already_registered, refused, Outside,
}
use kratos_layout_monolith.Startup.Parts.{
  Log, init_tracing, new_database, new_redis, after_register, register, register_pool_metrics,
  serve_handlers, new_http_server,
}
use kratos_layout_monolith.Startup.Main.{when}

-- An event that releases nothing.
abbrev pub IsOpening : {F : Type 0} → Event F → Type 0
IsOpening close_config = ⊥
IsOpening shutdown_tracing = ⊥
IsOpening close_database = ⊥
IsOpening stop_app = ⊥
IsOpening stop_stats = ⊥
IsOpening close_client = ⊥
IsOpening _ = Unit

-- What releases the resource that an event takes: the configuration, the tracer, the database and the
-- app. Redis is none of them: nothing in main leads to Redis.Close.
abbrev pub release_of : {F : Type 0} → Event F → List (Event F)
release_of open_config = close_config ∷ []
release_of (start_tracing _ _ _) = shutdown_tracing ∷ []
release_of (open_database _) = close_database ∷ []
release_of new_app = stop_app ∷ []
release_of _ = []

-- What is to be released, the resource that was taken last first.
abbrev pub releases : {F : Type 0} → List (Event F) → List (Event F)
releases [] = []
releases (e ∷ log) = release_of e ++ releases log

module _ (o : Outside) where
  -- A part of the start releases nothing, and takes what `taken` releases.
  pub record Grown (before after : Log o) (taken : List (Event o.F)) : Type 0 where
    pub opens : Every IsOpening before → Every IsOpening after
    pub owes : releases after ≡ taken ++ releases before

  pub nothing_taken : (log : Log o) → Grown log log []
  nothing_taken log = record { opens = λ h. h; owes = refl }

  -- What a part takes that may fail: where it succeeds, what its result says.
  abbrev pub Takes : {A : Type 0} → Log o → (A → List (Event o.F)) → Result A × Log o → Type 0
  Takes before f (ok a, after) = Grown before after (f a)
  Takes before f (err _, after) = (taken : List (Event o.F)) × Grown before after taken

  pub init_tracing-Takes :
      (c : Option (TracingConf o.F)) (log : Log o)
      → Takes log (λ b. when o b shutdown_tracing) (init_tracing o c log)
  unfolding init_tracing
  init_tracing-Takes none log = nothing_taken log
  init_tracing-Takes (some c) log = elim (Bool-cases c.enabled) [
    | inr off ↦ rw (off, init_tracing) (nothing_taken log)
    | inl on ↦ elim (Result-cases (o.new_exporter log)) [
      | inr (e, failed) ↦ rw (on, failed, init_tracing) ([], nothing_taken log)
      | inl (a, made) ↦ elim (Result-cases (o.merge_resource log)) [
        | inr (e, failed) ↦ rw (on, made, failed, init_tracing) ([], nothing_taken log)
        | inl (b, merged) ↦
            rw (on, made, merged, init_tracing) (record { opens = λ h. (tt, h); owes = refl })
      ]
    ]
  ]

  -- Where NewDatabase fails, the database may be open.
  pub new_database-Takes :
      (c : Option DatabaseConf) (log : Log o)
      → Takes log (λ b. when o b close_database) (new_database o c log)
  unfolding new_database
  new_database-Takes none log = nothing_taken log
  new_database-Takes (some c) log = elim (Result-cases (o.gorm_open log)) [
    | inr (e, failed) ↦ rw (failed, new_database) ([], nothing_taken log)
    | inl (a, opened) ↦ elim (Result-cases (o.sql_db (open_database c.source ∷ log))) [
      | inr (e, failed) ↦
          rw (opened, failed, new_database)
            (close_database ∷ [], record { opens = λ h. (tt, h); owes = refl })
      | inl (b, there) ↦
          rw (opened, there, new_database) (record { opens = λ h. (tt, (tt, h)); owes = refl })
    ]
  ]

  pub new_redis-Grown : (c : Option RedisConf) (log : Log o) → Grown log (new_redis o c log).1 []
  unfolding new_redis
  new_redis-Grown none log = nothing_taken log
  new_redis-Grown (some c) log = record { opens = λ h. (tt, (tt, (tt, h))); owes = refl }

  -- A part that takes nothing, and fails only by a panic.
  abbrev pub TakesNone : Log o → Done × Log o → Type 0
  TakesNone before (ok _, after) = Grown before after []
  TakesNone before (err e, after) = Grown before after [] × (p : String) × (e ≡ panic p)

  after_nothing :
      {a b c : Log o} {taken : List (Event o.F)} → Grown a b [] → Grown b c taken → Grown a c taken
  after_nothing {taken = taken} first next = record {
    opens = λ h. next.opens (first.opens h);
    owes = next.owes ∙ ap (λ rest. taken ++ rest) first.owes;
  }

  after_register-TakesNone :
      (name : String) (log : Log o) (a : Registered) → TakesNone log (after_register o name log a)
  unfolding after_register
  after_register-TakesNone name log registered = record { opens = λ h. (tt, h); owes = refl }
  after_register-TakesNone name log already_registered = nothing_taken log
  after_register-TakesNone name log (refused e) = (nothing_taken log, "prometheus.Register", refl)

  register-TakesNone : (name : String) (log : Log o) → TakesNone log (register o name log)
  unfolding register
  register-TakesNone name log = after_register-TakesNone name log (o.register name log)

  -- Two parts in a row.
  first_of : (before : Log o) (r : Done × Log o) → TakesNone before r → Grown before r.1 []
  first_of before (ok a, log) h = h
  first_of before (err e, log) h = h.0

  then_none : (a b : Log o) (r : Done × Log o) → Grown a b [] → TakesNone b r → TakesNone a r
  then_none a b (ok u, log) first next = after_nothing first next
  then_none a b (err e, log) first (next, p, same) = (after_nothing first next, p, same)

  after_first :
      (a : Log o) (first second : Done × Log o)
      → TakesNone a first
      → TakesNone first.1 second
      → TakesNone a (elim first.0 [ err e ↦ (err e, first.1) | ok _ ↦ second ])
  after_first a (ok u, log) second h k = then_none a log second h k
  after_first a (err e, log) second h k = h

  sql_db-TakesNone :
      (opened : Done) (log : Log o)
      → TakesNone log (elim opened [ ok _ ↦ register o "db" log | err e ↦ (ok tt, log) ])
  sql_db-TakesNone (ok u) log = register-TakesNone "db" log
  sql_db-TakesNone (err e) log = nothing_taken log

  database_metrics-TakesNone :
      (has_database : Bool) (log : Log o)
      → TakesNone log (
          if has_database
          then elim (o.sql_db log) [ ok _ ↦ register o "db" log | err e ↦ (ok tt, log) ]
          else (ok tt, log))
  database_metrics-TakesNone true log = sql_db-TakesNone (o.sql_db log) log
  database_metrics-TakesNone false log = nothing_taken log

  redis_metrics-TakesNone :
      (has_client : Bool) (log : Log o)
      → TakesNone log (if has_client then register o "redis" log else (ok tt, log))
  redis_metrics-TakesNone true log = register-TakesNone "redis" log
  redis_metrics-TakesNone false log = nothing_taken log

  register_pool_metrics-TakesNone :
      (has_database has_client : Bool) (log : Log o)
      → TakesNone log (register_pool_metrics o has_database has_client log)
  unfolding register_pool_metrics
  register_pool_metrics-TakesNone has_database has_client log =
      after_first log _ _ (database_metrics-TakesNone has_database log)
        (redis_metrics-TakesNone has_client _)

  serve_handlers-TakesNone :
      (a : Log o) (http : Option HttpConf) (r : Done × Log o)
      → TakesNone a r
      → TakesNone a (serve_handlers o http r)
  unfolding serve_handlers
  serve_handlers-TakesNone a http (err e, log) h = h
  serve_handlers-TakesNone a none (ok u, log) h =
      (after_nothing h (record { opens = λ k. (tt, (tt, (tt, (tt, k)))); owes = refl }), _, refl)
  serve_handlers-TakesNone a (some c) (ok u, log) h =
      after_nothing h (record { opens = λ k. (tt, (tt, (tt, (tt, k)))); owes = refl })

  pub new_http_server-TakesNone :
      (c : Option ServerConf) (jwt : Option JwtConf) (has_database has_client : Bool) (log : Log o)
      → TakesNone log (new_http_server o c jwt has_database has_client log)
  unfolding new_http_server
  new_http_server-TakesNone c none has_database has_client log = (nothing_taken log, _, refl)
  new_http_server-TakesNone none (some jwt) has_database has_client log =
      (nothing_taken log, _, refl)
  new_http_server-TakesNone (some c) (some jwt) has_database has_client log =
      serve_handlers-TakesNone log c.http _ (
        then_none log _ _ (record { opens = λ h. (tt, h); owes = refl })
          (register_pool_metrics-TakesNone has_database has_client _))
