-- ===== src/Startup/Parts.antt =====
-- The constructors that main and initApp call: internal/pkg/tracing/tracing.go, internal/pkg/db/db.go,
-- NewRedis of internal/pkg/cache/cache.go, RegisterPoolMetrics of
-- internal/pkg/observability/pool_metrics.go and NewHTTPServer of internal/server/http.go.
use kratos_layout_monolith.Prelude.{
  String, Bool, true, false, ◌||◌, Option, none, some, List, [], ◌∷◌, ◌++◌, str_eq, if◌then◌else◌,
}
use kratos_layout_monolith.Prelude.Int.{ℤ, pos}
use kratos_layout_monolith.Errors.{Error, panic, Result, ok, err, Done}
use kratos_layout_monolith.User.Table.{eq_ℤ}
use kratos_layout_monolith.Startup.{
  HttpConf, ServerConf, DatabaseConf, RedisConf, JwtConf, TracingConf, ServerOption, middlewares,
  network, address, timeout, Event, start_tracing, open_database, limit_conns, new_client,
  ping_client, start_stats, stop_stats, close_client, register_collector, new_server, handle,
  Registered, registered, already_registered, refused, Outside,
}

abbrev pub nil_pointer : Error
nil_pointer = panic "runtime error: invalid memory address or nil pointer dereference"

-- A default where a number or a text is not set.
abbrev or_number : ℤ → ℤ → ℤ
or_number n d = if eq_ℤ n (pos 0) then d else n

abbrev or_text : String → String → String
or_text s d = if str_eq s "" then d else s

module _ (o : Outside) where
  abbrev pub Log : Type 0
  Log = List (Event o.F)

  abbrev ratio_of : o.F → o.F
  ratio_of f = if o.le f o.zero_ratio || o.lt o.one_ratio f then o.one_ratio else f

  -- Init: whether there is a provider to shut down.
  unfoldable pub init_tracing : Option (TracingConf o.F) → Log → Result Bool × Log
  init_tracing none log = (ok false, log)
  init_tracing (some c) log =
      if c.enabled
      then elim (o.new_exporter log) [
        | err e ↦ (err e, log)
        | ok _ ↦ elim (o.merge_resource log) [
          | err e ↦ (err e, log)
          | ok _ ↦ (
            ok true,
            start_tracing (or_text c.endpoint "127.0.0.1:4317") c.insecure (ratio_of c.sampler)
                ∷ log,
          )
        ]
      ]
      else (ok false, log)

  -- NewDatabase: whether the *gorm.DB is not nil, where cleanup closes it. The tracing plugin is left
  -- out, its failure is only logged.
  unfoldable pub new_database : Option DatabaseConf → Log → Result Bool × Log
  new_database none log = (ok false, log)
  new_database (some c) log = elim (o.gorm_open log) [
    | err e ↦ (err e, log)
    | ok _ ↦
        let opened = open_database c.source ∷ log in
        elim (o.sql_db opened) [
          | err e ↦ (err e, opened)
          | ok _ ↦ (
            ok true,
            limit_conns (or_number c.max_open_conns (pos 100)) (or_number c.max_idle_conns (pos 20))
                ∷ opened,
          )
        ]
  ]

  -- NewRedis: whether Client is not nil. A ping that fails is only logged.
  unfoldable pub new_redis : Option RedisConf → Log → Bool × Log
  new_redis none log = (false, log)
  new_redis (some c) log = (
    true,
    start_stats ∷ ping_client ∷ new_client (record c { network = or_text c.network "tcp" }) ∷ log,
  )

  -- Redis.Close, without the error of Client.Close.
  unfoldable pub close_redis : Bool → Log → Log
  close_redis has_client log = if has_client then close_client ∷ stop_stats ∷ log else log

  -- registerCollector once Register has answered.
  unfoldable pub after_register : String → Log → Registered → Done × Log
  after_register name log registered = (ok tt, register_collector name ∷ log)
  after_register name log already_registered = (ok tt, log)
  after_register name log (refused e) = (err (panic "prometheus.Register"), log)

  unfoldable pub register : String → Log → Done × Log
  unfolding after_register
  register name log = after_register name log (o.register name log)

  -- RegisterPoolMetrics, which runs once.
  unfoldable pub register_pool_metrics : Bool → Bool → Log → Done × Log
  unfolding register
  register_pool_metrics has_database has_client log =
      let (first, log1) : Done × Log =
        if has_database
        then elim (o.sql_db log) [ ok _ ↦ register "db" log | err e ↦ (ok tt, log) ]
        else (ok tt, log) in
      let second = if has_client then register "redis" log1 else (ok tt, log1) in
      elim first [ err e ↦ (err e, log1) | ok _ ↦ second ]

  abbrev http_options : Option HttpConf → List ServerOption
  http_options none = []
  http_options (some c) =
      (if str_eq c.network "" then [] else network c.network ∷ [])
      ++ ((if str_eq c.addr "" then [] else address c.addr ∷ [])
          ++ (if eq_ℤ c.timeout (pos 0) then [] else timeout c.timeout ∷ []))

  -- The handlers, and the log line with c.HTTP.Addr.
  unfoldable pub serve_handlers : Option HttpConf → Done × Log → Done × Log
  serve_handlers http (err e, log) = (err e, log)
  serve_handlers http (ok _, log) =
      let handled =
        handle "/readyz" ∷ handle "/health" ∷ handle "/livez" ∷ handle "/metrics" ∷ log in
      elim http [ none ↦ (err nil_pointer, handled) | some c ↦ (ok tt, handled) ]

  -- NewHTTPServer reads jwt.Secret and c.HTTP without a test for nil.
  unfoldable pub new_http_server :
      Option ServerConf → Option JwtConf → Bool → Bool → Log → Done × Log
  unfolding register_pool_metrics serve_handlers
  new_http_server c none has_database has_client log = (err nil_pointer, log)
  new_http_server none (some jwt) has_database has_client log = (err nil_pointer, log)
  new_http_server (some c) (some jwt) has_database has_client log =
      let opts = middlewares jwt.secret ∷ http_options c.http in
      serve_handlers c.http (register_pool_metrics has_database has_client (new_server opts ∷ log))
