-- ===== src/Tests/StartupExamples.antt =====
-- A run of main with a database, Redis and tracing, and one whose configuration has no token secret.
use kratos_layout_monolith.Prelude.{ℕ, true, false, Option, none, some, [], ◌∷◌, ◌≡◌, refl}
use kratos_layout_monolith.Prelude.Int.{pos}
use kratos_layout_monolith.Errors.{ok}
use kratos_layout_monolith.Startup.{
  Bootstrap, RedisConf, JwtConf, middlewares, address, open_config, close_config, start_tracing,
  shutdown_tracing, open_database, limit_conns, close_database, new_client, ping_client,
  start_stats, register_collector, new_server, handle, new_app, stop_app, register_routes, run_app,
  registered, Outside,
}
use kratos_layout_monolith.Startup.Parts.{
  init_tracing, new_database, new_redis, after_register, register, register_pool_metrics,
  serve_handlers, new_http_server,
}
use kratos_layout_monolith.Startup.Main.{
  returned, panicked, fail, components, with_database, init_app, serve, started, start, main,
}
use kratos_layout_monolith.Startup.Ends.{Ended, main-Ended}

abbrev redis_conf : RedisConf
redis_conf = record {
  network = "";
  addr = "localhost:6379";
  password = "";
  db = pos 0;
  read_timeout = pos 0;
  write_timeout = pos 0;
}

abbrev config : Option JwtConf → Bootstrap ℕ
config jwt = record {
  server = some (record {
    http = some (record { network = ""; addr = ":8000"; timeout = pos 0 });
    read_timeout = "";
    write_timeout = "";
  });
  data_conf = some (record {
    database = some (record {
      driver = "mysql";
      source = "dsn";
      max_open_conns = pos 0;
      max_idle_conns = pos 5;
    });
    redis = some redis_conf;
  });
  jwt = jwt;
  auth = none;
  tracing = some (record { enabled = true; endpoint = ""; insecure = true; sampler = 7 });
}

-- Ratios in percent; every call succeeds.
abbrev outside : Option JwtConf → Outside
outside jwt = record {
  F = ℕ;
  zero_ratio = 0;
  one_ratio = 100;
  le = λ a b. false;
  lt = λ a b. false;
  load = λ log. ok tt;
  scan = λ log. ok (config jwt);
  new_exporter = λ log. ok tt;
  merge_resource = λ log. ok tt;
  gorm_open = λ log. ok tt;
  sql_db = λ log. ok tt;
  register = λ name log. registered;
  run_app = λ log. ok tt;
}

abbrev jwt : Option JwtConf
jwt = some (record { secret = "key"; expire = pos 60 })

test_run : main (outside jwt) ≡ (
  returned,
  close_config
      ∷ shutdown_tracing
      ∷ close_database
      ∷ stop_app
      ∷ run_app
      ∷ register_routes "key" (pos 60)
      ∷ new_app
      ∷ handle "/readyz"
      ∷ handle "/health"
      ∷ handle "/livez"
      ∷ handle "/metrics"
      ∷ register_collector "redis"
      ∷ register_collector "db"
      ∷ new_server (middlewares "key" ∷ address ":8000" ∷ [])
      ∷ start_stats
      ∷ ping_client
      ∷ new_client (record redis_conf { network = "tcp" })
      ∷ limit_conns (pos 100) (pos 5)
      ∷ open_database "dsn"
      ∷ start_tracing "127.0.0.1:4317" true 7
      ∷ open_config
      ∷ [],
)
unfolding main start started serve fail init_app with_database components init_tracing new_database
    new_redis after_register register register_pool_metrics serve_handlers new_http_server
test_run = refl

-- Without a token secret the server panics, and the database stays open.
test_panic : (main (outside none)).0 ≡ panicked
unfolding main start started serve fail init_app with_database components init_tracing new_database
    new_redis after_register register register_pool_metrics serve_handlers new_http_server
test_panic = refl

main-Ended_example : Ended (outside jwt) (main (outside jwt))
main-Ended_example = main-Ended (outside jwt)
