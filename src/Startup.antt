-- ===== src/Startup.antt =====
-- internal/conf/conf.go and wire.go, and what the program does to the outside from its start to its
-- end: a log of events, the newest first, where the answers of the outside depend on the log so far.
pub mod Parts
pub mod Main
pub mod Takes
pub mod Ends
use kratos_layout_monolith.Prelude.{String, Bool, Option, List, [], ◌∷◌, ◌++◌}
use kratos_layout_monolith.Prelude.Int.{ℤ}
use kratos_layout_monolith.Errors.{Error, Result, Done}

-- The pointers of the configuration are nil where the file says nothing.
pub record HttpConf : Type 0 where
  pub network : String
  pub addr : String
  pub timeout : ℤ

pub record ServerConf : Type 0 where
  pub http : Option HttpConf
  pub read_timeout : String
  pub write_timeout : String

pub record DatabaseConf : Type 0 where
  pub driver : String
  pub source : String
  pub max_open_conns : ℤ
  pub max_idle_conns : ℤ

pub record RedisConf : Type 0 where
  pub network : String
  pub addr : String
  pub password : String
  pub db : ℤ
  pub read_timeout : ℤ
  pub write_timeout : ℤ

pub record DataConf : Type 0 where
  pub database : Option DatabaseConf
  pub redis : Option RedisConf

pub record JwtConf : Type 0 where
  pub secret : String
  pub expire : ℤ

pub record AuthConf : Type 0 where
  pub whitelist : List String

pub record TracingConf (F : Type 0) : Type 0 where
  pub enabled : Bool
  pub endpoint : String
  pub insecure : Bool
  pub sampler : F

pub record Bootstrap (F : Type 0) : Type 0 where
  pub server : Option ServerConf
  pub data_conf : Option DataConf
  pub jwt : Option JwtConf
  pub auth : Option AuthConf
  pub tracing : Option (TracingConf F)

-- kratoshttp.ServerOption
pub data ServerOption : Type 0 where
  middlewares : String → ServerOption
  network : String → ServerOption
  address : String → ServerOption
  timeout : ℤ → ServerOption

-- What the program does. A call that may fail is an event where it succeeds.
pub data Event (F : Type 0) : Type 0 where
  open_config close_config : Event F
  start_tracing : String → Bool → F → Event F
  shutdown_tracing : Event F
  open_database : String → Event F
  limit_conns : ℤ → ℤ → Event F
  close_database : Event F
  new_client : RedisConf → Event F
  ping_client start_stats stop_stats close_client : Event F
  register_collector : String → Event F
  new_server : List ServerOption → Event F
  handle : String → Event F
  new_app stop_app : Event F
  register_routes : String → ℤ → Event F
  run_app : Event F

-- What prometheus.Register says.
pub data Registered : Type 0 where
  registered already_registered : Registered
  refused : Error → Registered

-- float64, and the calls that may fail: config.Load and Scan, otlptracegrpc.New, resource.Merge,
-- gorm.Open, DB(), prometheus.Register, traceShutdown's and Close's errors left out, and app.Run.
pub record Outside : Type 1 where
  pub F : Type 0
  pub zero_ratio : F
  pub one_ratio : F
  -- x <= y and x < y
  pub le : F → F → Bool
  pub lt : F → F → Bool
  pub load : List (Event F) → Done
  pub scan : List (Event F) → Result (Bootstrap F)
  pub new_exporter : List (Event F) → Done
  pub merge_resource : List (Event F) → Done
  pub gorm_open : List (Event F) → Done
  pub sql_db : List (Event F) → Done
  pub register : String → List (Event F) → Registered
  pub run_app : List (Event F) → Done
