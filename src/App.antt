-- ===== src/App.antt =====
-- The types of Spin that the shim fills in or reads, with the fields that it touches: the locked
-- app (`spin_app::locked`) and what a trigger is started with (`spin_trigger` and the triggers).
use containerd_shim_spin.Prelude.{ℕ, String, Bool, Option, List}

pub record Component : Type 0 where
  pub id : String
  pub content_source : Option String

pub record LockedTrigger : Type 0 where
  pub id : String
  pub trigger_type : String

-- `variables` lists the keys of the map in its order.
pub record LockedApp : Type 0 where
  pub components : List Component
  pub variables : List String
  pub triggers : List LockedTrigger

-- The type parameter of `trigger::run`.
pub data TriggerKind : Type 0 where
  http redis sqs command mqtt : TriggerKind

pub record SocketAddr : Type 0 where
  pub ip : String
  pub port : ℕ

-- `spin_trigger_http::CliArgs`; the `Range::Value` of a duration is its seconds, and the output
-- format is always the default one.
pub record HttpCliArgs : Type 0 where
  pub address : SocketAddr
  pub tls_cert : Option String
  pub tls_key : Option String
  pub find_free_port : Bool
  pub http1_max_buf_size : Option ℕ
  pub max_instance_reuse_count : Option ℕ
  pub max_instance_concurrent_reuse_count : Option ℕ
  pub request_timeout : Option ℕ
  pub idle_instance_timeout : ℕ

pub data CliArgs : Type 0 where
  http_args : HttpCliArgs → CliArgs
  no_cli_args : CliArgs
  command_args : List String → CliArgs
  mqtt_args : Bool → CliArgs

-- `spin_trigger::cli::UserProvidedPath`
pub data UserProvidedPath : Type 0 where
  default_path : UserProvidedPath
  unset : UserProvidedPath
  provided : String → UserProvidedPath

pub record FactorsConfig : Type 0 where
  pub working_dir : String
  pub runtime_config_file : Option String
  pub local_app_dir : Option String
  pub log_dir : UserProvidedPath

-- What `TriggerAppBuilder::run` is called with; `app_id` is the id of the `App` and `aot` tells
-- whether the loader may load AOT compiled components.
pub record Launch : Type 0 where
  pub kind : TriggerKind
  pub cli_args : CliArgs
  pub app_id : String
  pub app : LockedApp
  pub config : FactorsConfig
  pub max_instance_memory : Option ℕ
  pub aot : Bool
