-- ===== src/Host.antt =====
-- What the shim calls and does not implement: Spin, `spin_oci`, `containerd_shim_wasm`, wasmtime, the
-- file system's failures, name resolution, and the order of a `HashSet`. Each call may answer by the
-- whole state of the process, the earlier calls included. `Host` is a parameter of every definition
-- that uses it; what a theorem needs of it is a hypothesis of that theorem.
use containerd_shim_spin.Prelude.{ℕ, String, Bool, Option, none, some, List, [], take}
use containerd_shim_spin.Prelude.Maps.{lookup}
use containerd_shim_spin.Env.{OsString}
use containerd_shim_spin.Oci.{Bytes}
use containerd_shim_spin.App.{Component, LockedApp, TriggerKind, CliArgs, Launch, SocketAddr}
use containerd_shim_spin.Exec.{Error, Result, Outcome, failed, returned, World, Exec, put_file}

-- `spin_loader::cache::Cache`
pub record Cache : Type 0 where
  pub root : String

pub record Host : Type 0 where
  -- `spin_oci::client`
  pub archive_mediatype : String
  pub data_mediatype : String
  pub spin_application_media_type : String
  pub unpack_archive_layer : World → Cache → Bytes → String → Result (Unit {0})
  -- `Trigger::TYPE` of each trigger
  pub http_trigger_type : String
  pub redis_trigger_type : String
  pub sqs_trigger_type : String
  pub command_trigger_type : String
  pub mqtt_trigger_type : String
  -- `spin_loader` and `spin_app`
  pub new_cache : World → String → Result Cache
  pub write_wasm : World → Cache → Bytes → String → Result (Unit {0})
  pub write_data : World → Cache → Bytes → String → Result (Unit {0})
  pub wasm_path : Cache → String → String
  pub from_file : World → String → Result LockedApp
  pub from_wasm_file : World → String → Result LockedApp
  pub from_json : Bytes → Result LockedApp
  pub resolve_component_content_refs : World → Cache → Component → Result Component
  pub retain_components : World → LockedApp → List String → Result LockedApp
  -- triggers; the result of `run` names the future that it returns
  pub new_trigger : World → TriggerKind → CliArgs → LockedApp → Result (Unit {0})
  pub run_trigger_app : World → Launch → Result ℕ
  pub default_max_instance_memory : Option ℕ
  -- one more than the largest value of the type of `max_instance_memory`
  pub memory_bound : ℕ
  -- the future that ends first: its result and its position
  pub select_first : World → List ℕ → Result (Unit {0}) × ℕ
  pub init_telemetry : World → Result (Unit {0})
  pub set_handler : World → Result (Unit {0})
  -- wasmtime and `spin_componentize`
  pub detect_precompiled : Bytes → Bool
  pub componentize_if_necessary : Bytes → Result Bytes
  pub precompile_component : Bytes → Result Bytes
  -- the operating system
  pub create_fault : World → String → Option Error
  pub write_fault : World → String → Bytes → Option (ℕ × Error)
  pub read_fault : World → String → Option Error
  pub current_dir : World → Option OsString
  pub to_socket_addrs : World → String → Result (List SocketAddr)
  -- the order in which a `HashSet` with these members iterates
  pub hash_order : List String → List String

module _ (H : Host) where
  created : String → World → Option Error → Outcome Unit × World
  unfolding put_file
  created path w none = put_file path [] w
  created path w (some e) = (failed e, w)

  -- `File::create(path)`: the file exists and is empty, or the call fails and changes nothing.
  unfoldable pub create_file : String → Exec Unit
  unfolding created
  create_file path w = created path w (H.create_fault w path)

  wrote : String → Bytes → World → Option (ℕ × Error) → Outcome Unit × World
  unfolding put_file
  wrote path bytes w none = put_file path bytes w
  wrote path bytes w (some (n, e)) = (failed e, (put_file path (take n bytes) w).1)

  -- `write_all(bytes)` on a file that was just created; a failure leaves the bytes written so far.
  unfoldable pub write_all : String → Bytes → Exec Unit
  unfolding wrote
  write_all path bytes w = wrote path bytes w (H.write_fault w path bytes)

  contents : World → Option Bytes → Option Error → Outcome Bytes × World
  contents w none _ = (failed (Error.external "No such file or directory"), w)
  contents w (some bytes) none = (returned bytes, w)
  contents w (some bytes) (some e) = (failed e, w)

  -- `tokio::fs::read(path)`
  unfoldable pub read_file : String → Exec Bytes
  unfolding contents
  read_file path w = contents w (lookup path w.files) (H.read_fault w path)
