-- ===== src/Samples.antt =====
-- A concrete host, containers and images on which the definitions and the theorems are run.
pub mod Services
use containerd_shim_spin.Prelude.{
  ℕ, String, ◌<>◌, Bool, true, false, Option, none, some, List, [], ◌∷◌, length, eqb, ltb, ◌*◌,
  if◌then◌else◌,
}
use containerd_shim_spin.Env.{unicode}
use containerd_shim_spin.Oci.{
  Bytes, other, WasmLayer, oci, RuntimeContext, oci_layer_media_type_wasm,
  oci_layer_media_type_wasm_wkg,
}
use containerd_shim_spin.App.{LockedTrigger, LockedApp}
use containerd_shim_spin.Exec.{external, Result, ok, err, World}
use containerd_shim_spin.Host.{Host, Cache}
use containerd_shim_spin.Conformance.{Probe, running}

abbrev pub spin_type : String
spin_type = "application/vnd.spin.application.v1+config"

abbrev pub layer_of : String → String → Bool → Bytes → WasmLayer
layer_of media_type digest precompiled bytes = record {
  layer = bytes;
  precompiled = precompiled;
  config = record { media_type = other media_type; size = length bytes; digest = digest };
}

abbrev pub config_layer : WasmLayer
config_layer = layer_of spin_type "sha256:c" false (1 ∷ 2 ∷ [])

abbrev pub wasm_layer : WasmLayer
wasm_layer = layer_of oci_layer_media_type_wasm "sha256:w" false (3 ∷ [])

abbrev pub cached_layer : WasmLayer
cached_layer = layer_of oci_layer_media_type_wasm "sha256:p" true (9 ∷ 3 ∷ [])

abbrev pub broken_layer : WasmLayer
broken_layer = layer_of oci_layer_media_type_wasm "sha256:b" true (3 ∷ [])

abbrev pub package_layer : WasmLayer
package_layer = layer_of oci_layer_media_type_wasm_wkg "sha256:k" false (4 ∷ [])

abbrev pub spin_image : List WasmLayer
spin_image = config_layer ∷ wasm_layer ∷ []

abbrev pub cached_image : List WasmLayer
cached_image = config_layer ∷ cached_layer ∷ []

abbrev pub trigger_of : String → String → LockedTrigger
trigger_of id type = record { id = id; trigger_type = type }

abbrev pub app_of : List LockedTrigger → LockedApp
app_of triggers = record {
  components = record { id = "hello"; content_source = some "/data" } ∷ [];
  variables = "greeting" ∷ [];
  triggers = triggers;
}

abbrev pub two_triggers : LockedApp
two_triggers = app_of (trigger_of "one" "http" ∷ trigger_of "two" "redis" ∷ [])

abbrev pub timer_app : LockedApp
timer_app = app_of (trigger_of "one" "http" ∷ trigger_of "two" "timer" ∷ [])

abbrev first_is : ℕ → Bytes → Bool
first_is n [] = false
first_is n (b ∷ _) = eqb b n

abbrev decode : Bytes → Result LockedApp
decode bytes = if first_is 1 bytes then ok two_triggers else err (external "no app")

abbrev precompile : Bytes → Result Bytes
precompile bytes = if first_is 0 bytes then err (external "no component") else ok (9 ∷ bytes)

-- A host on which every call succeeds.
abbrev pub host : Host
host = record {
  archive_mediatype = "application/vnd.wasm.content.bundle.v1.tar+gzip";
  data_mediatype = "application/vnd.wasm.content.layer.v1+data";
  spin_application_media_type = spin_type;
  unpack_archive_layer = λ _ _ _ _. ok tt;
  http_trigger_type = "http";
  redis_trigger_type = "redis";
  sqs_trigger_type = "sqs";
  command_trigger_type = "command";
  mqtt_trigger_type = "mqtt";
  new_cache = λ _ root. ok (record { root = root });
  write_wasm = λ _ _ _ _. ok tt;
  write_data = λ _ _ _ _. ok tt;
  wasm_path = λ cache digest. cache.root <> "/registry/wasm/" <> digest;
  from_file = λ _ _. ok two_triggers;
  from_wasm_file = λ _ _. ok two_triggers;
  from_json = decode;
  resolve_component_content_refs = λ _ _ component. ok component;
  retain_components = λ _ app _. ok app;
  new_trigger = λ _ _ _ _. ok tt;
  run_trigger_app = λ w _. ok (length w.calls);
  default_max_instance_memory = none;
  memory_bound = 18446744073709551616;
  select_first = λ _ _. (ok tt, 0);
  init_telemetry = λ _. ok tt;
  set_handler = λ _. ok tt;
  detect_precompiled = first_is 9;
  componentize_if_necessary = λ bytes. ok bytes;
  precompile_component = precompile;
  create_fault = λ _ _. none;
  write_fault = λ _ _ _. none;
  read_fault = λ _ _. none;
  current_dir = λ _. some (unicode "/");
  to_socket_addrs = λ _ _. ok (record { ip = "0.0.0.0"; port = 80 } ∷ []);
  hash_order = λ types. types;
}

abbrev pub cache : Cache
cache = record { root = "/.cache" }

abbrev pub world_of : Option ℕ → World
world_of signal = record {
  env = ("GREETING", unicode "hi") ∷ ("HOSTNAME", unicode "pod") ∷ [];
  files = [];
  calls = [];
  signal = signal;
}

abbrev pub start : World
start = world_of none

abbrev pub context_of : List String → List WasmLayer → RuntimeContext
context_of envs layers = record { args = "/" ∷ []; envs = envs; entrypoint = oci layers }

abbrev pub cached_context : RuntimeContext
cached_context = context_of ("SPIN_HTTP_LISTEN_ADDR=0.0.0.0:80" ∷ []) cached_image

-- A shim whose port opens before the third look at it.
abbrev pub third_look : Probe
third_look = record { connects = λ n. ltb 1 n; try_wait = λ _. running; elapsed = λ n. 60 * n }
