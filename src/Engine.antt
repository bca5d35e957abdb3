-- ===== src/Engine.antt =====
-- containerd-shim-spin/src/engine.rs: running a container. The compiler is in `Compiler`.
pub mod Compiler
pub mod Calls
pub mod Aot
pub mod Order
pub mod Starts
mod Arms
pub mod Kinds
pub mod Exhaustive
pub mod Errors
pub mod Requests
pub mod Success
pub mod Panics
pub mod Triggers
pub mod Shutdown
pub mod LayerTypes
pub mod Launches
use containerd_shim_spin.Prelude.{
  ℕ, String, Bool, true, false, not, ◌&&◌, Option, none, some, List, [], ◌∷◌, ◌++◌, is_some, keep,
  all, get_elem?, if◌then◌else◌, ◌==◌,
}
use containerd_shim_spin.Text.{split_once, split}
use containerd_shim_spin.Env.{unicode}
use containerd_shim_spin.Oci.{
  WasmLayer, Entry, oci, RuntimeContext, spin_addr_default, spin_http_listen_addr_env,
  spin_components_to_retain_env, oci_layer_media_type_wasm, oci_layer_media_type_wasm_wkg,
}
use containerd_shim_spin.App.{
  LockedApp, SocketAddr, HttpCliArgs, http_args, no_cli_args, command_args, mqtt_args, http, redis,
  sqs, command, mqtt,
}
use containerd_shim_spin.Exec.{
  Outcome, returned, failed, panicked, aborted, Result, ok, World, Exec, pure, panic, lift, await,
  call, with_context, ◌>>=◌, ◌>>◌, get_var, set_var, unreachable_code, empty_select,
  index_out_of_bounds, retaining_components, finding_executor, retain, init_telemetry, set_handler,
  select,
}
use containerd_shim_spin.Host.{Host}
use containerd_shim_spin.Utils.{
  is_wasm_content, initialize_cache, parse_addr,
  configure_application_variables_from_environment_variables,
}
use containerd_shim_spin.Source
use containerd_shim_spin.Source.{Source, debug, from_ctx, to_locked_app}
use containerd_shim_spin.Trigger.{run, get_supported_triggers}

abbrev pub get_or : Option String → String → String
get_or none fallback = fallback
get_or (some s) fallback = s

-- `v.split_once('=').unwrap_or((v.as_str(), ""))`
abbrev pub key_value : String → Option (String × String) → String × String
key_value v none = (v, "")
key_value v (some pair) = pair

-- The loop of `run_wasi` over the container's environment.
unfoldable pub set_envs : List String → Exec Unit
set_envs [] = pure tt
set_envs (v ∷ envs) = do
  let pair = key_value v (split_once "=" v)
  set_var pair.0 (unicode pair.1)
  set_envs envs

abbrev pub wasm_layers : List WasmLayer → List WasmLayer
wasm_layers layers = keep (λ l. is_some (is_wasm_content l)) layers

abbrev pub is_empty : List WasmLayer → Bool
is_empty [] = true
is_empty (_ ∷ _) = false

unfoldable pub from_precompile_cache : Entry → Bool
unfolding is_wasm_content
from_precompile_cache (oci layers) =
    let wasm = wasm_layers layers in not (is_empty wasm) && all (λ l. l.precompiled) wasm
from_precompile_cache (Entry.file _) = false

abbrev pub layers_from_precompile_cache : RuntimeContext → Bool
layers_from_precompile_cache ctx = from_precompile_cache ctx.entrypoint

-- The loader of `run_trigger`: whether AOT loading is enabled on it.
unfoldable pub loader_aot : RuntimeContext → Source → Bool
unfolding from_precompile_cache
loader_aot ctx (Source.file _) = false
loader_aot ctx Source.oci_spin = layers_from_precompile_cache ctx
loader_aot ctx (Source.oci_wkg _) = layers_from_precompile_cache ctx

abbrev pub http_cli_args : SocketAddr → HttpCliArgs
http_cli_args address = record {
  address = address;
  tls_cert = none;
  tls_key = none;
  find_free_port = false;
  http1_max_buf_size = none;
  max_instance_reuse_count = none;
  max_instance_concurrent_reuse_count = none;
  request_timeout = none;
  idle_instance_timeout = 1;
}

-- The pieces of the variable that names the components to retain.
unfoldable pub components_to_retain : String → List String
components_to_retain components_env = keep (λ s. not (s == "")) (split "," components_env)

abbrev pub at_index : ℕ → Option String → Exec String
at_index index none = panic (index_out_of_bounds index)
at_index index (some trigger_type) = pure trigger_type

-- `trigger_type_map[index]`
abbrev pub index_map : List String → ℕ → Exec String
index_map trigger_type_map index = at_index index (get_elem? trigger_type_map index)

-- The last match of `run_wasi`, on how the abortable future ended.
abbrev pub exit_code : Outcome Unit → Outcome ℕ
exit_code (returned _) = returned 0
exit_code (failed e) = failed e
exit_code (panicked p) = panicked p
exit_code aborted = returned 0

unfoldable pub abortable : Exec Unit → Exec ℕ
abortable m w = let (outcome, w') = await m w in (exit_code outcome, w')

-- `SpinShim::supported_layers_types`
unfoldable pub supported_layers_types : Host → List String
supported_layers_types H =
    oci_layer_media_type_wasm ∷ oci_layer_media_type_wasm_wkg ∷ H.archive_mediatype
    ∷ H.data_mediatype ∷ H.spin_application_media_type ∷ []

module _ (H : Host) where
  module _ (ctx : RuntimeContext) (app_id : String) (app : LockedApp) (aot : Bool) where
    unfoldable pub run_http : Exec ℕ
    run_http = do
      found ← get_var spin_http_listen_addr_env
      address ← parse_addr H (get_or found spin_addr_default)
      run H http (http_args (http_cli_args address)) app_id app aot

    -- The match on the trigger's type.
    unfoldable pub launch : String → Exec ℕ
    unfolding run_http
    launch trigger_type =
        if trigger_type == H.http_trigger_type
        then await run_http
        else if trigger_type == H.redis_trigger_type
        then await (run H redis no_cli_args app_id app aot)
        else if trigger_type == H.sqs_trigger_type
        then await (run H sqs no_cli_args app_id app aot)
        else if trigger_type == H.command_trigger_type
        then await (run H command (command_args ctx.args) app_id app aot)
        else if trigger_type == H.mqtt_trigger_type
        then await (run H mqtt (mqtt_args false) app_id app aot)
        else panic unreachable_code

    -- The loop over the trigger types, with `futures_list` and `trigger_type_map`.
    unfoldable pub launch_all : List String → List ℕ → List String → Exec (List ℕ × List String)
    launch_all [] futures_list trigger_type_map = pure (futures_list, trigger_type_map)
    launch_all (trigger_type ∷ trigger_types) futures_list trigger_type_map = do
      f ← launch trigger_type
      launch_all trigger_types (futures_list ++ f ∷ []) (trigger_type_map ++ trigger_type ∷ [])

  -- `future::select_all`, which panics on an empty list.
  unfoldable pub select_all : List ℕ → Exec (Result (Unit {0}) × ℕ)
  select_all [] = panic empty_select
  select_all (f ∷ futures) =
      await (call (select (f ∷ futures)) (λ w. ok (H.select_first w (f ∷ futures))))

  unfoldable pub run_trigger : RuntimeContext → List String → LockedApp → Source → Exec Unit
  unfolding launch_all select_all
  run_trigger ctx trigger_types app app_source = do
    let aot = loader_aot ctx app_source
    hostname ← get_var "HOSTNAME"
    launched ← launch_all ctx (get_or hostname "unknown") app aot (H.hash_order trigger_types) [] []
    ended ← select_all launched.0
    index_map launched.1 ended.1
    lift ended.0

  unfoldable pub retain_configured : Option String → LockedApp → Exec LockedApp
  retain_configured none locked_app = pure locked_app
  retain_configured (some components_env) locked_app =
      let components = components_to_retain components_env in
      with_context (retaining_components components)
        (call (retain components) (λ w. H.retain_components w locked_app components))

  unfoldable pub wasm_exec_async : RuntimeContext → Exec Unit
  unfolding retain_configured
  wasm_exec_async ctx = do
    cache ← await (initialize_cache H)
    app_source ← await (from_ctx H cache ctx)
    loaded ← await (to_locked_app H cache app_source)
    components_env ← get_var spin_components_to_retain_env
    locked_app ← retain_configured components_env loaded
    configure_application_variables_from_environment_variables locked_app
    trigger_cmds ←
        with_context (finding_executor (debug app_source))
          (lift (get_supported_triggers H locked_app))
    call init_telemetry H.init_telemetry
    await (run_trigger ctx trigger_cmds locked_app app_source)

  unfoldable pub run_wasi : RuntimeContext → Exec ℕ
  unfolding set_envs
  run_wasi ctx = do
    set_envs ctx.envs
    call set_handler H.set_handler
    abortable (wasm_exec_async ctx)
