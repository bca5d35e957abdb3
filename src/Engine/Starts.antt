-- ===== src/Engine/Starts.antt =====
-- A run of containerd-shim-spin/src/engine.rs that comes to its end: which triggers it has started.
pub mod Rules
use containerd_shim_spin.Prelude.{
  ℕ, zero, suc, String, ◌≡◌, refl, sym, Option, none, some, List, ◌∷◌, arith, append-nil,
}
use mathlib.Core.List.{Perm}
use containerd_shim_spin.Env.{var}
use containerd_shim_spin.Oci.{RuntimeContext}
use containerd_shim_spin.App.{LockedApp, Launch}
use containerd_shim_spin.Exec.{
  await_returned, Call, start_trigger, World, returned, Exec, lift, at_await, await, with_context,
  call, init_telemetry, ◌>>◌, finding_executor, ◌>>=◌, >>=-returned,
}
use containerd_shim_spin.Exec.Makes.{Makes}
use containerd_shim_spin.Host.{Host, Cache}
use containerd_shim_spin.Utils.{
  initialize_cache, configure_application_variables_from_environment_variables,
}
use containerd_shim_spin.Source.{Source, debug, from_ctx, to_locked_app}
use containerd_shim_spin.Trigger.{get_supported_triggers}
use containerd_shim_spin.Trigger.Supported.{IsTypeSet}
use containerd_shim_spin.Engine.{loader_aot, retain_configured, run_trigger}
use containerd_shim_spin.Engine.Launches.{launches-append, Launched}
use containerd_shim_spin.Engine.Starts.Rules.{Starts}

module _ (H : Host) (lawful : (types : List String) → Perm (H.hash_order types) types)
    (ctx : RuntimeContext) where
  -- Where the source and the app of a run come from, step by step from its first state: the source from
  -- the context, an app from the source, and of its components those that the variable asks to retain.
  pub record IsLoaded (w : World) (source : Source) (app : LockedApp) : Type 0 where
    pub cache : Cache
    pub loaded : LockedApp
    pub w1 : World
    pub w2 : World
    pub w3 : World
    pub w4 : World
    pub initialized : await (initialize_cache H) w ≡ (returned cache, w1)
    pub of_context : await (from_ctx H cache ctx) w1 ≡ (returned source, w2)
    pub of_source : await (to_locked_app H cache source) w2 ≡ (returned loaded, w3)
    pub retained :
        retain_configured H (var w3.env "SPIN_COMPONENTS_TO_RETAIN") loaded w3 ≡ (returned app, w4)

  -- One trigger for each type of the app's triggers, in some order of the set of these types; all with
  -- the same app and id, and the AOT setting that the source allows.
  pub record IsStarted (w : World) (ls : List Launch) : Type 0 where
    pub app : LockedApp
    pub app_id : String
    pub source : Source
    pub types : List String
    pub provenance : IsLoaded w source app
    pub order : List String
    pub set : IsTypeSet H app.triggers types
    pub listed : Perm order types
    pub launched : Launched H ctx app_id app (loader_aot ctx source) order ls

  abbrev supported : Source → LockedApp → Exec (List String)
  supported source app =
      with_context (finding_executor (debug source)) (lift (get_supported_triggers H app))

  -- The part of `wasm_exec_async` after `retain_components`.
  abbrev run_loaded : Source → LockedApp → Exec Unit
  run_loaded source app = do
    configure_application_variables_from_environment_variables app
    types ← supported source app
    call init_telemetry H.init_telemetry
    await (run_trigger H ctx types app source)
