-- ===== src/Engine/Aot.antt =====
-- The guard on AOT loading in `run_trigger` of containerd-shim-spin/src/engine.rs, over whole runs of
-- the shim.
pub mod Image
use containerd_shim_spin.Prelude.{String, ◌≡◌, refl, List, [], ◌∷◌, ◌++◌, All}
use containerd_shim_spin.Oci.{RuntimeContext}
use containerd_shim_spin.App.{LockedApp}
use containerd_shim_spin.Exec.{World, Exec, ◌>>=◌}
use containerd_shim_spin.Exec.Makes.{
  Makes, Makes-bind, Makes-gets, Makes-await, Makes-calls, makes_rules,
}
use containerd_shim_spin.Host.{Host}
use containerd_shim_spin.Utils.{configure_application_variables_from_environment_variables}
use containerd_shim_spin.Source.{Source}
use containerd_shim_spin.Source.Calls.{
  initialize_cache-Makes, configure_variables-Makes, from_entry-Makes, to_locked_app-Makes,
}
use containerd_shim_spin.Engine.{run_trigger, wasm_exec_async, abortable, run_wasi}
use containerd_shim_spin.Engine.Calls.{
  set_envs-Makes, select_all-Makes, at_index-Makes, retain_configured-Makes, launch_all-Makes,
}
use containerd_shim_spin.Engine.Aot.Image.{IsGuarded, Guarded, loader_aot-IsTrusted}

abortable-Guarded :
    (ctx : RuntimeContext) (m : Exec Unit) → Guarded ctx m → Guarded ctx (abortable m)
unfolding abortable
abortable-Guarded ctx m k = record { at = λ w. (Makes-await m k).at w }

module _ (H : Host) (ctx : RuntimeContext) where
  run_trigger-Guarded :
      (types : List String) (app : LockedApp) (source : Source)
      → Guarded ctx (run_trigger H ctx types app source)
  unfolding run_trigger
  run_trigger-Guarded types app source =
      let guard = loader_aot-IsTrusted ctx source in
      Makes-bind _ _ (Makes-gets _) λ hostname.
        Makes-bind _ _
          (launch_all-Makes H _ ctx _ app _ (λ _ _. tt) (λ l same aot. guard (rw (← same) aot))
            (λ _. tt) _ _ _)
          λ launched. search (makes_rules, select_all-Makes, at_index-Makes) depth 8

  wasm_exec_async-Guarded : Guarded ctx (wasm_exec_async H ctx)
  unfolding wasm_exec_async configure_application_variables_from_environment_variables
  wasm_exec_async-Guarded =
      search
        (
          makes_rules, initialize_cache-Makes, from_entry-Makes, to_locked_app-Makes,
          retain_configured-Makes, configure_variables-Makes, run_trigger-Guarded,
        )
        depth 24

  run_wasi-Guarded : Guarded ctx (run_wasi H ctx)
  unfolding run_wasi
  run_wasi-Guarded = Makes-bind _ _ (set_envs-Makes H _ ctx.envs) λ set.
      Makes-bind _ _ (search makes_rules) λ handled. abortable-Guarded ctx _ wasm_exec_async-Guarded

  -- Whatever the host answers and whenever the signal arrives, a trigger is started with AOT loading
  -- only if the container's image has a Wasm layer and each of its Wasm layers comes from the local
  -- precompile cache. (The run starts with no call made.)
  pub run_wasi-IsGuarded :
      (w : World) → w.calls ≡ [] → All (IsGuarded ctx.entrypoint) (run_wasi H ctx w).1.calls
  run_wasi-IsGuarded w start = Makes-calls w run_wasi-Guarded start
