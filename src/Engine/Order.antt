-- ===== src/Engine/Order.antt =====
-- The order of the calls of a whole run: `run_wasi` of containerd-shim-spin/src/engine.rs.
use containerd_shim_spin.Prelude.{
  ℕ, String, ◌≡◌, refl, Option, none, some, List, [], ◌∷◌, arith, Bool,
}
use containerd_shim_spin.Oci.{RuntimeContext}
use containerd_shim_spin.App.{LockedApp}
use containerd_shim_spin.Exec.{new_cache, init_telemetry, set_handler, select, World, Exec}
use containerd_shim_spin.Exec.Makes.{Makes-gets, makes_rules}
use containerd_shim_spin.Exec.Stages.{Ordered}
use containerd_shim_spin.Exec.Within.{
  Within, Within-Makes, Within-silent, Within-call, Within-await, Within-with_context, Within-calls,
  Within-bind, Within-after_silent, Within-before_silent,
}
use containerd_shim_spin.Host.{Host, Cache}
use containerd_shim_spin.Utils.{
  initialize_cache, configure_application_variables_from_environment_variables,
}
use containerd_shim_spin.Source.{Source, from_entry, to_locked_app}
use containerd_shim_spin.Source.Calls.{
  configure_variables-Makes, from_entry-Makes, to_locked_app-Makes,
}
use containerd_shim_spin.Engine.{
  launch_all, select_all, run_trigger, retain_configured, wasm_exec_async, abortable, run_wasi,
}
use containerd_shim_spin.Engine.Calls.{set_envs-Makes, at_index-Makes, launch_all-Makes}

abortable-Within : (lo hi : ℕ) (m : Exec Unit) → Within lo hi m → Within lo hi (abortable m)
unfolding abortable
abortable-Within lo hi m k = record { at = λ w. (Within-await lo hi m k).at w }

module _ (H : Host) (ctx : RuntimeContext) where
  initialize_cache-Within : Within 1 1 (initialize_cache H)
  unfolding initialize_cache
  initialize_cache-Within =
      Within-before_silent 1 1 _ _
        (Within-with_context 1 1 _ _ (Within-await 1 1 _ (Within-call (new_cache "/.cache") _)))
        λ cache. search makes_rules

  from_entry-Within : (cache : Cache) → Within 2 2 (from_entry H cache ctx.entrypoint)
  from_entry-Within cache =
      Within-Makes 2 _ refl
        (from_entry-Makes H _ cache (λ _ _. refl) (λ _ _. refl) (λ _ _. refl) ctx.entrypoint)

  to_locked_app-Within :
      (cache : Cache) (source : Source) → Within 3 3 (to_locked_app H cache source)
  to_locked_app-Within cache source =
      Within-Makes 3 _ refl
        (to_locked_app-Makes H _ cache (λ _. refl) (λ _. refl) (λ _. refl) source)

  retain_configured-Within :
      (found : Option String) (app : LockedApp) → Within 4 4 (retain_configured H found app)
  unfolding retain_configured
  retain_configured-Within none app = Within-silent 4 4 _ (search makes_rules)
  retain_configured-Within (some names) app = Within-with_context 4 4 _ _ (Within-call _ _)

  launch_all-Within :
      (app_id : String) (app : LockedApp) (aot : Bool) (types : List String)
      → Within 6 6 (launch_all H ctx app_id app aot types [] [])
  launch_all-Within app_id app aot types =
      Within-Makes 6 _ refl (
        launch_all-Makes H _ ctx app_id app aot (λ _ _. refl) (λ _ _. refl) (λ _. refl) types [] [])

  select_all-Within : (futures : List ℕ) → Within 7 7 (select_all H futures)
  unfolding select_all
  select_all-Within [] = Within-silent 7 7 _ (search makes_rules)
  select_all-Within (f ∷ futures) = Within-await 7 7 _ (Within-call (select (f ∷ futures)) _)

  run_trigger-Within :
      (types : List String) (app : LockedApp) (source : Source)
      → Within 6 7 (run_trigger H ctx types app source)
  unfolding run_trigger
  run_trigger-Within types app source = Within-after_silent 6 7 _ _ (Makes-gets _) λ hostname.
      Within-bind 6 6 7 7 _ _ (omega arith) (omega arith) (omega arith)
        (launch_all-Within _ app _ _)
        λ launched.
          Within-before_silent 7 7 _ _ (select_all-Within launched.0)
            λ ended. search (makes_rules, at_index-Makes)

  wasm_exec_async-Within : Within 1 7 (wasm_exec_async H ctx)
  unfolding wasm_exec_async configure_application_variables_from_environment_variables
  wasm_exec_async-Within =
      Within-bind 1 1 2 7 _ _ (omega arith) (omega arith) (omega arith)
        (Within-await 1 1 _ initialize_cache-Within)
        λ cache.
          Within-bind 2 2 3 7 _ _ (omega arith) (omega arith) (omega arith)
            (Within-await 2 2 _ (from_entry-Within cache))
            λ source.
              Within-bind 3 3 4 7 _ _ (omega arith) (omega arith) (omega arith)
                (Within-await 3 3 _ (to_locked_app-Within cache source))
                λ loaded. Within-after_silent 4 7 _ _ (Makes-gets _) λ found.
                  Within-bind 4 4 5 7 _ _ (omega arith) (omega arith) (omega arith)
                    (retain_configured-Within found loaded)
                    λ app. Within-after_silent 5 7 _ _ (configure_variables-Makes H _ _) λ done.
                      Within-after_silent 5 7 _ _ (search makes_rules) λ types.
                        Within-bind 5 5 6 7 _ _ (omega arith) (omega arith) (omega arith)
                          (Within-call init_telemetry _)
                          λ ready. Within-await 6 7 _ (run_trigger-Within types app source)

  run_wasi-Within : Within 0 7 (run_wasi H ctx)
  unfolding run_wasi
  run_wasi-Within = Within-after_silent 0 7 _ _ (set_envs-Makes H _ ctx.envs) λ set.
      Within-bind 0 0 1 7 _ _ (omega arith) (omega arith) (omega arith) (Within-call set_handler _)
        λ handled. abortable-Within 1 7 _ wasm_exec_async-Within

  -- Whatever the host answers, however the run ends and whenever the signal arrives, the calls of a run
  -- go through the stages in their order: the signal handler, the cache, the layers, the application,
  -- its components, telemetry, the triggers, and the wait for the first of them. Only layers, the parts
  -- of the application and triggers take more than one call. (The run starts with no call made.)
  pub run_wasi-Ordered : (w : World) → w.calls ≡ [] → Ordered 0 7 (run_wasi H ctx w).1.calls
  run_wasi-Ordered w start = Within-calls 0 7 _ w run_wasi-Within start
