-- ===== src/Engine/Success/Loading.antt =====
-- A run of containerd-shim-spin/src/engine.rs after its image has been stored, on a host where nothing
-- fails.
use containerd_shim_spin.Prelude.{
  String, ◌≡◌, refl, Bool, true, false, some, List, [], ◌∷◌, ◌++◌, arith, all, any, inl, inr,
  eq_refl,
}
use containerd_shim_spin.Prelude.Maps.{lookup}
use containerd_shim_spin.Oci.{Bytes, RuntimeContext}
use containerd_shim_spin.App.{LockedApp, LockedTrigger}
use containerd_shim_spin.Exec.{
  World, Exec, Result-cases, ok, await, ◌>>=◌, ◌>>◌, get_var, with_context, lift, call,
  finding_executor, init_telemetry,
}
use containerd_shim_spin.Exec.Total.{
  clean_mode, IsReady, Given, AnyValue, Returns, Gives-gets, Gives-lift, Gives-call,
  Gives-with_context, Gives-await, Gives-bind_of, Gives-bind,
}
use containerd_shim_spin.Exec.Total.States.{Given-await, Given-bind}
use containerd_shim_spin.Host.{Host, Cache}
use containerd_shim_spin.Utils.{configure_application_variables_from_environment_variables}
use containerd_shim_spin.Oci.{spin_components_to_retain_env}
use containerd_shim_spin.Source.{Source, oci_spin, from_ctx, to_locked_app, debug}
use containerd_shim_spin.Trigger.{contains, supported_triggers, get_supported_triggers}
use containerd_shim_spin.Trigger.Supported.{
  IsTypeSet, first_unsupported, get_supported_triggers-eq-ok, get_supported_triggers-eq-err,
}
use containerd_shim_spin.Engine.{retain_configured, run_trigger}
use containerd_shim_spin.Engine.Panics.{IsLawful}
use containerd_shim_spin.Engine.Success.Up.{has_supported_type, IsRunnable, IsUp}
use containerd_shim_spin.Engine.Success.Setup.{
  to_locked_app-Given, retain_configured-Gives, configure_variables-Returns,
}
use containerd_shim_spin.Engine.Success.Triggers.{run_trigger-Returns}

-- Some types, all of them supported.
abbrev AreTypes : Host → List String → Type 0
AreTypes H types =
    (all (contains (supported_triggers H)) types ≡ true) × (all (λ _. false) types ≡ false)

all-middle :
    {A : Type 0} (p : A → Bool) (front : List A) (x : A) (back : List A)
    → all p (front ++ x ∷ back) ≡ true
    → p x ≡ true
all-middle p [] x back h = ground arith
all-middle p (y ∷ front) x back h = all-middle p front x back (ground arith)

some_type :
    (H : Host) (triggers : List LockedTrigger) (types : List String)
    → any (has_supported_type H) triggers ≡ true
    → IsTypeSet H triggers types
    → all (λ _. false) types ≡ false
some_type H [] types some_trigger set = cc
some_type H (trigger ∷ triggers) [] some_trigger set =
    cc (set.exact trigger.trigger_type, eq_refl trigger.trigger_type)
some_type H (trigger ∷ triggers) (type ∷ types) some_trigger set = refl

get_supported_triggers-AreTypes :
    (H : Host) (app : LockedApp)
    → IsRunnable H app
    → (types : List String) × (get_supported_triggers H app ≡ ok types) × AreTypes H types
get_supported_triggers-AreTypes H app runnable =
    elim (Result-cases (get_supported_triggers H app)) [
      | inl (types, found) ↦
          let set = get_supported_triggers-eq-ok H app types found in
          (
            types,
            found,
            (set.all_supported, some_type H app.triggers types runnable.some_trigger set),
          )
      | inr (e, refused) ↦ elim (get_supported_triggers-eq-err H app e refused) [
        | first_unsupported front bad back whole good unknown same ↦
            let fine =
              all-middle (has_supported_type H) front bad back
                (rw whole at runnable.all_supported) in
            cc fine
      ]
    ]

-- The parts of `wasm_exec_async`: after its cache, after its source, and after its app.
module _ (H : Host) (ctx : RuntimeContext) where
  abbrev pub run_loaded : Source → LockedApp → Exec Unit
  run_loaded app_source loaded = do
    components_env ← get_var spin_components_to_retain_env
    locked_app ← retain_configured H components_env loaded
    configure_application_variables_from_environment_variables locked_app
    trigger_cmds ←
        with_context (finding_executor (debug app_source))
          (lift (get_supported_triggers H locked_app))
    call init_telemetry H.init_telemetry
    await (run_trigger H ctx trigger_cmds locked_app app_source)

  abbrev pub run_source : Cache → Source → Exec Unit
  run_source cache app_source = do
    loaded ← await (to_locked_app H cache app_source)
    run_loaded app_source loaded

  abbrev pub run_cache : Cache → Exec Unit
  run_cache cache = do app_source ← await (from_ctx H cache ctx); run_source cache app_source

module _ (cut : Type 0) (H : Host) (U : IsUp H) (L : IsLawful H) (ctx : RuntimeContext) where
  -- From the loaded app on.
  run_loaded-Returns :
      (source : Source) (loaded : LockedApp)
      → IsRunnable H loaded
      → Returns (clean_mode cut) (run_loaded H ctx source loaded)
  unfolding configure_application_variables_from_environment_variables
  run_loaded-Returns source loaded can = Gives-bind _ _ (Gives-gets _ λ w _. tt) λ found.
      Gives-bind_of (IsRunnable H) _ _ (retain_configured-Gives cut H U found loaded can)
        λ kept can.
          Gives-bind _ _ (configure_variables-Returns cut kept.variables can.nameable) λ _.
            Gives-bind_of (AreTypes H) _ _
              (Gives-with_context _ _ (Gives-lift _ (get_supported_triggers-AreTypes H kept can)))
              λ types (known, some_type).
                Gives-bind _ _ (Gives-call _ _ λ w. (tt, U.ready_telemetry w, tt)) λ _.
                  Gives-await _ (
                    run_trigger-Returns (clean_mode cut) H U ctx L types kept source known
                      some_type)

  pub run_source-Given :
      (bytes : Bytes) (app : LockedApp) (cache : Cache) (w : World)
      → H.from_json bytes ≡ ok app
      → IsRunnable H app
      → IsReady (clean_mode cut) w
      → lookup "/spin.json" w.files ≡ some bytes
      → let (r, w') = run_source H ctx cache oci_spin w in Given (clean_mode cut) AnyValue r w'
  run_source-Given bytes app cache w decodes runnable q there =
      Given-bind (clean_mode cut) (IsRunnable H) _ _ _ w
        (Given-await (clean_mode cut) _ _ w q λ signal may.
          to_locked_app-Given cut H U cache bytes app _ decodes runnable (may, q.1) there)
        λ loaded can. run_loaded-Returns oci_spin loaded can
