-- ===== src/Engine/Success.antt =====
-- A whole run of containerd-shim-spin/src/engine.rs on a host where nothing fails.
pub mod Up
pub mod Setup
pub mod Triggers
mod Loading
use mathlib.Core.Path.{subst}
use containerd_shim_spin.Prelude.{
  ℕ, String, ◌≡◌, refl, sym, ap, ◌∙◌, ◌⊎◌, Bool, true, false, ◌&&◌, ◌||◌, Option, none, some, List,
  [], ◌∷◌, ◌++◌, arith, all, any, inl, inr, eq_refl,
}
use containerd_shim_spin.Prelude.Maps.{lookup}
use containerd_shim_spin.Oci.{Bytes, WasmLayer, oci, RuntimeContext}
use containerd_shim_spin.App.{LockedApp, LockedTrigger}
use containerd_shim_spin.Exec.{
  World, Exec, Result, Result-cases, ok, Outcome, returned, failed, panicked, aborted, await, ◌>>=◌,
  ◌>>◌, get_var, with_context, lift, call, finding_executor, init_telemetry,
}
use containerd_shim_spin.Exec.Total.{
  clean_mode, IsReady, IsClean, Given, Gives, AnyValue, Returns, Given-returned, Gives-gets,
  Gives-lift, Gives-call, Gives-with_context, Gives-await, Gives-bind_of, Gives-bind,
}
use containerd_shim_spin.Exec.Total.States.{
  Given-await, Given-bind, Given-bind_at, Given-bind_await,
}
use containerd_shim_spin.Host.{Host, Cache}
use containerd_shim_spin.Utils.{configure_application_variables_from_environment_variables}
use containerd_shim_spin.Oci.{spin_components_to_retain_env}
use containerd_shim_spin.Source.{Source, oci_spin, from_entry, from_ctx, to_locked_app, debug}
use containerd_shim_spin.Source.Layers.{config_of, is_package}
use containerd_shim_spin.Source.Images.{from_entry-oci_spin}
use containerd_shim_spin.Source.Manifest.{config_of-some}
use containerd_shim_spin.Source.Success.{from_entry-GivesSpin}
use containerd_shim_spin.Trigger.{contains, supported_triggers, get_supported_triggers}
use containerd_shim_spin.Trigger.Supported.{
  IsTypeSet, FirstUnsupported, first_unsupported, has_type, get_supported_triggers-eq-ok,
  get_supported_triggers-eq-err,
}
use containerd_shim_spin.Engine.{
  exit_code, abortable, retain_configured, run_trigger, wasm_exec_async, run_wasi, set_envs,
}
use containerd_shim_spin.Engine.Panics.{IsLawful}
use containerd_shim_spin.Engine.Shutdown.{entry_settable, set_envs-eq-setting, setting-returned}
use containerd_shim_spin.Engine.Success.Up.{has_supported_type, IsRunnable, IsUp}
use containerd_shim_spin.Engine.Success.Setup.{
  set_envs-Returns, initialize_cache-Returns, to_locked_app-Given, retain_configured-Gives,
  configure_variables-Returns,
}
use containerd_shim_spin.Engine.Success.Triggers.{run_trigger-Returns}
use containerd_shim_spin.Engine.Success.Loading.{run_source, run_cache, run_source-Given}

module _ (H : Host) (U : IsUp H) (L : IsLawful H) (ctx : RuntimeContext) (layers : List WasmLayer)
    (cut : Type 0) (bytes : Bytes) (app : LockedApp) where
  module _ (image : ctx.entrypoint ≡ oci layers) (plain : any is_package layers ≡ false)
      (held : config_of H none layers ≡ some bytes) (decodes : H.from_json bytes ≡ ok app)
      (runnable : IsRunnable H app) where
    -- After the image: what it stores is there when it is read.
    abbrev AfterImage : Cache → World → Outcome Source × World → Type 0
    AfterImage cache w (r, w') =
        ((source : Source) × (r ≡ returned source)
          × (let (r', w'') = run_source H ctx cache source w' in
              Given (clean_mode cut) AnyValue r' w''))
        ⊎ ((r ≡ aborted) × cut)

    from_image-AfterImage :
        (cache : Cache) (w : World)
        → IsReady (clean_mode cut) w
        → AfterImage cache w (from_entry H cache (oci layers) w)
    from_image-AfterImage cache w q =
        let given =
          (from_entry-GivesSpin (clean_mode cut) H cache (U.healthy cache) layers plain).at w q in
        elim (Given-returned (clean_mode cut) _ _ _ given) [
          | inr dropped ↦ inr dropped
          | inl (source, done, same, ready) ↦
              let loaded = done ∙ ap returned same in
              let stored = from_entry-oci_spin H cache layers w loaded in
              let there = stored.config_kept ∙ config_of-some H layers _ held in
              inl (
                oci_spin,
                loaded,
                run_source-Given cut H U L ctx bytes app cache _ decodes runnable ready there,
              )
        ]

    run_cache-Returns : (cache : Cache) → Returns (clean_mode cut) (run_cache H ctx cache)
    run_cache-Returns cache = record {
      at = λ w q.
          Given-bind_await (clean_mode cut) AnyValue (from_ctx H cache ctx) (run_source H ctx cache)
            w q
            λ signal may.
              let w' = record w { signal = signal } in
              Given-bind_at (clean_mode cut) AnyValue (from_ctx H cache ctx)
                (run_source H ctx cache) w'
                (subst (λ entry. AfterImage cache w' (from_entry H cache entry w')) (sym image)
                  (from_image-AfterImage cache w' (may, q.1)));
    }

    wasm_exec_async-Returns : Returns (clean_mode cut) (wasm_exec_async H ctx)
    unfolding wasm_exec_async
    wasm_exec_async-Returns =
        Gives-bind _ _ (Gives-await _ (initialize_cache-Returns cut H U))
          λ cache. run_cache-Returns cache

    exit_code-Given :
        (r : Outcome Unit) (w : World)
        → Given (clean_mode cut) AnyValue r w
        → exit_code r ≡ returned 0
    exit_code-Given (returned _) w h = refl
    exit_code-Given (failed e) w h = absurd h
    exit_code-Given (panicked p) w h = absurd h
    exit_code-Given aborted w h = refl

    abortable-zero :
        (w : World)
        → IsReady (clean_mode cut) w
        → (abortable (wasm_exec_async H ctx) w).0 ≡ returned 0
    unfolding abortable
    abortable-zero w q = exit_code-Given _ _ ((Gives-await _ wasm_exec_async-Returns).at w q)

    set_envs-IsReady :
        (w : World)
        → all entry_settable ctx.envs ≡ true
        → IsReady (clean_mode cut) w
        → ((set_envs ctx.envs w).0 ≡ returned tt) × IsReady (clean_mode cut) (set_envs ctx.envs w).1
    set_envs-IsReady w settable q =
        let done = set_envs-eq-setting ctx.envs w ∙ setting-returned ctx.envs settable in
        let given = (set_envs-Returns cut ctx.envs settable).at w q in (done, (rw done at given).1)

    run_wasi-zero :
        (w : World)
        → all entry_settable ctx.envs ≡ true
        → IsReady (clean_mode cut) w
        → (run_wasi H ctx w).0 ≡ returned 0
    unfolding run_wasi ◌>>=◌ call
    run_wasi-zero w settable q =
        let (done, ready) = set_envs-IsReady w settable q in
        simp (done, U.ready_handler) (abortable-zero _ ready)

-- The asynchronous part of a run of a Spin application comes to its end. The image holds a
-- configuration and no package; the configuration decodes to an app that has a trigger, whose triggers
-- are all supported and whose variables have names that can be set; no call of the host fails, and the
-- trigger that ends first ends without an error; no variable of the process holds a NUL character; and
-- no signal comes. (A `HashSet` iterates over its members, `select_all` names one of its futures, and
-- the components to retain leave such an app.)
pub wasm_exec_async_succeeds :
    (H : Host)
    → IsUp H
    → IsLawful H
    → (ctx : RuntimeContext) (layers : List WasmLayer) (bytes : Bytes) (app : LockedApp)
    → ctx.entrypoint ≡ oci layers
    → any is_package layers ≡ false
    → config_of H none layers ≡ some bytes
    → H.from_json bytes ≡ ok app
    → IsRunnable H app
    → (w : World) → w.signal ≡ none
    → IsClean w.env
    → (wasm_exec_async H ctx w).0 ≡ returned tt
wasm_exec_async_succeeds H U L ctx layers bytes app image plain held decodes runnable w quiet
      clean =
    let returns =
      wasm_exec_async-Returns H U L ctx layers ⊥ bytes app image plain held decodes runnable in
    elim (Given-returned (clean_mode ⊥) AnyValue _ _ (returns.at w (inl quiet, clean))) [
      | inl (_, done, _, _) ↦ done
      | inr (dropped, never) ↦ absurd never
    ]

-- A run of a Spin application returns the exit code 0, whether or not a signal comes, and whenever it
-- comes. The image holds a configuration and no package; the configuration decodes to an app that has a
-- trigger, whose triggers are all supported and whose variables have names that can be set; every entry
-- of the container's environment can be set; no call of the host fails, and the trigger that ends first
-- ends without an error; and no variable of the process holds a NUL character. (A `HashSet` iterates
-- over its members, `select_all` names one of its futures, and the components to retain leave such an
-- app.)
pub run_wasi_succeeds :
    (H : Host)
    → IsUp H
    → IsLawful H
    → (ctx : RuntimeContext) (layers : List WasmLayer) (bytes : Bytes) (app : LockedApp)
    → ctx.entrypoint ≡ oci layers
    → any is_package layers ≡ false
    → config_of H none layers ≡ some bytes
    → H.from_json bytes ≡ ok app
    → IsRunnable H app
    → (w : World) → all entry_settable ctx.envs ≡ true
    → IsClean w.env
    → (run_wasi H ctx w).0 ≡ returned 0
run_wasi_succeeds H U L ctx layers bytes app image plain held decodes runnable w settable clean =
    run_wasi-zero H U L ctx layers Unit bytes app image plain held decodes runnable w settable
      (inr tt, clean)
