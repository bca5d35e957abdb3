-- ===== src/Engine/Errors.antt =====
-- How a run of containerd-shim-spin/src/engine.rs may fail.
mod Starting
use containerd_shim_spin.Prelude.{ℕ, String, ◌≡◌, refl, Bool, true, false, List, length}
use containerd_shim_spin.Oci.{WasmLayer, Entry, oci, RuntimeContext}
use containerd_shim_spin.App.{LockedApp, TriggerKind, CliArgs, Launch, SocketAddr}
use containerd_shim_spin.Exec.{
  Context, text, retaining_components, finding_executor, Error, unparsed_address, context, Result,
  err, World, Exec, pure, fail, continue, of_result, ◌>>=◌,
}
use containerd_shim_spin.Exec.Fails.{FailsBy, Refuses, Failed-from, Fails-fail}
use containerd_shim_spin.Host.{Host}
use containerd_shim_spin.Utils.{parse_addr, first_addr}
use containerd_shim_spin.Source.{Source, debug, from_ctx, to_locked_app}
use containerd_shim_spin.Source.Errors.{IsStoreError, IsLoadError}
use containerd_shim_spin.Trigger.{run, get_supported_triggers}
use containerd_shim_spin.Trigger
use containerd_shim_spin.Trigger.Supported.{FirstUnsupported}
use containerd_shim_spin.Engine.{run_http, launch, launch_all}
use containerd_shim_spin.Engine.Arms.{launch_arms}
use containerd_shim_spin.Engine.Errors.Starting.{IsStartError}

module _ (H : Host) where
  -- Why a run has failed, with the context that the shim puts around the error.
  pub data IsRunError (entry : Entry) : Error → Type 0 where
    no_handler : {e : Error} → Refuses H.set_handler e → IsRunError entry e
    no_cache :
        {e : Error}
        → Refuses (λ w. H.new_cache w "/.cache") e
        → IsRunError entry (context (text "failed to create cache") e)
    not_stored :
        {e : Error} (layers : List WasmLayer)
        → entry ≡ oci layers
        → IsStoreError H (length layers) e
        → IsRunError entry e
    not_loaded : {e : Error} (source : Source) → IsLoadError H source e → IsRunError entry e
    not_retained :
        {e : Error} (names : List String) (app : LockedApp)
        → Refuses (λ w. H.retain_components w app names) e
        → IsRunError entry (context (retaining_components names) e)
    unsupported :
        {e : Error} (source : Source) (app : LockedApp)
        → FirstUnsupported H app.triggers e
        → IsRunError entry (context (finding_executor (debug source)) e)
    no_telemetry : {e : Error} → Refuses H.init_telemetry e → IsRunError entry e
    not_launched : {e : Error} → IsStartError H e → IsRunError entry e
    trigger_failed :
        {e : Error} (futures : List ℕ)
        → (w : World) × ((H.select_first w futures).0 ≡ err e)
        → IsRunError entry e

  module _ (ctx : RuntimeContext) where
    abbrev Runs : {A : Type 0} → Exec A → Type 0
    Runs m = FailsBy (IsRunError ctx.entrypoint) m

    -- What `select_all` returns is the host's answer for these futures.
    abbrev IsFirst : List ℕ → Result (Unit {0}) × ℕ → Type 0
    IsFirst futures ended = (w : World) × (H.select_first w futures ≡ ended)
