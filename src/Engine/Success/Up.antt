-- ===== src/Engine/Success/Up.antt =====
-- What a run of containerd-shim-spin/src/engine.rs needs to come to its end: of the host and of the app.
use containerd_shim_spin.Prelude.{ℕ, String, ◌≡◌, Bool, true, none, List, ◌∷◌, all, any}
use containerd_shim_spin.Text.{to_ascii_uppercase}
use containerd_shim_spin.Env.{unicode, is_settable}
use containerd_shim_spin.App.{
  Component, LockedApp, LockedTrigger, TriggerKind, CliArgs, Launch, SocketAddr,
}
use containerd_shim_spin.Exec.{ok, World}
use containerd_shim_spin.Host.{Host, Cache}
use containerd_shim_spin.Utils.{prefixed}
use containerd_shim_spin.Trigger.{contains, supported_triggers}
use containerd_shim_spin.Source.Success.{IsHealthy}

-- The provider's name for a variable can be set.
abbrev pub is_nameable : String → Bool
is_nameable key = is_settable (prefixed (to_ascii_uppercase key)) (unicode "")

abbrev pub has_supported_type : Host → LockedTrigger → Bool
has_supported_type H trigger = contains (supported_triggers H) trigger.trigger_type

-- An app that can be run: it has a trigger, all its triggers are supported, and its variables have
-- names that can be set.
pub record IsRunnable (H : Host) (app : LockedApp) : Type 0 where
  pub some_trigger : any (has_supported_type H) app.triggers ≡ true
  pub all_supported : all (has_supported_type H) app.triggers ≡ true
  pub nameable : all is_nameable app.variables ≡ true

-- A host on which no call fails, and the trigger that ends first ends without an error. The
-- components to retain, when they are chosen, leave an app that can be run.
pub record IsUp (H : Host) : Type 0 where
  pub opens_cache : (w : World) (path : String) → (cache : Cache) × (H.new_cache w path ≡ ok cache)
  pub healthy : (cache : Cache) → IsHealthy H cache
  pub reads : (w : World) (path : String) → H.read_fault w path ≡ none
  pub resolves :
      (w : World) (cache : Cache) (component : Component)
      → (resolved : Component) × (H.resolve_component_content_refs w cache component ≡ ok resolved)
  pub retains :
      (w : World) (app : LockedApp) (names : List String)
      → IsRunnable H app
      → (kept : LockedApp) × (H.retain_components w app names ≡ ok kept) × IsRunnable H kept
  pub ready_telemetry : (w : World) → H.init_telemetry w ≡ ok tt
  pub ready_handler : (w : World) → H.set_handler w ≡ ok tt
  pub finds_address :
      (w : World) (addr : String)
      → (found : SocketAddr) × (others : List SocketAddr) × (H.to_socket_addrs w addr
          ≡ ok (found ∷ others))
  pub makes_trigger :
      (w : World) (kind : TriggerKind) (args : CliArgs) (app : LockedApp)
      → H.new_trigger w kind args app ≡ ok tt
  pub starts_trigger : (w : World) (launch : Launch) → (f : ℕ) × (H.run_trigger_app w launch ≡ ok f)
  pub ends_well :
      (w : World) (f : ℕ) (futures : List ℕ) → (H.select_first w (f ∷ futures)).0 ≡ ok tt
