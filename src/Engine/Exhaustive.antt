-- ===== src/Engine/Exhaustive.antt =====
-- The match on a trigger's type in `run_trigger` of containerd-shim-spin/src/engine.rs beside the set
-- of types in `get_supported_triggers` of containerd-shim-spin/src/trigger.rs: each kind has its arm.
use mathlib.Core.Equiv.{IsEquiv}
use containerd_shim_spin.Prelude.{ℕ, String, Bool, ◌≡◌, sym, true, [], ◌∷◌, ◌++◌}
use containerd_shim_spin.Oci.{RuntimeContext}
use containerd_shim_spin.App.{LockedApp, TriggerKind, Launch}
use containerd_shim_spin.Exec.{World, Exec, returned}
use containerd_shim_spin.Host.{Host}
use containerd_shim_spin.Trigger.{supported_triggers}
use containerd_shim_spin.Trigger.Supported.{nodup}
use containerd_shim_spin.Engine.{launch}
use containerd_shim_spin.Engine.Kinds.{
  kind_type, supported_kind, supported_kind-IsEquiv, kind_type-injective,
}
use containerd_shim_spin.Engine.Launches.{launches, IsLaunch, launch-Starter}

module _ (H : Host) (ctx : RuntimeContext) (app_id : String) (app : LockedApp) (aot : Bool) where
  -- An action that starts one trigger, of this kind and as the kind's type asks for, when it returns.
  abbrev pub StartsKind : TriggerKind → Exec ℕ → Type 0
  StartsKind kind m =
      (w : World) (f : ℕ)
      → (m w).0 ≡ returned f
      → (l : Launch) × (launches (m w).1.calls ≡ launches w.calls ++ l ∷ [])
        × (l.kind ≡ kind)
        × IsLaunch H ctx app_id app aot (kind_type H kind) l

  pub record IsExhaustive : Type 0 where
    pub one_type_each : IsEquiv (supported_kind H)
    pub own_arm :
        (kind : TriggerKind) → StartsKind kind (launch H ctx app_id app aot (kind_type H kind))

  -- When no two kinds of triggers share a type, the five kinds correspond one to one to the types that
  -- `get_supported_triggers` accepts, and the match of `run_trigger` on the type of a kind, when it
  -- returns, has started one trigger, of this kind, and no other: with the arguments of the kind, which
  -- are for HTTP an address, for the command trigger the container's arguments and else none, and with
  -- the app, the id and the AOT setting of the run.
  pub launch-IsExhaustive : nodup (supported_triggers H) ≡ true → IsExhaustive
  launch-IsExhaustive apart = record {
    one_type_each = supported_kind-IsEquiv H apart;
    own_arm = λ kind w f h.
        let (l, started, fits) = launch-Starter H ctx app_id app aot (kind_type H kind) w f h in
        (l, started, sym (kind_type-injective H apart kind l.kind fits.of_type), fits);
  }
