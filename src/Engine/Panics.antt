-- ===== src/Engine/Panics.antt =====
-- How a run of the shim may end: `run_wasi` and `run_trigger` of containerd-shim-spin/src/engine.rs.
pub mod Rules
pub mod Exit
mod Setup
use mathlib.Core.List.{Perm}
use containerd_shim_spin.Prelude.{
  ℕ, ◌+◌, ◌<◌, String, ◌≡◌, false, ◌||◌, List, ◌∷◌, any, length, eq_comm, ◌==◌,
}
use containerd_shim_spin.Env.{OsString}
use containerd_shim_spin.Oci.{RuntimeContext}
use containerd_shim_spin.Exec.{
  Panic, unreachable_code, Outcome, returned, failed, panicked, aborted, Call, Result, ok, err,
  call, set_var, continue, of_result, World, Exec, pure, panic, await, lift,
}
use containerd_shim_spin.Exec.Ends.{Ended, Ends, Anything, Ends-if}
use containerd_shim_spin.Host.{Host}
use containerd_shim_spin.Source.{Source}
use containerd_shim_spin.Trigger.{get_supported_triggers}
use containerd_shim_spin.Engine.{set_envs, exit_code}

-- What the shim relies on: a `HashSet` iterates over its members, and `select_all` names one of the
-- futures that it was given.
pub record IsLawful (H : Host) : Type 0 where
  pub hash_order_perm : (types : List String) → Perm (H.hash_order types) types
  pub select_in_range :
      (w : World) (f : ℕ) (futures : List ℕ)
      → (H.select_first w (f ∷ futures)).1 < length (f ∷ futures)

module _ (H : Host) (L : IsLawful H) (ctx : RuntimeContext) where
  -- The two vectors of the loop grow together.
  abbrev Paired : List ℕ × List String → Type 0
  Paired (futures, started) = length futures ≡ length started

  abbrev InRange : List ℕ → Result (Unit {0}) × ℕ → Type 0
  InRange futures ended = ended.1 < length futures
