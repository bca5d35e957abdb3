-- ===== src/Engine/Triggers.antt =====
-- `run_trigger` of containerd-shim-spin/src/engine.rs: the components that are asked for, and an app
-- that has no trigger.
use containerd_shim_spin.Prelude.{
  if◌then◌else◌, String, ◌≡◌, refl, Bool, true, false, not, List, [], ◌∷◌, arith, keep, all,
  all-perm, ◌==◌,
}
use mathlib.Core.List.{Perm}
use containerd_shim_spin.Text.{split}
use containerd_shim_spin.Text.Laws.{is_free, split_free}
use containerd_shim_spin.Oci.{RuntimeContext}
use containerd_shim_spin.App.{LockedApp}
use containerd_shim_spin.Exec.{World, panicked, empty_select, ok, pure, panic, gets, ◌>>=◌}
use containerd_shim_spin.Host.{Host}
use containerd_shim_spin.Source.{Source}
use containerd_shim_spin.Trigger.{get_supported_triggers, collect_triggers}
use containerd_shim_spin.Engine.{components_to_retain, launch_all, select_all, run_trigger}

-- A name that can be asked for: it is not empty and holds no comma.
abbrev pub is_name : String → Bool
is_name piece = if piece == "" then false else is_free "," piece

keep-all :
    (pieces : List String)
    → all (is_free ",") pieces ≡ true
    → all is_name (keep (λ s. not (s == "")) pieces) ≡ true
keep-all [] h = refl
keep-all (piece ∷ pieces) h = ground (arith, keep-all pieces)

-- Each name that is passed on to `retain_components` is not empty and holds no comma.
pub components_to_retain-is_name : (s : String) → all is_name (components_to_retain s) ≡ true
unfolding components_to_retain
components_to_retain-is_name s = keep-all (split "," s) (split_free "," s)

all-false : (types : List String) → all (λ _. false) types ≡ true → types ≡ []
all-false [] h = refl
all-false (_ ∷ _) h = cc

get_supported_triggers-nil :
    (H : Host) (app : LockedApp) → app.triggers ≡ [] → get_supported_triggers H app ≡ ok []
unfolding get_supported_triggers collect_triggers
get_supported_triggers-nil H app h = rw h refl

-- An app without triggers has the empty list of trigger types, and `run_trigger` then panics: it
-- waits for the first of no futures. (The set of the types iterates over its members.)
pub run_trigger_empty :
    (H : Host) (ctx : RuntimeContext) (app : LockedApp) (source : Source) (w : World)
    → Perm (H.hash_order []) []
    → app.triggers ≡ []
    → (get_supported_triggers H app ≡ ok [])
      × ((run_trigger H ctx [] app source w).0 ≡ panicked empty_select)
unfolding run_trigger ◌>>=◌ launch_all select_all pure panic gets
run_trigger_empty H ctx app source w order none_listed =
    let nothing = all-false (H.hash_order []) (all-perm (λ _. false) (H.hash_order []) [] order) in
    (get_supported_triggers-nil H app none_listed, simp nothing refl)
