-- ===== src/Trigger/Unordered.antt =====
-- `get_supported_triggers` of containerd-shim-spin/src/trigger.rs as a function to sets of types: what
-- it returns is a `HashSet`, whose members have no order.
use mathlib.Core.List.{Perm}
use mathlib.Core.Quot
use mathlib.Core.Quot.{Quot}
use containerd_shim_spin.Prelude.{
  String, ◌≡◌, refl, sym, ap, ◌∙◌, Bool, true, false, Option, none, some, List, [], ◌∷◌, all,
  all-perm, any-perm, Bool-cases, inl, inr,
}
use containerd_shim_spin.App.{LockedApp, LockedTrigger}
use containerd_shim_spin.Exec.{Result, ok, err}
use containerd_shim_spin.Host.{Host}
use containerd_shim_spin.Trigger.{
  contains, supported_triggers, insert_type, collect_triggers, get_supported_triggers,
}
use containerd_shim_spin.Trigger.Supported.{has_type, get_supported_triggers-eq-ok}

abbrev SameMembers : List String → List String → Type 0
SameMembers members others = (s : String) → contains members s ≡ contains others s

-- A `HashSet` of texts: a list of its members, up to their order and number.
abbrev pub TypeSet : Type 0
TypeSet = Quot SameMembers

-- The set that is returned, if there is one.
abbrev pub as_set : Result (List String) → Option TypeSet
as_set (ok types) = some (Quot.mk types)
as_set (err e) = none

module _ (H : Host) where
  abbrev is_known : LockedTrigger → Bool
  is_known trigger = contains (supported_triggers H) trigger.trigger_type

  abbrev is_ok : Result (List String) → Bool
  is_ok (ok types) = true
  is_ok (err e) = false

  is_ok-insert_type :
      (s : String) (rest : Result (List String)) → is_ok (insert_type s rest) ≡ is_ok rest
  is_ok-insert_type s (ok types) = refl
  is_ok-insert_type s (err e) = refl

  is_ok-collect_triggers :
      (triggers : List LockedTrigger) → is_ok (collect_triggers H triggers) ≡ all is_known triggers
  unfolding collect_triggers
  is_ok-collect_triggers [] = refl
  is_ok-collect_triggers (trigger ∷ triggers) = elim (Bool-cases (is_known trigger)) [
    | inl known ↦ rw known (is_ok-insert_type _ _ ∙ is_ok-collect_triggers triggers)
    | inr unknown ↦ rw unknown refl
  ]

  same_sets :
      (a b : LockedApp)
      → Perm a.triggers b.triggers
      → (first second : Result (List String)) → get_supported_triggers H a ≡ first
      → get_supported_triggers H b ≡ second
      → is_ok first ≡ is_ok second
      → as_set first ≡ as_set second
  same_sets a b order (ok types) (ok others) e f same =
      let left = get_supported_triggers-eq-ok H a types e in
      let right = get_supported_triggers-eq-ok H b others f in
      ap some (Quot.sound λ s. left.exact s ∙ any-perm (has_type s) _ _ order ∙ sym (right.exact s))
  same_sets a b order (err d) (err e) h k same = refl
  same_sets a b order (ok types) (err e) h k same = cc
  same_sets a b order (err e) (ok types) h k same = cc

  -- The set of types does not depend on the order in which the app lists its triggers, and whether
  -- there is one does not either.
  pub get_supported_triggers-perm :
      (a b : LockedApp)
      → Perm a.triggers b.triggers
      → as_set (get_supported_triggers H a) ≡ as_set (get_supported_triggers H b)
  unfolding get_supported_triggers
  get_supported_triggers-perm a b order = same_sets a b order _ _ refl refl (
      is_ok-collect_triggers a.triggers
      ∙ all-perm is_known _ _ order
      ∙ sym (is_ok-collect_triggers b.triggers))
