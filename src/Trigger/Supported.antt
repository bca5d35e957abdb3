-- ===== src/Trigger/Supported.antt =====
-- `get_supported_triggers` of containerd-shim-spin/src/trigger.rs: which types it returns, and which
-- trigger it refuses.
use mathlib.Core.Path.{subst}
use containerd_shim_spin.Prelude.{
  String, ◌≡◌, refl, Bool, true, false, not, ◌&&◌, ◌||◌, List, [], ◌∷◌, ◌++◌, arith, any, all, inl,
  inr, Bool-cases, eq_iff, ◌==◌,
}
use containerd_shim_spin.App.{LockedApp, LockedTrigger}
use containerd_shim_spin.Exec.{Error, Result, ok, err, unsupported_trigger}
use containerd_shim_spin.Host.{Host}
use containerd_shim_spin.Trigger.{
  contains, hash_insert, supported_triggers, insert_type, collect_triggers, get_supported_triggers,
}

abbrev pub has_type : String → LockedTrigger → Bool
has_type s trigger = trigger.trigger_type == s

-- No text is listed twice.
abbrev pub nodup : List String → Bool
nodup [] = true
nodup (s ∷ members) = not (contains members s) && nodup members

-- The set of the types of some triggers, all of them supported.
pub record IsTypeSet (H : Host) (triggers : List LockedTrigger) (types : List String) : Type 0 where
  pub exact : (s : String) → contains types s ≡ any (has_type s) triggers
  pub distinct : nodup types ≡ true
  pub all_supported : all (λ t. contains (supported_triggers H) t) types ≡ true

-- The first trigger of an unsupported type.
pub data FirstUnsupported (H : Host) (triggers : List LockedTrigger) (e : Error) : Type 0 where
  first_unsupported :
      (front : List LockedTrigger) (bad : LockedTrigger) (back : List LockedTrigger)
      → triggers ≡ front ++ bad ∷ back
      → all (λ t. contains (supported_triggers H) t.trigger_type) front ≡ true
      → contains (supported_triggers H) bad.trigger_type ≡ false
      → e ≡ unsupported_trigger bad.trigger_type
      → FirstUnsupported H triggers e

contains-hash_insert :
    (t : String) (types : List String) (s : String)
    → contains (hash_insert t types) s ≡ (t == s || contains types s)
contains-hash_insert t types s = elim (Bool-cases (contains types t)) [
  | inr new ↦ rw new
  | inl old ↦ rw old (elim (Bool-cases (t == s)) [
    | inr differ ↦ rw differ
    | inl same ↦ rw same (rw (← (eq_iff t s).0 same) old)
  ])
]

abbrev pub Verdict : Host → List LockedTrigger → Result (List String) → Type 0
Verdict H triggers (ok types) = IsTypeSet H triggers types
Verdict H triggers (err e) = FirstUnsupported H triggers e

module _ (H : Host) where
  IsTypeSet-insert :
      (trigger : LockedTrigger) (triggers : List LockedTrigger) (types : List String)
      → contains (supported_triggers H) trigger.trigger_type ≡ true
      → IsTypeSet H triggers types
      → IsTypeSet H (trigger ∷ triggers) (hash_insert trigger.trigger_type types)
  IsTypeSet-insert trigger triggers types known set = record {
    exact =
        λ s. rw (contains-hash_insert trigger.trigger_type types s) (ground (arith, set.exact s));
    distinct = ground (arith, set.distinct);
    all_supported = ground (arith, set.all_supported);
  }

  Verdict-cons :
      (trigger : LockedTrigger) (triggers : List LockedTrigger) (rest : Result (List String))
      → contains (supported_triggers H) trigger.trigger_type ≡ true
      → Verdict H triggers rest
      → Verdict H (trigger ∷ triggers) (insert_type trigger.trigger_type rest)
  Verdict-cons trigger triggers (ok types) known v = IsTypeSet-insert trigger triggers types known v
  Verdict-cons trigger triggers (err e) known (first_unsupported front bad back whole good u same) =
      first_unsupported (trigger ∷ front) bad back (cc) (ground arith) u same

  collect_triggers-Verdict :
      (triggers : List LockedTrigger) → Verdict H triggers (collect_triggers H triggers)
  unfolding collect_triggers
  collect_triggers-Verdict [] = record { exact = λ s. refl; distinct = refl; all_supported = refl }
  collect_triggers-Verdict (trigger ∷ triggers) =
      elim (Bool-cases (contains (supported_triggers H) trigger.trigger_type)) [
        | inl known ↦
            rw known (Verdict-cons trigger triggers _ known (collect_triggers-Verdict triggers))
        | inr unknown ↦ rw unknown (first_unsupported [] trigger triggers refl refl unknown refl)
      ]

  -- The triggers' types, if all are supported: the list is the set of the triggers' types, with no
  -- type twice, and each of them is supported.
  pub get_supported_triggers-eq-ok :
      (app : LockedApp) (types : List String)
      → get_supported_triggers H app ≡ ok types
      → IsTypeSet H app.triggers types
  unfolding get_supported_triggers
  get_supported_triggers-eq-ok app types h =
      subst (Verdict H app.triggers) h (collect_triggers-Verdict app.triggers)

  -- An error names the type of the first trigger that is not supported.
  pub get_supported_triggers-eq-err :
      (app : LockedApp) (e : Error)
      → get_supported_triggers H app ≡ err e
      → FirstUnsupported H app.triggers e
  unfolding get_supported_triggers
  get_supported_triggers-eq-err app e h =
      subst (Verdict H app.triggers) h (collect_triggers-Verdict app.triggers)
