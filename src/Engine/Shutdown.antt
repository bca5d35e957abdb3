-- ===== src/Engine/Shutdown.antt =====
-- The start and the end of `run_wasi` of containerd-shim-spin/src/engine.rs: the container's
-- environment, and a signal that comes before the triggers run.
use containerd_shim_spin.Prelude.{
  zero, Char, ap, ◌⊎◌, none, String, ◌≡◌, refl, ◌∙◌, Bool, true, false, Option, some, List, [], ◌∷◌,
  ◌++◌, arith, all, ◌==◌, if◌then◌else◌, inl, inr, Bool-cases,
}
use containerd_shim_spin.Text.{char_eq, push_before, split_once}
use containerd_shim_spin.Env.{unicode, var, var-put_var, is_settable}
use containerd_shim_spin.Oci.{RuntimeContext}
use containerd_shim_spin.Exec.{
  World, Outcome, returned, panicked, invalid_variable, set_handler, ok, pure, ◌>>=◌, await, call,
  set_var,
}
use containerd_shim_spin.Host.{Host}
use containerd_shim_spin.Engine.{key_value, set_envs, abortable, run_wasi}

-- The text before the first equals sign, or the whole text without one.
abbrev pub name_of : String → String
name_of String.[] = ""
name_of (String.◌∷◌ c s) = let rest = name_of s in if char_eq c "=" then "" else String.◌∷◌ c rest

-- The text after the first equals sign, or nothing without one.
abbrev pub value_of : String → String
value_of String.[] = ""
value_of (String.◌∷◌ c s) = let rest = value_of s in if char_eq c "=" then s else rest

-- The name and the value that an entry of the container's environment gives.
abbrev pub entry : String → String × String
entry v = (name_of v, value_of v)

abbrev IsSplit : String → Option (String × String) → Type 0
IsSplit s none = (name_of s ≡ s) × (value_of s ≡ "")
IsSplit s (some pair) = pair ≡ entry s

IsSplit-before :
    (c : Char) (s : String) (found : Option (String × String))
    → char_eq c "=" ≡ false
    → IsSplit s found
    → IsSplit (String.◌∷◌ c s) (push_before c found)
IsSplit-before c s none other (name, value) =
    (rw other (ap (λ t. String.◌∷◌ c t) name), rw other value)
IsSplit-before c s (some pair) other same = rw (other, same) refl

if-both :
    (b : Bool) (x x' y y' : String)
    → b ≡ true
    → ◌≡◌ {A = String × String} (x, y) (if b then x else x', if b then y else y')
if-both true x x' y y' h = refl
if-both false x x' y y' h = absurd (cc)

split_once-IsSplit : (s : String) → IsSplit s (split_once "=" s)
unfolding split_once
split_once-IsSplit String.[] = (refl, refl)
split_once-IsSplit (String.◌∷◌ c s) = elim (Bool-cases (char_eq c "=")) [
  | inl equals ↦ rw equals (if-both (char_eq c "=") "" _ s _ equals)
  | inr other ↦ rw other (IsSplit-before c s (split_once "=" s) other (split_once-IsSplit s))
]

key_value-of :
    (v : String) (found : Option (String × String)) → IsSplit v found → key_value v found ≡ entry v
key_value-of v none (name, value) = rw (name, value) refl
key_value-of v (some pair) same = same

pub key_value-eq-entry : (v : String) → key_value v (split_once "=" v) ≡ entry v
key_value-eq-entry v = key_value-of v _ (split_once-IsSplit v)

abbrev pub entry_settable : String → Bool
entry_settable v = is_settable (entry v).0 (unicode (entry v).1)

-- What a list of entries leaves under a name: the last entry of that name counts.
abbrev pub last_value : List String → String → Option String → Option String
last_value [] asked old = old
last_value (v ∷ envs) asked old =
    last_value envs asked (if (entry v).0 == asked then some (entry v).1 else old)

set_envs-cons :
    (v : String) (envs : List String) (w : World)
    → entry_settable v ≡ true
    → set_envs (v ∷ envs) w ≡ set_envs envs (set_var (entry v).0 (unicode (entry v).1) w).1
unfolding set_envs ◌>>=◌ set_var
set_envs-cons v envs w h = rw (key_value-eq-entry v, h) refl

set_envs-stuck :
    (v : String) (envs : List String) (w : World)
    → entry_settable v ≡ false
    → (set_envs (v ∷ envs) w).0 ≡ panicked (invalid_variable (entry v).0)
unfolding set_envs ◌>>=◌ set_var
set_envs-stuck v envs w h = rw (key_value-eq-entry v, h) refl

set_envs-nil : (w : World) → set_envs [] w ≡ (returned tt, w)
unfolding set_envs pure
set_envs-nil w = refl

-- The first entry that cannot be set stops the loop with a panic that names it.
abbrev pub setting : List String → Outcome Unit
setting [] = returned tt
setting (v ∷ envs) =
    let rest = setting envs in
    if entry_settable v then rest else panicked (invalid_variable (entry v).0)

pub set_envs-eq-setting : (envs : List String) (w : World) → (set_envs envs w).0 ≡ setting envs
set_envs-eq-setting [] w = rw (set_envs-nil w)
set_envs-eq-setting (v ∷ envs) w = elim (Bool-cases (entry_settable v)) [
  | inl good ↦ rw (set_envs-cons v envs w good, good) (set_envs-eq-setting envs _)
  | inr bad ↦ rw bad (set_envs-stuck v envs w bad)
]

-- An entry that cannot be set, after entries that can.
abbrev pub IsUnsettable : List String → String → Type 0
IsUnsettable envs v =
    (before : List String) × (after : List String) × (envs ≡ before ++ v ∷ after)
    × (all entry_settable before ≡ true)
    × (entry_settable v ≡ false)

IsUnsettable-cons :
    (v : String) (envs : List String) {stuck : String}
    → entry_settable v ≡ true
    → IsUnsettable envs stuck
    → IsUnsettable (v ∷ envs) stuck
IsUnsettable-cons v envs good (before, after, whole, settable, bad) =
    (v ∷ before, after, ap (λ l. v ∷ l) whole, rw good settable, bad)

-- The loop over the container's environment either ends normally, and then every entry has a name and
-- a value that can be set; or it panics, and names what stands before the first equals sign of the first
-- entry that cannot be set.
pub set_envs-first :
    (envs : List String) (w : World)
    → (((set_envs envs w).0 ≡ returned tt) × (all entry_settable envs ≡ true))
      ⊎ ((v : String) × IsUnsettable envs v
          × ((set_envs envs w).0 ≡ panicked (invalid_variable (name_of v))))
set_envs-first [] w = inl (set_envs-eq-setting [] w, refl)
set_envs-first (v ∷ envs) w = elim (Bool-cases (entry_settable v)) [
  | inr bad ↦ inr (v, ([], envs, refl, refl, bad), set_envs-stuck v envs w bad)
  | inl good ↦
      let same = set_envs-cons v envs w good in
      elim (set_envs-first envs (set_var (entry v).0 (unicode (entry v).1) w).1) [
        | inl (done, settable) ↦ inl (ap (λ r. r.0) same ∙ done, rw good settable)
        | inr (stuck, first, ended) ↦
            inr (stuck, IsUnsettable-cons v envs good first, ap (λ r. r.0) same ∙ ended)
      ]
]

set_var-var :
    (v : String) (w : World) (asked : String)
    → entry_settable v ≡ true
    → var (set_var (entry v).0 (unicode (entry v).1) w).1.env asked
      ≡ (if (entry v).0 == asked then some (entry v).1 else var w.env asked)
unfolding set_var
set_var-var v w asked h = rw h (var-put_var w.env (entry v).0 (unicode (entry v).1) asked)

-- When the loop has ended normally, each variable reads as the last entry of its name says, and a
-- variable without an entry reads as before.
pub set_envs-var :
    (envs : List String) (w : World) (asked : String)
    → (set_envs envs w).0 ≡ returned tt
    → var (set_envs envs w).1.env asked ≡ last_value envs asked (var w.env asked)
set_envs-var [] w asked h = rw (set_envs-nil w)
set_envs-var (v ∷ envs) w asked h = elim (Bool-cases (entry_settable v)) [
  | inl good ↦ rw (set_envs-cons v envs w good) (
      rw (set_envs-var envs _ asked (rw (set_envs-cons v envs w good) at h))
        (rw (set_var-var v w asked good) refl))
  | inr bad ↦ cc (set_envs-stuck v envs w bad)
]

pub set_envs-keeps :
    (envs : List String) (w : World)
    → ((set_envs envs w).1.calls ≡ w.calls) × ((set_envs envs w).1.signal ≡ w.signal)
unfolding set_envs ◌>>=◌ set_var pure
set_envs-keeps [] w = (refl, refl)
set_envs-keeps (v ∷ envs) w = elim (Bool-cases (entry_settable v)) [
  | inl good ↦ rw (key_value-eq-entry v, good) (set_envs-keeps envs _)
  | inr bad ↦ rw (key_value-eq-entry v, bad) (refl, refl)
]

pub setting-returned :
    (envs : List String) → all entry_settable envs ≡ true → setting envs ≡ returned tt
setting-returned [] h = refl
setting-returned (v ∷ envs) h = ground (arith, setting-returned envs)

-- A signal that has come before the asynchronous part is first polled: the shim returns the exit
-- code 0, and has made no call but the one that installs the handler. (Every entry of the
-- container's environment can be set, and the handler can be installed.)
pub run_wasi_signalled :
    (H : Host) (ctx : RuntimeContext) (w : World)
    → all entry_settable ctx.envs ≡ true
    → ((w' : World) → H.set_handler w' ≡ ok tt)
    → w.signal ≡ some zero
    → ((run_wasi H ctx w).0 ≡ returned 0)
      × ((run_wasi H ctx w).1.calls ≡ w.calls ++ set_handler ∷ [])
unfolding run_wasi ◌>>=◌ abortable await call
run_wasi_signalled H ctx w settable installed signalled =
    let set : (set_envs ctx.envs w).0 ≡ returned tt =
      set_envs-eq-setting ctx.envs w ∙ setting-returned ctx.envs settable in
    let (made, left) = set_envs-keeps ctx.envs w in
    simp (set, made, left, installed, signalled) (refl, refl)
