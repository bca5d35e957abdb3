-- ===== src/Utils/Variables.antt =====
-- `configure_application_variables_from_environment_variables` of containerd-shim-spin/src/utils.rs:
-- what Spin's variable provider reads afterwards.
use mathlib.Core.Path.{subst}
use text.Mathlib.Text.{starts_with}
use text.Mathlib.TextPositions.{starts_with-append}
use text.Mathlib.TextLemmas.{append_assoc, append_cancel_left}
use containerd_shim_spin.Prelude.{
  String, ◌≡◌, refl, sym, ap, ◌∙◌, Bool, true, false, not, Option, none, some, List, [], ◌∷◌, arith,
  any, all, if◌then◌else◌, ◌==◌, eq_iff, eq_refl, inl, inr, Bool-cases,
}
use containerd_shim_spin.Text.{to_ascii_uppercase}
use containerd_shim_spin.Env.{Env, unicode, var, var-put_var}
use containerd_shim_spin.App.{LockedApp}
use containerd_shim_spin.Exec.{World, Exec, returned, ◌>>=◌, >>=-returned, pure, set_var}
use containerd_shim_spin.Utils.{
  prefixed, copy_value, configure_variables,
  configure_application_variables_from_environment_variables,
}

abbrev pub upper : String → String
upper = to_ascii_uppercase

abbrev pub or_else : Option String → Option String → Option String
or_else none old = old
or_else (some s) old = some s

-- The name of a variable that is itself no variable of the provider.
abbrev pub is_plain : String → Bool
is_plain name = not (starts_with name "SPIN_VARIABLE_")

pub prefixed-ne :
    (name variable : String) → is_plain name ≡ true → (prefixed variable == name) ≡ false
prefixed-ne name variable plain = elim (Bool-cases (prefixed variable == name)) [
  | inr differ ↦ differ
  | inl same ↦
      let e : prefixed variable ≡ name = (eq_iff _ _).0 same in
      let whole = append_assoc "SPIN_VARIABLE" "_" variable in
      let starts = starts_with-append "SPIN_VARIABLE_" variable in
      let start = subst (λ t. starts_with t "SPIN_VARIABLE_" ≡ true) (whole ∙ e) starts in
      ground arith
]

prefixed-injective : (a b : String) → prefixed a ≡ prefixed b → a ≡ b
prefixed-injective a b h = append_cancel_left "_" a b (append_cancel_left "SPIN_VARIABLE" _ _ h)

copy_value-var :
    (name : String) (found : Option String) (w : World) (asked : String)
    → (copy_value name found w).0 ≡ returned tt
    → var (copy_value name found w).1.env asked
      ≡ (if prefixed name == asked then or_else found (var w.env asked) else var w.env asked)
unfolding set_var pure
copy_value-var name none w asked h = ground arith
copy_value-var name (some val) w asked h =
    ground (arith, var-put_var w.env (prefixed name) (unicode val) asked)

-- What the provider reads under a name after the loop, from the environment before it.
abbrev copied : Env → List String → String → Option String → Option String
copied env [] asked old = old
copied env (key ∷ keys) asked old =
    copied env keys asked
      (if prefixed (upper key) == asked then or_else (var env (upper key)) old else old)

or_else_twice : (a old : Option String) → or_else a (or_else a old) ≡ or_else a old
or_else_twice none old = refl
or_else_twice (some s) old = refl

-- The first copy under a name settles it.
copied_settled :
    (env : Env) (keys : List String) (name : String) (old : Option String)
    → copied env keys (prefixed name) (or_else (var env name) old) ≡ or_else (var env name) old
copied_settled env [] name old = refl
copied_settled env (key ∷ keys) name old =
    elim (Bool-cases (prefixed (upper key) == prefixed name)) [
      | inr differ ↦ rw differ (copied_settled env keys name old)
      | inl same ↦
          rw
            (
              same,
              prefixed-injective (upper key) name ((eq_iff _ _).0 same),
              or_else_twice (var env name) old,
            )
            (copied_settled env keys name old)
    ]

listed_later :
    (first : String) (keys : List String) (key : String)
    → any (λ k. k == key) (first ∷ keys) ≡ true
    → (prefixed (upper first) == prefixed (upper key)) ≡ false
    → any (λ k. k == key) keys ≡ true
listed_later first keys key listed differ = elim (Bool-cases (first == key)) [
  | inr apart ↦ ground arith
  | inl same ↦ cc (eq_refl (prefixed (upper key)), rw ((eq_iff first key).0 same) at differ)
]

copied_member :
    (env : Env) (keys : List String) (key : String) (old : Option String)
    → any (λ k. k == key) keys ≡ true
    → copied env keys (prefixed (upper key)) old ≡ or_else (var env (upper key)) old
copied_member env [] key old listed = cc
copied_member env (first ∷ keys) key old listed =
    elim (Bool-cases (prefixed (upper first) == prefixed (upper key))) [
      | inl same ↦
          rw (same, prefixed-injective (upper first) (upper key) ((eq_iff _ _).0 same))
            (copied_settled env keys (upper key) old)
      | inr differ ↦
          rw differ (copied_member env keys key old (listed_later first keys key listed differ))
    ]

copied_other :
    (env : Env) (keys : List String) (asked : String) (old : Option String)
    → any (λ k. prefixed (upper k) == asked) keys ≡ false
    → copied env keys asked old ≡ old
copied_other env [] asked old absent = refl
copied_other env (key ∷ keys) asked old absent = ground (arith, copied_other env keys asked old)

configure_variables-nil :
    (w : World) (asked : String) → var (configure_variables [] w).1.env asked ≡ var w.env asked
unfolding configure_variables pure
configure_variables-nil w asked = refl

configure_variables-cons :
    (key : String) (keys : List String) (w : World)
    → (configure_variables (key ∷ keys) w).0 ≡ returned tt
    → let copying = copy_value (upper key) (var w.env (upper key)) w in
      (copying.0 ≡ returned tt)
      × (configure_variables (key ∷ keys) w ≡ configure_variables keys copying.1)
unfolding configure_variables ◌>>=◌
configure_variables-cons key keys w h =
    let (done, copying, whole) =
      >>=-returned (copy_value (upper key) (var w.env (upper key))) (λ _. configure_variables keys)
        w h in
    (copying, whole)

-- The variables' own names keep their values: no copy writes to them.
abbrev SameNames : Env → World → List String → Type 0
SameNames env w [] = Unit
SameNames env w (key ∷ keys) = (var w.env (upper key) ≡ var env (upper key)) × SameNames env w keys

SameNames-copy :
    (env : Env) (name : String) (found : Option String) (w : World) (keys : List String)
    → (copy_value name found w).0 ≡ returned tt
    → all (λ k. is_plain (upper k)) keys ≡ true
    → SameNames env w keys
    → SameNames env (copy_value name found w).1 keys
SameNames-copy env name found w [] h plain same = tt
SameNames-copy env name found w (key ∷ keys) h plain (here, later) = (
  ground (arith, copy_value-var name found w (upper key) h, prefixed-ne (upper key) name),
  SameNames-copy env name found w keys h (ground arith) later,
)

configure_variables-var :
    (env : Env) (keys : List String) (w : World) (asked : String)
    → (configure_variables keys w).0 ≡ returned tt
    → all (λ k. is_plain (upper k)) keys ≡ true
    → SameNames env w keys
    → var (configure_variables keys w).1.env asked ≡ copied env keys asked (var w.env asked)
configure_variables-var env [] w asked h plain same = configure_variables-nil w asked
configure_variables-var env (key ∷ keys) w asked h plain (here, later) =
    let (copying, whole) = configure_variables-cons key keys w h in
    let rest =
      configure_variables-var env keys (copy_value (upper key) (var w.env (upper key)) w).1 asked
        (sym (ap (λ r. r.0) whole) ∙ h) (ground arith)
        (SameNames-copy env (upper key) _ w keys copying (ground arith) later) in
    rw (whole, rest) (rw (copy_value-var (upper key) _ w asked copying, here) refl)

SameNames-refl : (w : World) (keys : List String) → SameNames w.env w keys
SameNames-refl w [] = tt
SameNames-refl w (key ∷ keys) = (refl, SameNames-refl w keys)

abbrev configure : LockedApp → Exec Unit
configure = configure_application_variables_from_environment_variables

-- Each variable of the app is found by the provider with the value that its upper-case name had in
-- the container's environment, or, where that was not set, with the value that the provider's name
-- had. (The loop ends normally, and no variable's own name has the provider's prefix.)
pub configure-var :
    (app : LockedApp) (w : World) (key : String)
    → (configure app w).0 ≡ returned tt
    → all (λ k. is_plain (upper k)) app.variables ≡ true
    → any (λ k. k == key) app.variables ≡ true
    → var (configure app w).1.env (prefixed (upper key))
      ≡ or_else (var w.env (upper key)) (var w.env (prefixed (upper key)))
unfolding configure_application_variables_from_environment_variables
configure-var app w key h plain listed =
    configure_variables-var w.env app.variables w (prefixed (upper key)) h plain
      (SameNames-refl w app.variables)
    ∙ copied_member w.env app.variables key _ listed

-- Every other variable of the environment keeps its value. (The loop ends normally, and no variable's
-- own name has the provider's prefix.)
pub configure-var_other :
    (app : LockedApp) (w : World) (asked : String)
    → (configure app w).0 ≡ returned tt
    → all (λ k. is_plain (upper k)) app.variables ≡ true
    → any (λ k. prefixed (upper k) == asked) app.variables ≡ false
    → var (configure app w).1.env asked ≡ var w.env asked
unfolding configure_application_variables_from_environment_variables
configure-var_other app w asked h plain absent =
    configure_variables-var w.env app.variables w asked h plain (SameNames-refl w app.variables)
    ∙ copied_other w.env app.variables asked _ absent
