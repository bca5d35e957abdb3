-- ===== src/Exec/Keeps.antt =====
-- Actions that keep the values of some variables, and make only calls that are allowed while they have
-- these values: one rule for each way to build an action.
use mathlib.Core.Path.{subst}
use containerd_shim_spin.Prelude.{
  ℕ, zero, suc, String, ◌≡◌, refl, ap, sym, Bool, true, false, eq_iff, inl, inr, Bool-cases, Option,
  none, some, [], ◌∷◌, All, All-append, ◌==◌, if_cases,
}
use containerd_shim_spin.Env.{is_settable, OsString, var, var-put_var}
use containerd_shim_spin.Oci.{Bytes}
use containerd_shim_spin.Exec.{
  Context, Error, Result, ok, err, Panic, Outcome, returned, failed, panicked, aborted, Call, World,
  Exec, pure, fail, panic, lift, gets, at_await, await, call, with_context, add_context, continue,
  of_result, ◌>>=◌, set_var, put_file,
}

-- The variables that are kept, their values, and the calls that are allowed.
pub record Rule : Type 1 where
  pub kept : String → Bool
  pub value : String → Option String
  pub allowed : Call → Type 0

abbrev pub Holds : Rule → World → Type 0
Holds R w =
    ((name : String) → R.kept name ≡ true → var w.env name ≡ R.value name) × All R.allowed w.calls

abbrev pub Valued : {A : Type 0} → (A → Type 0) → Outcome A → Type 0
Valued P (returned a) = P a
Valued P (failed _) = Unit
Valued P (panicked _) = Unit
Valued P aborted = Unit

-- From a state in which the rule holds it still holds, and a value that is returned satisfies `P`.
pub record KeepsAnd (R : Rule) {A : Type 0} (P : A → Type 0) (m : Exec A) : Type 0 where
  pub at : (w : World) → Holds R w → Valued P (m w).0 × Holds R (m w).1

abbrev pub Keeps : Rule → {A : Type 0} → Exec A → Type 0
Keeps R m = KeepsAnd R (λ _. Unit) m

pub any_value : {A : Type 0} (r : Outcome A) → Valued (λ _. Unit) r
any_value (returned a) = tt
any_value (failed e) = tt
any_value (panicked p) = tt
any_value aborted = tt

module _ {R : Rule} {A : Type 0} where
  pub Keeps-pure : (a : A) → Keeps R (pure a)
  unfolding pure
  Keeps-pure a = record { at = λ w h. (tt, h) }

  pub Keeps-fail : (e : Error) → Keeps R (fail {A = A} e)
  unfolding fail
  Keeps-fail e = record { at = λ w h. (tt, h) }

  pub Keeps-panic : (p : Panic) → Keeps R (panic {A = A} p)
  unfolding panic
  Keeps-panic p = record { at = λ w h. (tt, h) }

  pub Keeps-lift : (r : Result A) → Keeps R (lift r)
  unfolding lift
  Keeps-lift r = record { at = λ w h. (any_value (of_result r), h) }

  pub Keeps-gets : (f : World → A) → Keeps R (gets f)
  unfolding gets
  Keeps-gets f = record { at = λ w h. (tt, h) }

  pub Keeps-call : (c : Call) (answer : World → Result A) → R.allowed c → Keeps R (call c answer)
  unfolding call
  Keeps-call c answer q = record {
    at = λ w (kept, made).
        (any_value (of_result _), (kept, All-append R.allowed w.calls (c ∷ []) made (q, tt)));
  }

Valued-add_context :
    {A : Type 0} (P : A → Type 0) (c : Context) (r : Outcome A)
    → Valued P r
    → Valued P (add_context c r)
Valued-add_context P c (returned a) h = h
Valued-add_context P c (failed e) h = tt
Valued-add_context P c (panicked p) h = tt
Valued-add_context P c aborted h = tt

module _ {R : Rule} {A : Type 0} {P : A → Type 0} where
  Keeps-at_await :
      (signal : Option ℕ) (m : Exec A) → KeepsAnd R P m → KeepsAnd R P (at_await signal m)
  Keeps-at_await none m k = record { at = λ w h. k.at w h }
  Keeps-at_await (some zero) m k = record { at = λ w h. (tt, h) }
  Keeps-at_await (some (suc n)) m k = record { at = λ w h. k.at (record w { signal = some n }) h }

  pub Keeps-await : (m : Exec A) → KeepsAnd R P m → KeepsAnd R P (await m)
  unfolding await
  Keeps-await m k = record { at = λ w h. (Keeps-at_await w.signal m k).at w h }

  pub Keeps-with_context :
      (c : Context) (m : Exec A) → KeepsAnd R P m → KeepsAnd R P (with_context c m)
  unfolding with_context
  Keeps-with_context c m k = record {
    at = λ w h. let (valued, kept) = k.at w h in (Valued-add_context P c _ valued, kept);
  }

module _ {R : Rule} {A B : Type 0} {P : B → Type 0} where
  Keeps-continue :
      (Q : A → Type 0) (r : Outcome A) (f : A → Exec B) (w : World)
      → Valued Q r
      → Holds R w
      → ((a : A) → Q a → KeepsAnd R P (f a))
      → Valued P (continue r f w).0 × Holds R (continue r f w).1
  Keeps-continue Q (returned a) f w q h k = (k a q).at w h
  Keeps-continue Q (failed e) f w q h k = (tt, h)
  Keeps-continue Q (panicked p) f w q h k = (tt, h)
  Keeps-continue Q aborted f w q h k = (tt, h)

  pub Keeps-bind_of :
      (Q : A → Type 0) (m : Exec A) (f : A → Exec B)
      → KeepsAnd R Q m
      → ((a : A) → Q a → KeepsAnd R P (f a))
      → KeepsAnd R P (m >>= f)
  unfolding ◌>>=◌
  Keeps-bind_of Q m f km kf = record {
    at = λ w h. let (q, h') = km.at w h in Keeps-continue Q _ f _ q h' kf;
  }

  pub Keeps-bind :
      (m : Exec A) (f : A → Exec B)
      → Keeps R m
      → ((a : A) → KeepsAnd R P (f a))
      → KeepsAnd R P (m >>= f)
  Keeps-bind m f km kf = Keeps-bind_of (λ _. Unit) m f km (λ a _. kf a)

-- A variable that is kept reads as the rule says.
pub Keeps-get_var :
    (R : Rule) (name : String)
    → R.kept name ≡ true
    → KeepsAnd R (λ found. found ≡ R.value name) (gets (λ w. var w.env name))
unfolding gets
Keeps-get_var R name listed = record { at = λ w h. (h.0 name listed, h) }

Valued-of_result :
    {A : Type 0} (P : A → Type 0) (r : Result A)
    → ((a : A) → r ≡ ok a → P a)
    → Valued P (of_result r)
Valued-of_result P (ok a) h = h a refl
Valued-of_result P (err e) h = tt

-- A call, with its answer at some point of the run.
pub Keeps-call_of :
    {R : Rule} {A : Type 0} (c : Call) (answer : World → Result A)
    → R.allowed c
    → KeepsAnd R (λ a. (w : World) × (answer w ≡ ok a)) (call c answer)
unfolding call
Keeps-call_of {R = R} c answer q = record {
  at = λ w (kept, made). (
    Valued-of_result (λ a. (x : World) × (answer x ≡ ok a)) (answer _) (λ a h. (_, h)),
    (kept, All-append R.allowed w.calls (c ∷ []) made (q, tt)),
  );
}

other_name :
    (kept : String → Bool) (key name : String)
    → kept key ≡ false
    → kept name ≡ true
    → (key == name) ≡ false
other_name kept key name other listed = elim (Bool-cases (key == name)) [
  | inr differ ↦ differ
  | inl same ↦ let e : key ≡ name = (eq_iff _ _).0 same in cc (ap kept e)
]

-- An action that touches neither the environment nor the calls.
pub Keeps-same :
    {R : Rule} {A : Type 0} (m : Exec A)
    → ((w : World) → ((m w).1.env ≡ w.env) × ((m w).1.calls ≡ w.calls))
    → Keeps R m
Keeps-same {R = R} m same = record {
  at = λ w (kept, made).
      let (env, calls) = same w in
      (
        any_value (m w).0,
        ((λ name listed. rw env (kept name listed)), subst (All R.allowed) (sym calls) made),
      );
}

module _ {R : Rule} where
  -- A variable that is not kept is set, or the call panics.
  pub Keeps-set_var :
      (key : String) (value : OsString) → R.kept key ≡ false → Keeps R (set_var key value)
  unfolding set_var
  Keeps-set_var key value other = record {
    at = λ w h.
        if_cases (λ (r : Outcome Unit × World). Valued (λ _. Unit) r.0 × Holds R r.1)
          (is_settable key value) _ _
          (λ _. (
            tt,
            (
              λ name listed.
                  rw (var-put_var w.env key value name, other_name R.kept key name other listed)
                    (h.0 name listed),
              h.1,
            ),
          ))
          λ _. (tt, h);
  }

  pub Keeps-put_file : (path : String) (bytes : Bytes) → Keeps R (put_file path bytes)
  unfolding put_file
  Keeps-put_file path bytes = record { at = λ w h. (tt, h) }

pub ruleset keeps_rules = (
  Keeps-pure, Keeps-fail, Keeps-panic, Keeps-lift, Keeps-gets, Keeps-call, Keeps-await,
  Keeps-with_context, Keeps-bind, Keeps-set_var, Keeps-put_file,
)
