-- ===== src/Exec/Ends.antt =====
-- How an action may end, whatever the state and the host: one rule for each way to build an action.
use containerd_shim_spin.Prelude.{
  ℕ, zero, suc, String, ◌≡◌, refl, Bool, true, false, Option, none, some, arith, if◌then◌else◌,
}
use containerd_shim_spin.Env.{OsString}
use containerd_shim_spin.Oci.{Bytes}
use containerd_shim_spin.Exec.{
  Context, Error, Result, ok, err, Panic, invalid_variable, Outcome, returned, failed, panicked,
  aborted, Call, World, Exec, pure, fail, panic, lift, gets, at_await, await, call, add_context,
  with_context, continue, of_result, ◌>>=◌, set_var, put_file,
}

-- A value that is returned satisfies `P`, and a panic satisfies `Q`.
abbrev pub Ended : {A : Type 0} → (A → Type 0) → (Panic → Type 0) → Outcome A → Type 0
Ended P Q (returned a) = P a
Ended P Q (failed e) = Unit
Ended P Q (panicked p) = Q p
Ended P Q aborted = Unit

pub record Ends {A : Type 0} (P : A → Type 0) (Q : Panic → Type 0) (m : Exec A) : Type 0 where
  pub at : (w : World) → Ended P Q (m w).0

module _ {A : Type 0} (P : A → Type 0) (Q : Panic → Type 0) where
  Ended-of_result : (r : Result A) → ((a : A) → r ≡ ok a → P a) → Ended P Q (of_result r)
  Ended-of_result (ok a) h = h a refl
  Ended-of_result (err e) h = tt

  Ended-add_context : (c : Context) (r : Outcome A) → Ended P Q r → Ended P Q (add_context c r)
  Ended-add_context c (failed e) h = tt
  Ended-add_context c (returned a) h = h
  Ended-add_context c (panicked p) h = h
  Ended-add_context c aborted h = h

module _ {A : Type 0} {P : A → Type 0} {Q : Panic → Type 0} where
  pub Ends-pure : (a : A) → P a → Ends P Q (pure a)
  unfolding pure
  Ends-pure a p = record { at = λ w. p }

  pub Ends-fail : (e : Error) → Ends P Q (fail e)
  unfolding fail
  Ends-fail e = record { at = λ w. tt }

  pub Ends-panic : (p : Panic) → Q p → Ends P Q (panic p)
  unfolding panic
  Ends-panic p q = record { at = λ w. q }

  -- A result of the host keeps what is known of it.
  pub Ends-lift : (r : Result A) → ((a : A) → r ≡ ok a → P a) → Ends P Q (lift r)
  unfolding lift
  Ends-lift r h = record { at = λ w. Ended-of_result P Q r h }

  pub Ends-call :
      (c : Call) (answer : World → Result A)
      → ((w : World) (a : A) → answer w ≡ ok a → P a)
      → Ends P Q (call c answer)
  unfolding call
  Ends-call c answer h = record { at = λ w. Ended-of_result P Q _ (h _) }

  pub Ends-gets : (f : World → A) → ((w : World) → P (f w)) → Ends P Q (gets f)
  unfolding gets
  Ends-gets f h = record { at = h }

  pub Ends-if :
      (b : Bool) (m n : Exec A)
      → (b ≡ true → Ends P Q m)
      → (b ≡ false → Ends P Q n)
      → Ends P Q (if b then m else n)
  Ends-if true m n km kn = km refl
  Ends-if false m n km kn = kn refl

  Ends-at_await : (signal : Option ℕ) (m : Exec A) → Ends P Q m → Ends P Q (at_await signal m)
  Ends-at_await none m k = record { at = λ w. k.at w }
  Ends-at_await (some zero) m k = record { at = λ w. tt }
  Ends-at_await (some (suc n)) m k = record { at = λ w. k.at (record w { signal = some n }) }

  pub Ends-await : (m : Exec A) → Ends P Q m → Ends P Q (await m)
  unfolding await
  Ends-await m k = record { at = λ w. (Ends-at_await w.signal m k).at w }

  pub Ends-with_context : (c : Context) (m : Exec A) → Ends P Q m → Ends P Q (with_context c m)
  unfolding with_context
  Ends-with_context c m k = record { at = λ w. Ended-add_context P Q c (m w).0 (k.at w) }

module _ {A B : Type 0} {R : A → Type 0} {P : B → Type 0} {Q : Panic → Type 0} where
  Ended-continue :
      (r : Outcome A) (f : A → Exec B) (w : World)
      → Ended R Q r
      → ((a : A) → R a → Ends P Q (f a))
      → Ended P Q (continue r f w).0
  Ended-continue (returned a) f w h k = (k a h).at w
  Ended-continue (failed e) f w h k = tt
  Ended-continue (panicked p) f w h k = h
  Ended-continue aborted f w h k = tt

  -- The rest may use what is known of the value.
  pub Ends-bind_of :
      (m : Exec A) (f : A → Exec B)
      → Ends R Q m
      → ((a : A) → R a → Ends P Q (f a))
      → Ends P Q (m >>= f)
  unfolding ◌>>=◌
  Ends-bind_of m f km kf = record { at = λ w. Ended-continue (m w).0 f (m w).1 (km.at w) kf }

abbrev pub Anything : {A : Type 0} → A → Type 0
Anything a = Unit

-- An action that panics only by `Q`; nothing is claimed of its value.
abbrev pub PanicsBy : (Panic → Type 0) → {A : Type 0} → Exec A → Type 0
PanicsBy Q m = Ends Anything Q m

module _ {Q : Panic → Type 0} {A B : Type 0} {P : B → Type 0} where
  pub Ends-bind :
      (m : Exec A) (f : A → Exec B) → PanicsBy Q m → ((a : A) → Ends P Q (f a)) → Ends P Q (m >>= f)
  Ends-bind m f km kf = Ends-bind_of m f km (λ a _. kf a)

module _ {Q : Panic → Type 0} where
  pub Ends-set_var :
      (key : String) (value : OsString) → Q (invalid_variable key) → PanicsBy Q (set_var key value)
  unfolding set_var
  Ends-set_var key value q = record { at = λ w. ground arith }

  pub Ends-put_file : (path : String) (bytes : Bytes) → PanicsBy Q (put_file path bytes)
  unfolding put_file
  Ends-put_file path bytes = record { at = λ w. tt }
