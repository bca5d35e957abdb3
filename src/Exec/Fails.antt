-- ===== src/Exec/Fails.antt =====
-- How an action may fail, whatever the state and the host: one rule for each way to build an action.
use containerd_shim_spin.Prelude.{
  ℕ, zero, suc, String, ◌≡◌, refl, Bool, true, false, Option, none, some, arith, if◌then◌else◌,
}
use containerd_shim_spin.Env.{OsString}
use containerd_shim_spin.Oci.{Bytes}
use containerd_shim_spin.Exec.{
  Context, Error, context, Result, ok, err, Panic, Outcome, returned, failed, panicked, aborted,
  Call, World, Exec, pure, fail, panic, lift, gets, at_await, await, call, add_context,
  with_context, continue, of_result, ◌>>=◌, set_var, put_file,
}

-- The error of an outcome, if it is one, is in `Q`.
abbrev pub Failed : {A : Type 0} → (Error → Type 0) → Outcome A → Type 0
Failed Q (failed e) = Q e
Failed Q (returned a) = Unit
Failed Q (panicked p) = Unit
Failed Q aborted = Unit

pub record FailsBy (Q : Error → Type 0) {A : Type 0} (m : Exec A) : Type 0 where
  pub at : (w : World) → Failed Q (m w).0

-- An answer that some state of the process can get is this error.
abbrev pub Refuses : {A : Type 0} → (World → Result A) → Error → Type 0
Refuses answer e = (w : World) × (answer w ≡ err e)

module _ {A : Type 0} (Q : Error → Type 0) where
  Failed-of_result : (r : Result A) → ((e : Error) → r ≡ err e → Q e) → Failed Q (of_result r)
  Failed-of_result (ok a) h = tt
  Failed-of_result (err e) h = h e refl

  pub Failed-from :
      {R : Error → Type 0} (r : Outcome A) → ((e : Error) → R e → Q e) → Failed R r → Failed Q r
  Failed-from (failed e) h k = h e k
  Failed-from (returned a) h k = tt
  Failed-from (panicked p) h k = tt
  Failed-from aborted h k = tt

  Failed-add_context :
      (c : Context) (r : Outcome A) → Failed (λ e. Q (context c e)) r → Failed Q (add_context c r)
  Failed-add_context c (failed e) h = h
  Failed-add_context c (returned a) h = tt
  Failed-add_context c (panicked p) h = tt
  Failed-add_context c aborted h = tt

module _ {A : Type 0} {Q : Error → Type 0} where
  pub Fails-pure : (a : A) → FailsBy Q (pure a)
  unfolding pure
  Fails-pure a = record { at = λ w. tt }

  pub Fails-fail : (e : Error) → Q e → FailsBy Q (fail {A = A} e)
  unfolding fail
  Fails-fail e q = record { at = λ w. q }

  pub Fails-panic : (p : Panic) → FailsBy Q (panic {A = A} p)
  unfolding panic
  Fails-panic p = record { at = λ w. tt }

  pub Fails-lift : (r : Result A) → ((e : Error) → r ≡ err e → Q e) → FailsBy Q (lift r)
  unfolding lift
  Fails-lift r h = record { at = λ w. Failed-of_result Q r h }

  pub Fails-call :
      (c : Call) (answer : World → Result A)
      → ((e : Error) → Refuses answer e → Q e)
      → FailsBy Q (call c answer)
  unfolding call
  Fails-call c answer h = record { at = λ w. Failed-of_result Q _ (λ e same. h e (_, same)) }

  pub Fails-gets : (f : World → A) → FailsBy Q (gets f)
  unfolding gets
  Fails-gets f = record { at = λ w. tt }

  pub Fails-if :
      (b : Bool) (m n : Exec A)
      → (b ≡ true → FailsBy Q m)
      → (b ≡ false → FailsBy Q n)
      → FailsBy Q (if b then m else n)
  Fails-if true m n km kn = km refl
  Fails-if false m n km kn = kn refl

  Fails-at_await : (signal : Option ℕ) (m : Exec A) → FailsBy Q m → FailsBy Q (at_await signal m)
  Fails-at_await none m k = record { at = λ w. k.at w }
  Fails-at_await (some zero) m k = record { at = λ w. tt }
  Fails-at_await (some (suc n)) m k = record { at = λ w. k.at (record w { signal = some n }) }

  pub Fails-await : (m : Exec A) → FailsBy Q m → FailsBy Q (await m)
  unfolding await
  Fails-await m k = record { at = λ w. (Fails-at_await w.signal m k).at w }

  -- The context is put around the error.
  pub Fails-with_context :
      (c : Context) (m : Exec A) → FailsBy (λ e. Q (context c e)) m → FailsBy Q (with_context c m)
  unfolding with_context
  Fails-with_context c m k = record { at = λ w. Failed-add_context Q c (m w).0 (k.at w) }

  pub Fails-from :
      {R : Error → Type 0} (m : Exec A) → ((e : Error) → R e → Q e) → FailsBy R m → FailsBy Q m
  Fails-from m h k = record { at = λ w. Failed-from Q (m w).0 h (k.at w) }

module _ {A B : Type 0} {Q : Error → Type 0} where
  Failed-continue :
      (r : Outcome A) (f : A → Exec B) (w : World)
      → Failed Q r
      → ((a : A) → FailsBy Q (f a))
      → Failed Q (continue r f w).0
  Failed-continue (returned a) f w h k = (k a).at w
  Failed-continue (failed e) f w h k = h
  Failed-continue (panicked p) f w h k = tt
  Failed-continue aborted f w h k = tt

  pub Fails-bind :
      (m : Exec A) (f : A → Exec B)
      → FailsBy Q m
      → ((a : A) → FailsBy Q (f a))
      → FailsBy Q (m >>= f)
  unfolding ◌>>=◌
  Fails-bind m f km kf = record { at = λ w. Failed-continue (m w).0 f (m w).1 (km.at w) kf }

  Failed-continue_of :
      (R : A → Type 0) (r : Outcome A) (f : A → Exec B) (w : World)
      → Failed Q r
      → ((a : A) → r ≡ returned a → R a)
      → ((a : A) → R a → FailsBy Q (f a))
      → Failed Q (continue r f w).0
  Failed-continue_of R (returned a) f w h known k = (k a (known a refl)).at w
  Failed-continue_of R (failed e) f w h known k = h
  Failed-continue_of R (panicked p) f w h known k = tt
  Failed-continue_of R aborted f w h known k = tt

  -- The rest may use what is known of the value.
  pub Fails-bind_of :
      (R : A → Type 0) (m : Exec A) (f : A → Exec B)
      → FailsBy Q m
      → ((w : World) (a : A) → (m w).0 ≡ returned a → R a)
      → ((a : A) → R a → FailsBy Q (f a))
      → FailsBy Q (m >>= f)
  unfolding ◌>>=◌
  Fails-bind_of R m f km known kf = record {
    at = λ w. Failed-continue_of R (m w).0 f (m w).1 (km.at w) (known w) kf;
  }

module _ {Q : Error → Type 0} where
  pub Fails-set_var : (key : String) (value : OsString) → FailsBy Q (set_var key value)
  unfolding set_var
  Fails-set_var key value = record { at = λ w. ground arith }

  pub Fails-put_file : (path : String) (bytes : Bytes) → FailsBy Q (put_file path bytes)
  unfolding put_file
  Fails-put_file path bytes = record { at = λ w. tt }

pub ruleset fails_rules =
    (Fails-pure, Fails-panic, Fails-gets, Fails-await, Fails-bind, Fails-set_var, Fails-put_file)
