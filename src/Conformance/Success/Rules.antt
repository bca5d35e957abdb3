-- ===== src/Conformance/Success/Rules.antt =====
-- Actions of the harness of conformance-tests/src/main.rs that return.
use containerd_shim_spin.Prelude.{String, ◌≡◌, refl, ap}
use containerd_shim_spin.Conformance.Machine.{
  HarnessError, Try, good, Action, Log, Done, returned, Harness, pure, ask, act, of_try, continue,
  ◌>>=◌, finally,
}

-- A harness action that returns a value of which `Q` holds, whatever was done before.
pub record Ends {A : Type 0} (Q : A → Type 0) (m : Harness A) : Type 0 where
  pub at : (log : Log) → (a : A) × ((m log).0 ≡ returned a) × Q a

abbrev pub Finishes : {A : Type 0} → Harness A → Type 0
Finishes m = Ends (λ _. Unit) m

module _ {A : Type 0} where
  pub Ends-pure : {Q : A → Type 0} (a : A) → Q a → Ends Q (pure a)
  unfolding pure
  Ends-pure a q = record { at = λ log. (a, refl, q) }

  pub Ends-ask :
      {Q : A → Type 0} (name : String → HarnessError) (answer : Log → Try A)
      → ((log : Log) → (a : A) × (answer log ≡ good a) × Q a)
      → Ends Q (ask name answer)
  unfolding ask
  Ends-ask name answer k = record {
    at = λ log. let (a, e, q) = k log in (a, ap (of_try name) e, q);
  }

  pub Ends-act :
      {Q : A → Type 0} (action : Action) (name : String → HarnessError) (answer : Log → Try A)
      → ((log : Log) → (a : A) × (answer log ≡ good a) × Q a)
      → Ends Q (act action name answer)
  unfolding act
  Ends-act action name answer k = record {
    at = λ log. let (a, e, q) = k log in (a, ap (of_try name) e, q);
  }

  pub Ends-finally :
      {Q : A → Type 0} (m : Harness A) (action : Action) → Ends Q m → Ends Q (finally m action)
  unfolding finally
  Ends-finally m action k = record { at = λ log. k.at log }

module _ {A B : Type 0} where
  continue-returned :
      {R : B → Type 0} (r : Done A) (f : A → Harness B) (log : Log) (a : A)
      → r ≡ returned a
      → Ends R (f a)
      → (b : B) × ((continue r f log).0 ≡ returned b) × R b
  continue-returned r f log a h k = rw h (k.at log)

  pub Ends-bind :
      {Q : A → Type 0} {R : B → Type 0} (m : Harness A) (f : A → Harness B)
      → Ends Q m
      → ((a : A) → Q a → Ends R (f a))
      → Ends R (m >>= f)
  unfolding ◌>>=◌
  Ends-bind m f k l = record {
    at = λ log. let (a, e, q) = k.at log in continue-returned _ f _ a e (l a q);
  }

  pub Finishes-bind :
      (m : Harness A) (f : A → Harness B)
      → Finishes m
      → ((a : A) → Finishes (f a))
      → Finishes (m >>= f)
  Finishes-bind m f k l = Ends-bind {Q = λ _. Unit} m f k λ a _. l a
