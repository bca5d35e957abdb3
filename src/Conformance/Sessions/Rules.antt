-- ===== src/Conformance/Sessions/Rules.antt =====
-- What the actions of the harness of conformance-tests/src/main.rs have done when they return.
use containerd_shim_spin.Prelude.{String, ◌≡◌, refl, List, [], ◌∷◌, ◌++◌, append_assoc, append-nil}
use containerd_shim_spin.Conformance.Machine.{
  of_try, good, bad, HarnessError, Action, Try, Log, Done, returned, failed, panicked, Harness,
  pure, fail, panic, ask, act, continue, ◌>>=◌, finally,
}

-- What an action has done when it returns, by its value.
abbrev pub Deeds : Type 0 → Type 1
Deeds A = A → List Action → Type 0

abbrev pub DoneBy : {A : Type 0} → Deeds A → A → Log → Log → Type 0
DoneBy E a log log' = (es : List Action) × (log' ≡ log ++ es) × E a es

pub record Does {A : Type 0} (E : Deeds A) (m : Harness A) : Type 0 where
  pub at : (log : Log) (a : A) → (m log).0 ≡ returned a → DoneBy E a log (m log).1

abbrev pub Only : {A : Type 0} → List Action → Deeds A
Only actions a es = es ≡ actions

module _ {A : Type 0} where
  of_try-good :
      (name : String → HarnessError) (answer : Try A) (a : A)
      → of_try name answer ≡ returned a
      → answer ≡ good a
  of_try-good name (good b) a h = cc
  of_try-good name (bad e) a h = cc

  pub Does-pure : (a : A) → Does (λ b es. (b ≡ a) × (es ≡ [])) (pure a)
  unfolding pure
  Does-pure a = record { at = λ log b h. ([], rw append-nil refl, (cc, refl)) }

  pub Does-value : (a : A) → Does (Only []) (pure a)
  unfolding pure
  Does-value a = record { at = λ log b h. ([], rw append-nil refl, refl) }

  -- A question, with its answer at some point of the run.
  pub Does-ask_of :
      (name : String → HarnessError) (answer : Log → Try A)
      → Does (λ a es. ((log : Log) × (answer log ≡ good a)) × (es ≡ [])) (ask name answer)
  unfolding ask
  Does-ask_of name answer = record {
    at = λ log b h. ([], rw append-nil refl, ((log, of_try-good name (answer log) b h), refl));
  }

  pub Does-map :
      (E : Deeds A) (F : Deeds A) (m : Harness A)
      → Does E m
      → ((a : A) (es : List Action) → E a es → F a es)
      → Does F m
  Does-map E F m k weaken = record {
    at = λ log a h. let (es, added, done) = k.at log a h in (es, added, weaken a es done);
  }

  pub Does-fail : (E : Deeds A) (e : HarnessError) → Does E (fail e)
  unfolding fail
  Does-fail E e = record { at = λ log b h. cc }

  pub Does-panic : (E : Deeds A) → Does E panic
  unfolding panic
  Does-panic E = record { at = λ log b h. cc }

  pub Does-ask :
      (name : String → HarnessError) (answer : Log → Try A) → Does (Only []) (ask name answer)
  unfolding ask
  Does-ask name answer = record { at = λ log b h. ([], rw append-nil refl, refl) }

  pub Does-act :
      (action : Action) (name : String → HarnessError) (answer : Log → Try A)
      → Does (Only (action ∷ [])) (act action name answer)
  unfolding act
  Does-act action name answer = record { at = λ log b h. (action ∷ [], refl, refl) }

  pub Does-finally :
      (E : Deeds A) (F : Deeds A) (m : Harness A) (action : Action)
      → Does E m
      → ((a : A) (es : List Action) → E a es → F a (es ++ action ∷ []))
      → Does F (finally m action)
  unfolding finally
  Does-finally E F m action k join = record {
    at = λ log a h.
        let (es, added, done) = k.at log a h in
        (es ++ action ∷ [], rw (added, append_assoc) refl, join a es done);
  }

-- A failure with a destructor.
pub Does-dropped :
    {A : Type 0} (E : Deeds A) (e : HarnessError) (action : Action)
    → Does E (finally (fail e) action)
Does-dropped E e action =
    Does-finally (λ _ _. ⊥) E (fail e) action (Does-fail _ e) λ a es never. absurd never

module _ {A B : Type 0} where
  continue-done :
      (E : Deeds A) (F : A → Deeds B) (r : Done A) (f : A → Harness B) (log log' : Log) (b : B)
      → ((a : A) → r ≡ returned a → DoneBy E a log log')
      → ((a : A) → Does (F a) (f a))
      → (continue r f log').0 ≡ returned b
      → (a : A) × (first : List Action) × (second : List Action) × ((continue r f log').1
          ≡ log ++ (first ++ second))
        × E a first
        × F a b second
  continue-done E F (returned a) f log log' b k l h =
      let (first, added, done) = k a refl in
      let (second, added', done') = (l a).at log' b h in
      (a, first, second, rw (added', added) (append_assoc log first second), done, done')
  continue-done E F (failed e) f log log' b k l h = cc
  continue-done E F panicked f log log' b k l h = cc

  pub Does-bind :
      (E : Deeds A) (F : A → Deeds B) (G : Deeds B) (m : Harness A) (f : A → Harness B)
      → Does E m
      → ((a : A) → Does (F a) (f a))
      → ((a : A) (b : B) (first second : List Action)
          → E a first
          → F a b second
          → G b (first ++ second))
      → Does G (m >>= f)
  unfolding ◌>>=◌
  Does-bind E F G m f k l join = record {
    at = λ log b h.
        let (a, first, second, added, done, done') =
          continue-done E F (m log).0 f log (m log).1 b (λ a e. k.at log a e) l h in
        (first ++ second, added, join a b first second done done');
  }
