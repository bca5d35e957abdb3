-- ===== src/Apps/Logic.antt =====
-- Reasoning about handlers, and what they rely on of Redis and of key value stores.
use containerd_shim_spin.Prelude.{
  ℕ, suc, String, ◌≡◌, refl, ap, true, Option, none, some, List, [], ◌∷◌, ◌++◌, arith,
  if◌then◌else◌, ◌==◌, eqb,
}
use containerd_shim_spin.Oci.{Bytes}
use containerd_shim_spin.Apps.Sdk.{
  ℤ, pos, negsuc, is_same, AppError, sdk, Answer, done, error, Ended, returned, failed,
  assertion_failed, Operation, Handler, Redis, Stores, into_bytes, of_answer, named, ask, ask_as,
  present, attempt, assert_eq, ◌>>=◌, pure, continue,
}

-- How a handler may have ended: with a result and a state in `P`, or with an error and a state in `E`.
abbrev pub Final :
    {S A : Type 0} → (A → S → Type 0) → (AppError → S → Type 0) → Ended A → S → Type 0
Final P E (returned a) s = P a s
Final P E (failed e) s = E e s
Final P E assertion_failed s = ⊥

pub record Ensures {S A : Type 0} (P : A → S → Type 0) (E : AppError → S → Type 0) (m : Handler S A)
    (s : S) : Type 0 where
  pub at : Final P E (m s).0 (m s).1

-- The answer of an operation, with the state after it.
pub answer-pair : {S A : Type 0} (r : Answer A × S) {a : Answer A} → r.0 ≡ a → r ≡ (a, r.1)
answer-pair (answer, s) h = ap (λ a. (a, s)) h

eqb_refl : (n : ℕ) → eqb n n ≡ true
eqb_refl n = ground arith

is_same_refl : (a : ℤ) → is_same a a ≡ true
is_same_refl (pos n) = eqb_refl n
is_same_refl (negsuc n) = eqb_refl n

abbrev pub Whatever : {S A : Type 0} → A → S → Type 0
Whatever a s = Unit

module _ {S A B : Type 0} (R : A → S → Type 0) {P : B → S → Type 0}
    {E : AppError → S → Type 0} where
  Final-continue :
      (r : Ended A) (f : A → Handler S B) (s : S)
      → Final R E r s
      → ((a : A) (s' : S) → R a s' → Ensures P E (f a) s')
      → Final P E (continue r f s).0 (continue r f s).1
  Final-continue (returned a) f s h k = (k a s h).at
  Final-continue (failed e) f s h k = h
  Final-continue assertion_failed f s h k = absurd h

  pub Ensures-bind :
      (m : Handler S A) (f : A → Handler S B) (s : S)
      → Ensures R E m s
      → ((a : A) (s' : S) → R a s' → Ensures P E (f a) s')
      → Ensures P E (m >>= f) s
  unfolding ◌>>=◌
  Ensures-bind m f s h k = record { at = Final-continue (m s).0 f (m s).1 h.at k }

module _ {S A : Type 0} (P : A → S → Type 0) (E : AppError → S → Type 0) where
  Final-of_answer :
      (answer : Answer A) (s : S)
      → ((a : A) → answer ≡ done a → P a s)
      → ((e : String) → answer ≡ error e → E (sdk e) s)
      → Final P E (of_answer answer) s
  Final-of_answer (done a) s h k = h a refl
  Final-of_answer (error e) s h k = k e refl

  Final-named :
      (name : AppError) (answer : Answer A) (s : S)
      → ((a : A) → answer ≡ done a → P a s)
      → ((e : String) → answer ≡ error e → E name s)
      → Final P E (named name answer) s
  Final-named name (done a) s h k = h a refl
  Final-named name (error e) s h k = k e refl

module _ {S A : Type 0} {P : A → S → Type 0} {E : AppError → S → Type 0} where
  -- An error of the SDK is passed on as it is.
  pub Ensures-ask :
      (operation : Operation S A) (s : S)
      → ((a : A) → (operation s).0 ≡ done a → P a (operation s).1)
      → ((e : String) → (operation s).0 ≡ error e → E (sdk e) (operation s).1)
      → Ensures P E (ask operation) s
  unfolding ask
  Ensures-ask operation s h k = record {
    at = Final-of_answer P E (operation s).0 (operation s).1 h k;
  }

  pub Ensures-ask_as :
      (name : AppError) (operation : Operation S A) (s : S)
      → ((a : A) → (operation s).0 ≡ done a → P a (operation s).1)
      → ((e : String) → (operation s).0 ≡ error e → E name (operation s).1)
      → Ensures P E (ask_as name operation) s
  unfolding ask_as
  Ensures-ask_as name operation s h k = record {
    at = Final-named P E name (operation s).0 (operation s).1 h k;
  }

  pub Ensures-pure : (a : A) (s : S) → P a s → Ensures P E (pure a) s
  unfolding pure
  Ensures-pure a s h = record { at = h }

  pub Ensures-present :
      (name : AppError) (o : Option A) (a : A) (s : S)
      → o ≡ some a
      → P a s
      → Ensures P E (present name o) s
  unfolding present
  Ensures-present name o a s there h = record { at = rw there h }

  -- An option that may be missing.
  pub Ensures-present_of :
      (name : AppError) (o : Option A) (s : S)
      → ((a : A) → o ≡ some a → P a s)
      → (o ≡ none → E name s)
      → Ensures P E (present name o) s
  unfolding present
  Ensures-present_of name none s h k = record { at = k refl }
  Ensures-present_of name (some a) s h k = record { at = h a refl }

module _ {S A : Type 0} {P : Answer A → S → Type 0} {E : AppError → S → Type 0} where
  pub Ensures-attempt :
      (operation : Operation S A) (s : S)
      → P (operation s).0 (operation s).1
      → Ensures P E (attempt operation) s
  unfolding attempt
  Ensures-attempt operation s h = record { at = h }

module _ {S : Type 0} {P : Unit {0} → S → Type 0} {E : AppError → S → Type 0} where
  pub Ensures-assert_eq : (a b : ℤ) (s : S) → a ≡ b → P tt s → Ensures P E (assert_eq a b) s
  unfolding assert_eq
  Ensures-assert_eq a b s same h = record { at = rw same (rw (is_same_refl b) h) }

-- What the handlers rely on of Redis, while no other client uses its server: `value` is what the server of a connection holds under a key, and
-- `sent` the messages published on it, oldest first. `digits` writes a number as Redis does.
pub record IsRedis {S C : Type 0} (R : Redis S C) : Type 0 where
  pub value : S → C → String → Option Bytes
  pub sent : S → C → List (String × Bytes)
  pub digits : ℕ → String
  pub digits_zero : digits 0 ≡ "0"
  pub digits_one : digits 1 ≡ "1"
  pub set_lem :
      (s : S) (c : C) (key : String) (bytes : Bytes)
      → (R.set c key bytes s).0 ≡ done tt
      → (asked : String)
      → value (R.set c key bytes s).1 c asked
        ≡ (if key == asked then some bytes else value s c asked)
  pub get_lem :
      (s : S) (c : C) (key : String) {found : Option Bytes}
      → (R.get c key s).0 ≡ done found
      → (found ≡ value s c key)
        × ((asked : String) → value (R.get c key s).1 c asked ≡ value s c asked)
  pub incr_lem :
      (s : S) (c : C) (key : String) (n : ℕ) {m : ℤ}
      → value s c key ≡ some (into_bytes (digits n))
      → (R.incr c key s).0 ≡ done m
      → (m ≡ pos (suc n))
        × ((asked : String)
            → value (R.incr c key s).1 c asked
              ≡ (if key == asked then some (into_bytes (digits (suc n))) else value s c asked))
  pub publish_lem :
      (s : S) (c : C) (channel : String) (bytes : Bytes)
      → (asked : String) → value (R.publish c channel bytes s).1 c asked ≡ value s c asked
  pub publish_sent :
      (s : S) (c : C) (channel : String) (bytes : Bytes)
      → (R.publish c channel bytes s).0 ≡ done tt
      → sent (R.publish c channel bytes s).1 c ≡ sent s c ++ (channel, bytes) ∷ []

-- The same of a key value store.
pub record IsStores {S C : Type 0} (K : Stores S C) : Type 0 where
  pub held : S → C → String → Option Bytes
  pub set_held :
      (s : S) (c : C) (key : String) (bytes : Bytes)
      → (K.set_key c key bytes s).0 ≡ done tt
      → (asked : String)
      → held (K.set_key c key bytes s).1 c asked
        ≡ (if key == asked then some bytes else held s c asked)
  pub get_held :
      (s : S) (c : C) (key : String) {found : Option Bytes}
      → (K.get_key c key s).0 ≡ done found
      → (found ≡ held s c key)
        × ((asked : String) → held (K.get_key c key s).1 c asked ≡ held s c asked)
