-- ===== src/Apps/Sdk.antt =====
-- What the sample applications use of Spin's SDK: variables, key value stores and Redis, as records of
-- operations on the state of the services, and the monad of a handler.
use containerd_shim_spin.Prelude.{
  Bool, false, ℕ, code, String, Option, none, some, List, [], ◌∷◌, eqb, if◌then◌else◌,
}
use containerd_shim_spin.Oci.{Bytes}

-- `anyhow::Error` of a handler: an error of the SDK, or one that the handler names.
pub data AppError : Type 0 where
  sdk : String → AppError
  executing_set executing_get executing_incr querying no_value invalid_utf8 : AppError

pub data Answer (A : Type 0) : Type 0 where
  done : A → Answer A
  error : String → Answer A

-- How a handler ends; `assertion_failed` is the panic of `assert_eq!`.
pub data Ended (A : Type 0) : Type 0 where
  returned : A → Ended A
  failed : AppError → Ended A
  assertion_failed : Ended A

-- An operation of the SDK on services in state `S`.
abbrev pub Operation : Type 0 → Type 0 → Type 0
Operation S A = S → Answer A × S

-- A handler.
abbrev pub Handler : Type 0 → Type 0 → Type 0
Handler S A = S → Ended A × S

-- `spin_sdk::variables`
pub record Variables (S : Type 0) : Type 0 where
  pub get_variable : String → Operation S String

-- Integers: `n`, and `-1 - n`.
pub data ℤ : Type 0 where
  pos negsuc : ℕ → ℤ

abbrev pub is_same : ℤ → ℤ → Bool
is_same (pos m) (pos n) = eqb m n
is_same (negsuc m) (negsuc n) = eqb m n
is_same (pos _) (negsuc _) = false
is_same (negsuc _) (pos _) = false

-- `spin_sdk::redis::Connection`, with connections of type `C`.
pub record Redis (S C : Type 0) : Type 0 where
  pub open_redis : String → Operation S C
  pub set : C → String → Bytes → Operation S Unit
  pub get : C → String → Operation S (Option Bytes)
  pub incr : C → String → Operation S ℤ
  pub publish : C → String → Bytes → Operation S Unit

-- `spin_sdk::key_value::Store`
pub record Stores (S C : Type 0) : Type 0 where
  pub open_store : String → Operation S C
  pub set_key : C → String → Bytes → Operation S Unit
  pub get_key : C → String → Operation S (Option Bytes)

-- The bytes of an ASCII text.
abbrev pub into_bytes : String → Bytes
into_bytes String.[] = []
into_bytes (String.◌∷◌ c s) = code c ∷ into_bytes s

-- A request, with the path of its URI, and its body as far as it can be read.
pub record Request : Type 0 where
  pub path : String
  pub body : Answer Bytes

pub record Response : Type 0 where
  pub status : ℕ
  pub headers : List (String × String)
  pub body : Bytes

-- `Option::unwrap_or_default` on bytes.
abbrev pub or_empty : Option Bytes → Bytes
or_empty none = []
or_empty (some bytes) = bytes

module _ {A : Type 0} where
  abbrev pub of_answer : Answer A → Ended A
  of_answer (done a) = returned a
  of_answer (error e) = failed (sdk e)

  abbrev pub named : AppError → Answer A → Ended A
  named name (done a) = returned a
  named name (error _) = failed name

module _ {S : Type 0} {A : Type 0} where
  unfoldable pub pure : A → Handler S A
  pure a s = (returned a, s)

  -- `operation.await?`
  unfoldable pub ask : Operation S A → Handler S A
  ask operation s = let (answer, s') = operation s in (of_answer answer, s')

  -- `operation.await.map_err(|_| anyhow!(name))?`
  unfoldable pub ask_as : AppError → Operation S A → Handler S A
  ask_as name operation s = let (answer, s') = operation s in (named name answer, s')

  -- `context(name)?` on an option.
  unfoldable pub present : AppError → Option A → Handler S A
  present name none s = (failed name, s)
  present name (some a) s = (returned a, s)

  -- The answer itself, for a match on it.
  unfoldable pub attempt : Operation S A → Handler S (Answer A)
  attempt operation s = let (answer, s') = operation s in (returned answer, s')

-- `assert_eq!` on integers.
unfoldable pub assert_eq : {S : Type 0} → ℤ → ℤ → Handler S Unit
assert_eq a b s = if is_same a b then (returned tt, s) else (assertion_failed, s)

module _ {S : Type 0} {A B : Type 0} where
  abbrev pub continue : Ended A → (A → Handler S B) → Handler S B
  continue (returned a) f s = f a s
  continue (failed e) f s = (failed e, s)
  continue assertion_failed f s = (assertion_failed, s)

  infixl 10 ◌>>=◌ ◌>>◌
  unfoldable pub ◌>>=◌ : Handler S A → (A → Handler S B) → Handler S B
  ◌>>=◌ m f s = let (r, s') = m s in continue r f s'

  abbrev pub ◌>>◌ : Handler S A → Handler S B → Handler S B
  m >> n = m >>= λ _. n
