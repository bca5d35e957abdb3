-- ===== src/Exec.antt =====
-- The effects of the shim: its error values, what it changes, and the monad of its functions.
pub mod Makes
pub mod Stages
pub mod Within
pub mod Total
pub mod Fails
pub mod Keeps
pub mod Ends
use containerd_shim_spin.Prelude.{ℕ, zero, suc, String, Option, none, some, List, [], ◌∷◌, ◌++◌}
use containerd_shim_spin.Prelude.{◌≡◌, refl, ◌⊎◌, inl, inr, arith, if◌then◌else◌}
use containerd_shim_spin.Prelude.Maps.{TextMap, insert}
use containerd_shim_spin.Env.{Env, OsString, var, put_var, is_settable}
use containerd_shim_spin.Oci.{Bytes}
use containerd_shim_spin.App.{TriggerKind, CliArgs, Launch}

-- The messages of `context` and `with_context`, with what they format in.
pub data Context : Type 0 where
  text : String → Context
  resolving_content loading_component finding_executor : String → Context
  retaining_components : List String → Context

-- `anyhow::Error`: an error of a library, one of the shim's own, or one with a context.
pub data Error : Type 0 where
  external : String → Error
  expected_single_layer : ℕ → Error
  unsupported_trigger : String → Error
  unparsed_address : String → Error
  not_a_precompiled_component : Error
  context : Context → Error → Error

pub data Result {ℓ} (A : Type ℓ) : Type ℓ where
  ok : A → Result A
  err : Error → Result A

pub Result-cases {ℓ} :
    {A : Type ℓ} (r : Result A) → ((a : A) × (r ≡ ok a)) ⊎ ((e : Error) × (r ≡ err e))
Result-cases (ok a) = inl (a, refl)
Result-cases (err e) = inr (e, refl)

pub data Panic : Type 0 where
  unreachable_code : Panic
  invalid_variable : String → Panic
  empty_select : Panic
  index_out_of_bounds : ℕ → Panic

-- How an `async` function ends. `aborted`: the future was dropped at an await.
pub data Outcome (A : Type 0) : Type 0 where
  returned : A → Outcome A
  failed : Error → Outcome A
  panicked : Panic → Outcome A
  aborted : Outcome A

-- The calls into libraries that act on the world, with their arguments.
pub data Call : Type 0 where
  new_cache : String → Call
  write_wasm write_data unpack_archive : Bytes → String → Call
  load_manifest load_wasm_file resolve_content : String → Call
  retain : List String → Call
  init_telemetry set_handler : Call
  resolve_address : String → Call
  new_trigger : TriggerKind → CliArgs → Call
  start_trigger : Launch → Call
  select : List ℕ → Call

-- The state of the process. `calls` lists the calls so far, oldest first. `signal` counts the
-- awaits that pass before the termination signal drops the future; `none`: no signal arrives.
pub record World : Type 0 where
  pub env : Env
  pub files : TextMap Bytes
  pub calls : List Call
  pub signal : Option ℕ

abbrev pub Exec : Type 0 → Type 0
Exec A = World → Outcome A × World

module _ {A : Type 0} where
  unfoldable pub pure : A → Exec A
  pure a w = (returned a, w)

  unfoldable pub fail : Error → Exec A
  fail e w = (failed e, w)

  unfoldable pub panic : Panic → Exec A
  panic p w = (panicked p, w)

  abbrev pub of_result : Result A → Outcome A
  of_result (ok a) = returned a
  of_result (err e) = failed e

  unfoldable pub lift : Result A → Exec A
  lift r w = (of_result r, w)

  unfoldable pub gets : (World → A) → Exec A
  gets f w = (returned (f w), w)

  abbrev pub at_await : Option ℕ → Exec A → Exec A
  at_await none m w = m w
  at_await (some zero) m w = (aborted, w)
  at_await (some (suc n)) m w = m (record w { signal = some n })

  -- `m.await`, at which the future may be dropped.
  unfoldable pub await : Exec A → Exec A
  await m w = at_await w.signal m w

  -- A call of a library, which answers by all that has happened.
  unfoldable pub call : Call → (World → Result A) → Exec A
  call c answer w =
      let w' : World = record w { calls = w.calls ++ c ∷ [] } in (of_result (answer w'), w')

  abbrev pub add_context : Context → Outcome A → Outcome A
  add_context c (failed e) = failed (context c e)
  add_context c outcome = outcome

  unfoldable pub with_context : Context → Exec A → Exec A
  with_context c m w = let (r, w') = m w in (add_context c r, w')

module _ {A : Type 0} where
  of_result-returned : (r : Result A) {a : A} → of_result r ≡ returned a → r ≡ ok a
  of_result-returned (ok a) h = ground arith
  of_result-returned (err e) h = cc

  pub lift-returned : (r : Result A) (w : World) {a : A} → (lift r w).0 ≡ returned a → r ≡ ok a
  unfolding lift
  lift-returned r w h = of_result-returned r h

  add_context-returned :
      (c : Context) (r : Outcome A) {a : A} → add_context c r ≡ returned a → r ≡ returned a
  add_context-returned c (returned b) h = h
  add_context-returned c (failed e) h = cc
  add_context-returned c (panicked p) h = h
  add_context-returned c aborted h = h

  pub with_context-returned :
      (c : Context) (m : Exec A) (w : World) {a : A}
      → (with_context c m w).0 ≡ returned a
      → (m w).0 ≡ returned a
  unfolding with_context
  with_context-returned c m w h = add_context-returned c (m w).0 h

module _ {A B : Type 0} where
  -- What `?` and the next statement do with an outcome.
  abbrev pub continue : Outcome A → (A → Exec B) → Exec B
  continue (returned a) f w = f a w
  continue (failed e) f w = (failed e, w)
  continue (panicked p) f w = (panicked p, w)
  continue aborted f w = (aborted, w)

  infixl 10 ◌>>=◌ ◌>>◌
  -- Opening this opens the actions above that have no effect.
  unfoldable pub ◌>>=◌ : Exec A → (A → Exec B) → Exec B
  unfolding pure fail panic lift gets with_context
  ◌>>=◌ m f w = let (r, w') = m w in continue r f w'

  continue-returned :
      (r : Outcome A) (f : A → Exec B) (w : World) {b : B}
      → (continue r f w).0 ≡ returned b
      → (a : A) × (r ≡ returned a) × (continue r f w ≡ f a w)
  continue-returned (returned a) f w h = (a, refl, refl)
  continue-returned (failed e) f w h = cc
  continue-returned (panicked p) f w h = cc
  continue-returned aborted f w h = cc

  -- A sequence that returns has gone through a value of its first part.
  pub >>=-returned :
      (m : Exec A) (f : A → Exec B) (w : World) {b : B}
      → ((m >>= f) w).0 ≡ returned b
      → (a : A) × ((m w).0 ≡ returned a) × ((m >>= f) w ≡ f a (m w).1)
  unfolding ◌>>=◌
  >>=-returned m f w h = continue-returned (m w).0 f (m w).1 h

  abbrev pub ◌>>◌ : Exec A → Exec B → Exec B
  m >> n = m >>= λ _. n

at_await_returned :
    {A : Type 0} (signal : Option ℕ) (m : Exec A) (w : World) {a : A}
    → (at_await signal m w).0 ≡ returned a
    → (w' : World) × ((m w').0 ≡ returned a)
at_await_returned none m w h = (w, h)
at_await_returned (some zero) m w h = cc
at_await_returned (some (suc n)) m w h = (record w { signal = some n }, h)

-- An await that returns has run the action.
pub await_returned :
    {A : Type 0} (m : Exec A) (w : World) {a : A}
    → (await m w).0 ≡ returned a
    → (w' : World) × ((m w').0 ≡ returned a)
unfolding await
await_returned m w h = at_await_returned w.signal m w h

-- `env::var(key).ok()`
abbrev pub get_var : String → Exec (Option String)
get_var key = gets (λ w. var w.env key)

-- `env::set_var(key, value)`
unfoldable pub set_var : String → OsString → Exec Unit
set_var key value w =
    if is_settable key value
    then (returned tt, record w { env = put_var w.env key value })
    else (panicked (invalid_variable key), w)

unfoldable pub put_file : String → Bytes → Exec Unit
put_file path bytes w = (returned tt, record w { files = insert path bytes w.files })
