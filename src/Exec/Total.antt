-- ===== src/Exec/Total.antt =====
-- Actions that return: what an action leaves when no call fails and no signal comes.
pub mod States
use Prim.Native.Char.{nul}
use containerd_shim_spin.Prelude.{
  ℕ, zero, suc, String, ◌≡◌, refl, ◌⊎◌, Bool, true, false, Option, none, some, inl, inr, Bool-cases,
  if◌then◌else◌, ◌==◌,
}
use containerd_shim_spin.Text.{holds_char}
use containerd_shim_spin.Env.{Env, OsString, var, put_var, is_settable, var-put_var, settable_clean}
use containerd_shim_spin.Exec.{
  Context, Result, ok, err, Outcome, returned, failed, panicked, aborted, Call, World, Exec, pure,
  lift, gets, at_await, await, call, add_context, with_context, continue, of_result, ◌>>=◌, set_var,
}

-- A value of a variable is clean if it has no NUL character: so the operating system keeps them.
abbrev pub IsCleanValue : Option String → Type 0
IsCleanValue found = (value : String) → found ≡ some value → holds_char nul value ≡ false

abbrev pub IsClean : Env → Type 0
IsClean env = (name : String) → IsCleanValue (var env name)

-- What is asked of a run: whether a signal may drop its future (`cut`), and what is kept of its
-- environment.
pub record Mode : Type 1 where
  pub cut : Type 0
  pub kept : Env → Type 0
  pub kept-put_var :
      (env : Env) (key : String) (value : OsString)
      → kept env
      → is_settable key value ≡ true
      → kept (put_var env key value)

abbrev pub MayWait : Mode → Option ℕ → Type 0
MayWait M signal = (signal ≡ none) ⊎ M.cut

abbrev pub IsReady : Mode → World → Type 0
IsReady M w = MayWait M w.signal × M.kept w.env

abbrev pub Given : Mode → {A : Type 0} → (A → Type 0) → Outcome A → World → Type 0
Given M P (returned a) w = P a × IsReady M w
Given M P (failed e) w = ⊥
Given M P (panicked p) w = ⊥
Given M P aborted w = M.cut

-- From a ready state the action returns a value in `P`, and the state is ready again; or its future
-- is dropped, where this may be.
pub record Gives (M : Mode) {A : Type 0} (P : A → Type 0) (m : Exec A) : Type 0 where
  pub at : (w : World) → IsReady M w → Given M P (m w).0 (m w).1

abbrev pub AnyValue : {A : Type 0} → A → Type 0
AnyValue a = Unit

abbrev pub Returns : Mode → {A : Type 0} → Exec A → Type 0
Returns M m = Gives M AnyValue m

module _ (M : Mode) {A : Type 0} (P : A → Type 0) where
  pub Given-returned :
      (r : Outcome A) (w : World)
      → Given M P r w
      → ((a : A) × (r ≡ returned a) × P a × IsReady M w) ⊎ ((r ≡ aborted) × M.cut)
  Given-returned (returned a) w (p, q) = inl (a, refl, p, q)
  Given-returned (failed e) w h = absurd h
  Given-returned (panicked p) w h = absurd h
  Given-returned aborted w h = inr (refl, h)

  Given-of_result :
      (r : Result A) (w : World)
      → ((a : A) × (r ≡ ok a) × P a)
      → IsReady M w
      → Given M P (of_result r) w
  Given-of_result (ok a) w (b, same, p) q = let e : b ≡ a = cc in (rw (← e) p, q)
  Given-of_result (err e) w (b, same, p) q = cc

  pub Given-add_context :
      (c : Context) (r : Outcome A) (w : World) → Given M P r w → Given M P (add_context c r) w
  Given-add_context c (returned a) w h = h
  Given-add_context c (failed e) w h = h
  Given-add_context c (panicked p) w h = h
  Given-add_context c aborted w h = h

  pub Given-at_await :
      (signal : Option ℕ) (m : Exec A) (w : World)
      → MayWait M signal
      → Given M P (m w).0 (m w).1
      → ((n : ℕ) → M.cut → let w' = record w { signal = some n } in Given M P (m w').0 (m w').1)
      → Given M P (at_await signal m w).0 (at_await signal m w).1
  Given-at_await none m w may now later = now
  Given-at_await (some n) m w (inl never) now later = cc
  Given-at_await (some zero) m w (inr cut) now later = cut
  Given-at_await (some (suc n)) m w (inr cut) now later = later n cut

module _ {M : Mode} {A : Type 0} {P : A → Type 0} where
  pub Gives-pure : (a : A) → P a → Gives M P (pure a)
  unfolding pure
  Gives-pure a p = record { at = λ w q. (p, q) }

  pub Gives-gets : (f : World → A) → ((w : World) → IsReady M w → P (f w)) → Gives M P (gets f)
  unfolding gets
  Gives-gets f h = record { at = λ w q. (h w q, q) }

  pub Gives-lift : (r : Result A) → ((a : A) × (r ≡ ok a) × P a) → Gives M P (lift r)
  unfolding lift
  Gives-lift r h = record { at = λ w q. Given-of_result M P r w h q }

  pub Gives-call :
      (c : Call) (answer : World → Result A)
      → ((w : World) → (a : A) × (answer w ≡ ok a) × P a)
      → Gives M P (call c answer)
  unfolding call
  Gives-call c answer h = record { at = λ w q. Given-of_result M P _ _ (h _) q }

  pub Gives-with_context : (c : Context) (m : Exec A) → Gives M P m → Gives M P (with_context c m)
  unfolding with_context
  Gives-with_context c m k = record { at = λ w q. Given-add_context M P c _ _ (k.at w q) }

  pub Gives-if :
      (b : Bool) (m n : Exec A)
      → (b ≡ true → Gives M P m)
      → (b ≡ false → Gives M P n)
      → Gives M P (if b then m else n)
  Gives-if true m n km kn = km refl
  Gives-if false m n km kn = kn refl

  pub Gives-await : (m : Exec A) → Gives M P m → Gives M P (await m)
  unfolding await
  Gives-await m k = record {
    at = λ w q. Given-at_await M P w.signal m w q.0 (k.at w q) λ n cut. k.at _ (inr cut, q.1);
  }

module _ (M : Mode) {A B : Type 0} (R : A → Type 0) (P : B → Type 0) where
  pub Given-continue :
      (r : Outcome A) (f : A → Exec B) (w : World)
      → Given M R r w
      → ((a : A) → R a → Gives M P (f a))
      → Given M P (continue r f w).0 (continue r f w).1
  Given-continue (returned a) f w (p, q) k = (k a p).at w q
  Given-continue (failed e) f w h k = absurd h
  Given-continue (panicked p) f w h k = absurd h
  Given-continue aborted f w h k = h

module _ {M : Mode} {A B : Type 0} {P : B → Type 0} where
  -- The rest may use what is known of the value.
  pub Gives-bind_of :
      (R : A → Type 0) (m : Exec A) (f : A → Exec B)
      → Gives M R m
      → ((a : A) → R a → Gives M P (f a))
      → Gives M P (m >>= f)
  unfolding ◌>>=◌
  Gives-bind_of R m f km kf = record {
    at = λ w q. Given-continue M R P (m w).0 f (m w).1 (km.at w q) kf;
  }

  pub Gives-bind :
      (m : Exec A) (f : A → Exec B)
      → Returns M m
      → ((a : A) → Gives M P (f a))
      → Gives M P (m >>= f)
  Gives-bind m f km kf = Gives-bind_of AnyValue m f km (λ a _. kf a)

pub IsClean-put_var :
    (env : Env) (key : String) (value : OsString)
    → IsClean env
    → is_settable key value ≡ true
    → IsClean (put_var env key value)
IsClean-put_var env key value clean settable name held e = elim (Bool-cases (key == name)) [
  | inl same ↦ settable_clean key value settable held (rw same at (rw var-put_var at e))
  | inr other ↦ clean name held (rw other at (rw var-put_var at e))
]

-- The mode of a whole run: the environment stays clean.
abbrev pub clean_mode : Type 0 → Mode
clean_mode cut = record { cut = cut; kept = IsClean; kept-put_var = IsClean-put_var }

pub Returns-set_var :
    {M : Mode} (key : String) (value : OsString)
    → is_settable key value ≡ true
    → Returns M (set_var key value)
unfolding set_var
Returns-set_var {M = M} key value settable = record {
  at = λ w q. rw settable (tt, (q.0, M.kept-put_var w.env key value q.1 settable));
}

-- `env::var(key).ok()` is clean.
pub Gives-get_var :
    {cut : Type 0} (key : String) → Gives (clean_mode cut) IsCleanValue (gets (λ w. var w.env key))
Gives-get_var key = Gives-gets _ (λ w q. q.1 key)

pub ruleset returns_rules =
    (Gives-pure, Gives-call, Gives-lift, Gives-with_context, Gives-await, Gives-bind, Gives-gets)
