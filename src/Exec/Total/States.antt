-- ===== src/Exec/Total/States.antt =====
-- Actions that return from one state, of which more is known.
use containerd_shim_spin.Prelude.{ℕ, zero, suc, ◌≡◌, ◌⊎◌, Option, none, some, inl, inr}
use containerd_shim_spin.Exec.{
  Context, returned, aborted, World, Exec, at_await, await, with_context, continue, ◌>>=◌,
}
use containerd_shim_spin.Exec.Total.{
  Mode, MayWait, IsReady, Given, Gives, Given-add_context, Given-at_await, Given-continue,
}

-- The same for one state, of which more is known: it is kept while the action waits.
module _ (M : Mode) {A : Type 0} (P : A → Type 0) where
  pub Given-await :
      (m : Exec A) (w : World)
      → IsReady M w
      → ((signal : Option ℕ)
          → MayWait M signal
          → let w' = record w { signal = signal } in Given M P (m w').0 (m w').1)
      → Given M P (await m w).0 (await m w).1
  unfolding await
  Given-await m w q k =
      Given-at_await M P w.signal m w q.0 (k w.signal q.0) λ n cut. k (some n) (inr cut)

  pub Given-with_context :
      (c : Context) (m : Exec A) (w : World)
      → Given M P (m w).0 (m w).1
      → Given M P (with_context c m w).0 (with_context c m w).1
  unfolding with_context
  Given-with_context c m w h = Given-add_context M P c _ _ h

module _ (M : Mode) {A B : Type 0} (R : A → Type 0) (P : B → Type 0) where
  pub Given-bind :
      (m : Exec A) (f : A → Exec B) (w : World)
      → Given M R (m w).0 (m w).1
      → ((a : A) → R a → Gives M P (f a))
      → Given M P ((m >>= f) w).0 ((m >>= f) w).1
  unfolding ◌>>=◌
  Given-bind m f w h k = Given-continue M R P _ f _ h k

module _ (M : Mode) {A B : Type 0} (P : B → Type 0) where
  -- After a value, and after a dropped future.
  pub Given-bind_at :
      (m : Exec A) (f : A → Exec B) (w : World)
      → ((a : A) × ((m w).0 ≡ returned a) × Given M P (f a (m w).1).0 (f a (m w).1).1)
        ⊎ (((m w).0 ≡ aborted) × M.cut)
      → Given M P ((m >>= f) w).0 ((m >>= f) w).1
  unfolding ◌>>=◌
  Given-bind_at m f w (inl (a, done, h)) = rw done h
  Given-bind_at m f w (inr (dropped, cut)) = rw dropped cut

  Given-continue_await :
      (signal : Option ℕ) (m : Exec A) (f : A → Exec B) (w : World)
      → MayWait M signal
      → Given M P ((m >>= f) w).0 ((m >>= f) w).1
      → ((n : ℕ)
          → M.cut
          → let w' = record w { signal = some n } in Given M P ((m >>= f) w').0 ((m >>= f) w').1)
      → let (r, w') = at_await signal m w in Given M P (continue r f w').0 (continue r f w').1
  unfolding ◌>>=◌
  Given-continue_await none m f w may now later = now
  Given-continue_await (some n) m f w (inl never) now later = cc
  Given-continue_await (some zero) m f w (inr cut) now later = cut
  Given-continue_await (some (suc n)) m f w (inr cut) now later = later n cut

  -- A wait in front of the rest.
  pub Given-bind_await :
      (m : Exec A) (f : A → Exec B) (w : World)
      → IsReady M w
      → ((signal : Option ℕ)
          → MayWait M signal
          → let w' = record w { signal = signal } in Given M P ((m >>= f) w').0 ((m >>= f) w').1)
      → Given M P ((await m >>= f) w).0 ((await m >>= f) w).1
  unfolding ◌>>=◌ await
  Given-bind_await m f w q k =
      Given-continue_await w.signal m f w q.0 (k w.signal q.0) λ n cut. k (some n) (inr cut)
