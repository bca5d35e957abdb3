-- ===== src/Engine/Starts/Rules.antt =====
-- Rules for the triggers that an action starts when it returns: containerd-shim-spin/src/engine.rs.
use containerd_shim_spin.Prelude.{
  ℕ, zero, suc, ◌≡◌, refl, sym, ap, ◌∙◌, Option, none, some, List, [], ◌∷◌, ◌++◌, arith, All,
  append-nil,
}
use containerd_shim_spin.App.{Launch}
use containerd_shim_spin.Exec.{
  Call, start_trigger, World, returned, Exec, at_await, await, gets, ◌>>=◌, >>=-returned,
}
use containerd_shim_spin.Exec.Makes.{Makes}
use containerd_shim_spin.Engine.Launches.{launches, launches-append}

abbrev pub IsOther : Call → Type 0
IsOther (start_trigger _) = ⊥
IsOther _ = Unit

launches_none : (calls : List Call) → All IsOther calls → launches calls ≡ []
launches_none [] h = refl
launches_none (c ∷ calls) (other, rest) = grind (arith, launches_none calls rest)

launches-Makes :
    {A : Type 0} (m : Exec A) (w : World)
    → Makes IsOther m
    → launches (m w).1.calls ≡ launches w.calls
launches-Makes m w k =
    let made = k.at w in
    rw (made.appended, launches-append, launches_none made.new made.allowed, append-nil) refl

-- When the action returns, the triggers that it has started satisfy `X`.
pub record Starts (X : List Launch → Type 0) {A : Type 0} (m : Exec A) : Type 0 where
  pub at :
      (w : World) (a : A)
      → (m w).0 ≡ returned a
      → (ls : List Launch) × (launches (m w).1.calls ≡ launches w.calls ++ ls) × X ls

module _ {X : List Launch → Type 0} {A : Type 0} where
  Starts-at_await : (signal : Option ℕ) (m : Exec A) → Starts X m → Starts X (at_await signal m)
  Starts-at_await none m k = record { at = λ w a h. k.at w a h }
  Starts-at_await (some zero) m k = record { at = λ w a h. cc }
  Starts-at_await (some (suc n)) m k = record {
    at = λ w a h. k.at (record w { signal = some n }) a h;
  }

  pub Starts-await : (m : Exec A) → Starts X m → Starts X (await m)
  unfolding await
  Starts-await m k = record { at = λ w a h. (Starts-at_await w.signal m k).at w a h }

module _ {X : List Launch → Type 0} {A B : Type 0} where
  -- Before the action, nothing was started; what is known of the value may be used.
  pub Starts-after_of :
      (R : A → Type 0) (m : Exec A) (f : A → Exec B)
      → Makes IsOther m
      → ((w : World) (a : A) → (m w).0 ≡ returned a → R a)
      → ((a : A) → R a → Starts X (f a))
      → Starts X (m >>= f)
  Starts-after_of R m f km known kf = record {
    at = λ w b h.
        let (a, head, whole) = >>=-returned m f w h in
        let (ls, started, x) =
          (kf a (known w a head)).at (m w).1 b (sym (ap (λ r. r.0) whole) ∙ h) in
        (ls, rw (whole, started, launches-Makes m w km) refl, x);
  }

  pub Starts-after :
      (m : Exec A) (f : A → Exec B)
      → Makes IsOther m
      → ((a : A) → Starts X (f a))
      → Starts X (m >>= f)
  Starts-after m f km kf = Starts-after_of (λ _. Unit) m f km (λ _ _ _. tt) (λ a _. kf a)

  -- After the action, nothing more is started.
  pub Starts-before :
      (m : Exec A) (f : A → Exec B)
      → Starts X m
      → ((a : A) → Makes IsOther (f a))
      → Starts X (m >>= f)
  Starts-before m f km kf = record {
    at = λ w b h.
        let (a, head, whole) = >>=-returned m f w h in
        let (ls, started, x) = km.at w a head in
        (ls, rw (whole, launches-Makes (f a) (m w).1 (kf a), started) refl, x);
  }

-- The same from one state.
pub record StartsAt (X : List Launch → Type 0) {A : Type 0} (m : Exec A) (w : World) : Type 0 where
  pub at :
      (a : A)
      → (m w).0 ≡ returned a
      → (ls : List Launch) × (launches (m w).1.calls ≡ launches w.calls ++ ls) × X ls

module _ {X : List Launch → Type 0} {A B : Type 0} where
  -- After an action that has started nothing, from the state that it has left.
  pub StartsAt-after :
      (m : Exec A) (f : A → Exec B) (w : World)
      → Makes IsOther m
      → ((a : A) (w' : World) → m w ≡ (returned a, w') → StartsAt X (f a) w')
      → StartsAt X (m >>= f) w
  StartsAt-after m f w km kf = record {
    at = λ b h.
        let (a, head, whole) = >>=-returned m f w h in
        let (ls, started, x) =
          (kf a (m w).1 (ap (λ r. (r, (m w).1)) head)).at b (sym (ap (λ r. r.0) whole) ∙ h) in
        (ls, rw (whole, started, launches-Makes m w km) refl, x);
  }

  pub StartsAt-gets :
      (value : World → A) (f : A → Exec B) (w : World)
      → StartsAt X (f (value w)) w
      → StartsAt X (gets value >>= f) w
  unfolding ◌>>=◌ gets
  StartsAt-gets value f w k = record { at = λ b h. k.at b h }

pub Starts-StartsAt :
    {X : List Launch → Type 0} {A : Type 0} {m : Exec A} (w : World) → Starts X m → StartsAt X m w
Starts-StartsAt w k = record { at = λ a h. k.at w a h }
