-- ===== src/Exec/Within.antt =====
-- What an action adds to the calls, in the order of the stages: one rule for each way to build it.
use containerd_shim_spin.Prelude.{
  ℕ, zero, suc, ◌≤◌, ◌<◌, ◌≡◌, refl, sym, ap, ◌∙◌, true, Option, none, some, List, [], ◌∷◌, ◌++◌,
  append-nil, append_assoc, arith, All,
}
use mathlib.Core.Path.{subst}
use containerd_shim_spin.Exec.{
  Call, Context, Result, Outcome, returned, failed, panicked, aborted, World, Exec, call, at_await,
  await, with_context, continue, ◌>>=◌,
}
use containerd_shim_spin.Exec.Makes.{Makes}
use containerd_shim_spin.Exec.Stages.{stage, repeats, Ordered, Ordered-append, Ordered-All}

-- The calls that `m` adds are ordered, from stage `lo` to stage `hi`.
pub record Follows (lo hi : ℕ) (w w' : World) : Type 0 where
  pub new : List Call
  pub appended : w'.calls ≡ w.calls ++ new
  pub ordered : Ordered lo hi new

pub record Within (lo hi : ℕ) {A : Type 0} (m : Exec A) : Type 0 where
  pub at : (w : World) → Follows lo hi w (m w).1

-- An action that makes no call.
abbrev pub IsSilent : {A : Type 0} → Exec A → Type 0
IsSilent m = Makes (λ _. ⊥) m

Follows-none : (lo hi : ℕ) (w w' : World) → w'.calls ≡ w.calls → Follows lo hi w w'
Follows-none lo hi w w' same = record { new = []; appended = rw append-nil same; ordered = tt }

Follows-trans :
    (a b c d : ℕ) {w w' w'' : World}
    → a ≤ c
    → b < c
    → b ≤ d
    → Follows a b w w'
    → Follows c d w' w''
    → Follows a d w w''
Follows-trans a b c d {w = w} ac bc bd first second = record {
  new = first.new ++ second.new;
  appended = rw (second.appended, first.appended) (append_assoc w.calls first.new second.new);
  ordered = Ordered-append a b c d first.new second.new ac bc bd first.ordered second.ordered;
}

Follows-after :
    (lo hi : ℕ) {w w' w'' : World} → w'.calls ≡ w.calls → Follows lo hi w' w'' → Follows lo hi w w''
Follows-after lo hi same later = record {
  new = later.new;
  appended = rw (← same) later.appended;
  ordered = later.ordered;
}

Follows-before :
    (lo hi : ℕ) {w w' w'' : World} → w''.calls ≡ w'.calls → Follows lo hi w w' → Follows lo hi w w''
Follows-before lo hi same sooner = record {
  new = sooner.new;
  appended = same ∙ sooner.appended;
  ordered = sooner.ordered;
}

no_calls : (calls : List Call) → All (λ _. ⊥) calls → calls ≡ []
no_calls [] h = refl
no_calls (c ∷ calls) h = absurd h.0

IsSilent-calls : {A : Type 0} {m : Exec A} (w : World) → IsSilent m → (m w).1.calls ≡ w.calls
IsSilent-calls {m = m} w k =
    let made = k.at w in
    let nothing = no_calls made.new made.allowed in
    made.appended ∙ ap (λ calls. w.calls ++ calls) nothing ∙ append-nil w.calls

module _ {A : Type 0} where
  pub Within-Makes :
      (n : ℕ) (m : Exec A) → repeats n ≡ true → Makes (λ c. stage c ≡ n) m → Within n n m
  Within-Makes n m r k = record {
    at = λ w.
        let made = k.at w in
        record {
          new = made.new;
          appended = made.appended;
          ordered = Ordered-All n made.new r made.allowed;
        };
  }

  pub Within-silent : (lo hi : ℕ) (m : Exec A) → IsSilent m → Within lo hi m
  Within-silent lo hi m k = record { at = λ w. Follows-none lo hi w _ (IsSilent-calls w k) }

  pub Within-call :
      (c : Call) (answer : World → Result A) → Within (stage c) (stage c) (call c answer)
  unfolding call
  Within-call c answer = record {
    at = λ w. record { new = c ∷ []; appended = refl; ordered = (omega arith, omega arith, tt) };
  }

  Within-at_await :
      (lo hi : ℕ) (signal : Option ℕ) (m : Exec A)
      → Within lo hi m
      → Within lo hi (at_await signal m)
  Within-at_await lo hi none m k = record { at = λ w. k.at w }
  Within-at_await lo hi (some zero) m k = record { at = λ w. Follows-none lo hi w w refl }
  Within-at_await lo hi (some (suc n)) m k = record {
    at = λ w.
        let made = k.at (record w { signal = some n }) in
        record { new = made.new; appended = made.appended; ordered = made.ordered };
  }

  pub Within-await : (lo hi : ℕ) (m : Exec A) → Within lo hi m → Within lo hi (await m)
  unfolding await
  Within-await lo hi m k = record { at = λ w. (Within-at_await lo hi w.signal m k).at w }

  pub Within-with_context :
      (lo hi : ℕ) (c : Context) (m : Exec A) → Within lo hi m → Within lo hi (with_context c m)
  unfolding with_context
  Within-with_context lo hi c m k = record { at = λ w. k.at w }

  pub Within-calls :
      (lo hi : ℕ) (m : Exec A) (w : World)
      → Within lo hi m
      → w.calls ≡ []
      → Ordered lo hi (m w).1.calls
  Within-calls lo hi m w k start =
      let made = k.at w in
      subst (Ordered lo hi) (sym (made.appended ∙ ap (λ calls. calls ++ made.new) start))
        made.ordered

module _ {A B : Type 0} where
  Within-continue :
      (lo hi : ℕ) (r : Outcome A) (f : A → Exec B)
      → ((a : A) → Within lo hi (f a))
      → Within lo hi (continue r f)
  Within-continue lo hi (returned a) f k = record { at = λ w. (k a).at w }
  Within-continue lo hi (failed e) f k = record { at = λ w. Follows-none lo hi w w refl }
  Within-continue lo hi (panicked p) f k = record { at = λ w. Follows-none lo hi w w refl }
  Within-continue lo hi aborted f k = record { at = λ w. Follows-none lo hi w w refl }

  -- A step of earlier stages, and then the rest.
  pub Within-bind :
      (a b c d : ℕ) (m : Exec A) (f : A → Exec B)
      → a ≤ c
      → b < c
      → b ≤ d
      → Within a b m
      → ((x : A) → Within c d (f x))
      → Within a d (m >>= f)
  unfolding ◌>>=◌
  Within-bind a b c d m f ac bc bd km kf = record {
    at = λ w.
        let (r, w') = m w in
        Follows-trans a b c d ac bc bd (km.at w) ((Within-continue c d r f kf).at w');
  }

  pub Within-after_silent :
      (lo hi : ℕ) (m : Exec A) (f : A → Exec B)
      → IsSilent m
      → ((x : A) → Within lo hi (f x))
      → Within lo hi (m >>= f)
  unfolding ◌>>=◌
  Within-after_silent lo hi m f km kf = record {
    at = λ w.
        let (r, w') = m w in
        Follows-after lo hi (IsSilent-calls w km) ((Within-continue lo hi r f kf).at w');
  }

  IsSilent-continue :
      (r : Outcome A) (f : A → Exec B) (w : World)
      → ((x : A) → IsSilent (f x))
      → (continue r f w).1.calls ≡ w.calls
  IsSilent-continue (returned a) f w k = IsSilent-calls w (k a)
  IsSilent-continue (failed e) f w k = refl
  IsSilent-continue (panicked p) f w k = refl
  IsSilent-continue aborted f w k = refl

  pub Within-before_silent :
      (lo hi : ℕ) (m : Exec A) (f : A → Exec B)
      → Within lo hi m
      → ((x : A) → IsSilent (f x))
      → Within lo hi (m >>= f)
  unfolding ◌>>=◌
  Within-before_silent lo hi m f km kf = record {
    at = λ w. let (r, w') = m w in Follows-before lo hi (IsSilent-continue r f w' kf) (km.at w);
  }
