-- ===== src/Exec/Makes.antt =====
-- What an action adds to the calls: one rule for each way to build an action.
use containerd_shim_spin.Prelude.{
  ℕ, zero, suc, String, Bool, true, false, Option, none, some, List, [], ◌∷◌, ◌++◌, ◌≡◌, refl, sym,
  ap, ◌∙◌, append-nil, append_assoc, arith, if◌then◌else◌, All, All-append,
}
use mathlib.Core.Path.{subst}
use containerd_shim_spin.Env.{OsString}
use containerd_shim_spin.Oci.{Bytes}
use containerd_shim_spin.Exec.{
  Context, Error, Result, Panic, Outcome, returned, failed, panicked, aborted, Call, World, Exec,
  pure, fail, panic, lift, gets, at_await, await, call, with_context, continue, ◌>>=◌, set_var,
  put_file,
}

-- What `m` adds to the calls: they come behind those that were there, and each satisfies `Q`.
pub record Adds (Q : Call → Type 0) (w w' : World) : Type 0 where
  pub new : List Call
  pub appended : w'.calls ≡ w.calls ++ new
  pub allowed : All Q new

pub record Makes (Q : Call → Type 0) {A : Type 0} (m : Exec A) : Type 0 where
  pub at : (w : World) → Adds Q w (m w).1

-- Nothing is added to the same calls.
pub Adds-none : {Q : Call → Type 0} (w w' : World) → w'.calls ≡ w.calls → Adds Q w w'
Adds-none w w' same = record { new = []; appended = rw append-nil same; allowed = tt }

pub Adds-trans : {Q : Call → Type 0} {w w' w'' : World} → Adds Q w w' → Adds Q w' w'' → Adds Q w w''
Adds-trans {Q = Q} {w = w} first second = record {
  new = first.new ++ second.new;
  appended = rw (second.appended, first.appended) (append_assoc w.calls first.new second.new);
  allowed = All-append Q first.new second.new first.allowed second.allowed;
}

module _ {Q : Call → Type 0} {A : Type 0} where
  pub Makes-pure : (a : A) → Makes Q (pure a)
  unfolding pure
  Makes-pure a = record { at = λ w. Adds-none w w refl }

  pub Makes-fail : (e : Error) → Makes Q (fail {A = A} e)
  unfolding fail
  Makes-fail e = record { at = λ w. Adds-none w w refl }

  pub Makes-panic : (p : Panic) → Makes Q (panic {A = A} p)
  unfolding panic
  Makes-panic p = record { at = λ w. Adds-none w w refl }

  pub Makes-lift : (r : Result A) → Makes Q (lift r)
  unfolding lift
  Makes-lift r = record { at = λ w. Adds-none w w refl }

  pub Makes-gets : (f : World → A) → Makes Q (gets f)
  unfolding gets
  Makes-gets f = record { at = λ w. Adds-none w w refl }

  pub Makes-call : (c : Call) (answer : World → Result A) → Q c → Makes Q (call c answer)
  unfolding call
  Makes-call c answer q = record {
    at = λ w. record { new = c ∷ []; appended = refl; allowed = (q, tt) };
  }

  pub Makes-if : (b : Bool) (m n : Exec A) → Makes Q m → Makes Q n → Makes Q (if b then m else n)
  Makes-if true m n km kn = km
  Makes-if false m n km kn = kn

  Makes-at_await : (signal : Option ℕ) (m : Exec A) → Makes Q m → Makes Q (at_await signal m)
  Makes-at_await none m k = record { at = λ w. k.at w }
  Makes-at_await (some zero) m k = record { at = λ w. Adds-none w w refl }
  Makes-at_await (some (suc n)) m k = record {
    at = λ w.
        let made = k.at (record w { signal = some n }) in
        record { new = made.new; appended = made.appended; allowed = made.allowed };
  }

  pub Makes-await : (m : Exec A) → Makes Q m → Makes Q (await m)
  unfolding await
  Makes-await m k = record { at = λ w. (Makes-at_await w.signal m k).at w }

  pub Makes-with_context : (c : Context) (m : Exec A) → Makes Q m → Makes Q (with_context c m)
  unfolding with_context
  Makes-with_context c m k = record { at = λ w. k.at w }

module _ {Q : Call → Type 0} {A B : Type 0} where
  Makes-continue :
      (r : Outcome A) (f : A → Exec B) → ((a : A) → Makes Q (f a)) → Makes Q (continue r f)
  Makes-continue (returned a) f k = record { at = λ w. (k a).at w }
  Makes-continue (failed e) f k = record { at = λ w. Adds-none w w refl }
  Makes-continue (panicked p) f k = record { at = λ w. Adds-none w w refl }
  Makes-continue aborted f k = record { at = λ w. Adds-none w w refl }

  pub Makes-bind :
      (m : Exec A) (f : A → Exec B) → Makes Q m → ((a : A) → Makes Q (f a)) → Makes Q (m >>= f)
  unfolding ◌>>=◌
  Makes-bind m f km kf = record {
    at = λ w. let (r, w') = m w in Adds-trans (km.at w) ((Makes-continue r f kf).at w');
  }

module _ {Q : Call → Type 0} where
  pub Makes-set_var : (key : String) (value : OsString) → Makes Q (set_var key value)
  unfolding set_var
  Makes-set_var key value = record { at = λ w. Adds-none w _ (ground arith) }

  pub Makes-put_file : (path : String) (bytes : Bytes) → Makes Q (put_file path bytes)
  unfolding put_file
  Makes-put_file path bytes = record { at = λ w. Adds-none w _ refl }

-- From a state with no calls, all calls are those that were made.
pub Makes-calls :
    {Q : Call → Type 0} {A : Type 0} {m : Exec A} (w : World)
    → Makes Q m
    → w.calls ≡ []
    → All Q (m w).1.calls
Makes-calls {Q = Q} w k start =
    let made = k.at w in
    subst (All Q) (sym (made.appended ∙ ap (λ calls. calls ++ made.new) start)) made.allowed

pub ruleset makes_rules = (
  Makes-pure, Makes-fail, Makes-panic, Makes-lift, Makes-gets, Makes-call, Makes-if, Makes-await,
  Makes-with_context, Makes-bind, Makes-set_var, Makes-put_file,
)
