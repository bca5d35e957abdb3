-- ===== src/Conformance/Cleanup.antt =====
-- The processes of a conformance test: `SpinShim` of conformance-tests/src/main.rs and its `Drop`.
use containerd_shim_spin.Prelude.{
  ℕ, String, ◌≡◌, refl, ap, ◌∙◌, List, [], ◌∷◌, ◌++◌, arith, eqb, if◌then◌else◌,
}
use containerd_shim_spin.Conformance.Machine.{
  HarnessError, Try, Action, run_in, output, spawn, bind_port, send, kill, write_file, copy_into,
  Log, Done, returned, failed, panicked, Harness, pure, panic, fail, ask, act, continue, ◌>>=◌,
  finally,
}
use containerd_shim_spin.Conformance.Shim.{SpinShim}

abbrev pub remove : ℕ → List ℕ → List ℕ
remove process [] = []
remove process (p ∷ ps) = let rest = remove process ps in if eqb p process then ps else p ∷ rest

-- The processes that have been started and not killed, from those before; the youngest comes first.
abbrev pub alive_from : List ℕ → Log → List ℕ
alive_from ps [] = ps
alive_from ps (spawn process _ ∷ log) = alive_from (process ∷ ps) log
alive_from ps (kill process ∷ log) = alive_from (remove process ps) log
alive_from ps (_ ∷ log) = alive_from ps log

abbrev pub alive : Log → List ℕ
alive log = alive_from [] log

pub alive_from-append :
    (ps : List ℕ) (a b : Log) → alive_from ps (a ++ b) ≡ alive_from (alive_from ps a) b
alive_from-append ps [] b = refl
alive_from-append ps (spawn process _ ∷ a) b = alive_from-append (process ∷ ps) a b
alive_from-append ps (kill process ∷ a) b = alive_from-append (remove process ps) a b
alive_from-append ps (run_in _ ∷ a) b = alive_from-append ps a b
alive_from-append ps (output _ ∷ a) b = alive_from-append ps a b
alive_from-append ps (bind_port _ ∷ a) b = alive_from-append ps a b
alive_from-append ps (send _ _ _ ∷ a) b = alive_from-append ps a b
alive_from-append ps (write_file _ _ ∷ a) b = alive_from-append ps a b
alive_from-append ps (copy_into _ _ ∷ a) b = alive_from-append ps a b

pub remove_top : (process : ℕ) (ps : List ℕ) → remove process (process ∷ ps) ≡ ps
remove_top process ps = ground arith

-- An action that leaves the processes as they were.
pub record Neutral {A : Type 0} (m : Harness A) : Type 0 where
  pub at : (log : Log) → alive (m log).1 ≡ alive log

-- What a start leaves: the process of the shim that it returns, and no other.
abbrev pub opened : Done SpinShim → List ℕ → List ℕ
opened (returned shim) ps = shim.process ∷ ps
opened (failed _) ps = ps
opened panicked ps = ps

pub record Opens (m : Harness SpinShim) : Type 0 where
  pub at : (log : Log) → alive (m log).1 ≡ opened (m log).0 (alive log)

module _ {A : Type 0} where
  pub Neutral-pure : (a : A) → Neutral (pure a)
  unfolding pure
  Neutral-pure a = record { at = λ log. refl }

  pub Neutral-fail : (e : HarnessError) → Neutral (fail {A = A} e)
  unfolding fail
  Neutral-fail e = record { at = λ log. refl }

  pub Neutral-panic : Neutral (panic {A = A})
  unfolding panic
  Neutral-panic = record { at = λ log. refl }

  pub Neutral-ask :
      (name : String → HarnessError) (answer : Log → Try A) → Neutral (ask name answer)
  unfolding ask
  Neutral-ask name answer = record { at = λ log. refl }

  pub Neutral-act :
      (action : Action) (name : String → HarnessError) (answer : Log → Try A)
      → ((ps : List ℕ) → alive_from ps (action ∷ []) ≡ ps)
      → Neutral (act action name answer)
  unfolding act
  Neutral-act action name answer same = record {
    at = λ log. alive_from-append [] log (action ∷ []) ∙ same (alive log);
  }

  -- A destructor that kills the youngest process.
  pub Neutral-kill :
      (m : Harness A) (process : ℕ) (log : Log) (ps : List ℕ)
      → Neutral m
      → alive log ≡ process ∷ ps
      → alive (finally m (kill process) log).1 ≡ ps
  unfolding finally
  Neutral-kill m process log ps k top =
      alive_from-append [] (m log).1 (kill process ∷ [])
      ∙ ap (remove process) (k.at log ∙ top)
      ∙ remove_top process ps

module _ {A B : Type 0} where
  Neutral-continue :
      (r : Done A) (f : A → Harness B) (log : Log)
      → ((a : A) → Neutral (f a))
      → alive (continue r f log).1 ≡ alive log
  Neutral-continue (returned a) f log k = (k a).at log
  Neutral-continue (failed e) f log k = refl
  Neutral-continue panicked f log k = refl

  pub Neutral-bind :
      (m : Harness A) (f : A → Harness B)
      → Neutral m
      → ((a : A) → Neutral (f a))
      → Neutral (m >>= f)
  unfolding ◌>>=◌
  Neutral-bind m f km kf = record {
    at = λ log. let (r, log') = m log in Neutral-continue r f log' kf ∙ km.at log;
  }

module _ {A : Type 0} where
  Opens-continue :
      (r : Done A) (f : A → Harness SpinShim) (log : Log)
      → ((a : A) → Opens (f a))
      → alive (continue r f log).1 ≡ opened (continue r f log).0 (alive log)
  Opens-continue (returned a) f log k = (k a).at log
  Opens-continue (failed e) f log k = refl
  Opens-continue panicked f log k = refl

  pub Opens-bind :
      (m : Harness A) (f : A → Harness SpinShim)
      → Neutral m
      → ((a : A) → Opens (f a))
      → Opens (m >>= f)
  unfolding ◌>>=◌
  Opens-bind m f km kf = record {
    at = λ log.
        let (r, log') = m log in
        Opens-continue r f log' kf ∙ ap (opened (continue r f log').0) (km.at log);
  }

pub ruleset neutral_rules =
    (Neutral-pure, Neutral-fail, Neutral-panic, Neutral-ask, Neutral-act, Neutral-bind)
