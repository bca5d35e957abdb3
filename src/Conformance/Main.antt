-- ===== src/Conformance/Main.antt =====
-- `main` of conformance-tests/src/main.rs: the two arguments and the run of the suite.
use containerd_shim_spin.Prelude.{String, Option, none, some, List, get_elem?}
use containerd_shim_spin.Conformance.Machine.{Try, good, bad, Machine, Harness, pure, panic, ◌>>=◌}
use containerd_shim_spin.Conformance.Shim.{Test, run_test}
use containerd_shim_spin.Conformance.Cleanup.{Neutral}

-- `Option::expect`
abbrev pub expect : Option String → Harness String
expect (some argument) = pure argument
expect none = panic

abbrev pub unwrap_run : Try Unit → Harness Unit
unwrap_run (good _) = pure tt
unwrap_run (bad e) = panic

-- `conformance_tests::run_tests`, by the version of the suite and the function that runs a test.
abbrev pub RunTests : Type 0
RunTests = String → (Test → Harness Unit) → Harness (Try Unit)

-- `args` is what `env::args()` gives, with the name of the program first.
unfoldable pub main : Machine → RunTests → List String → Harness Unit
main M run_tests args = do
  spin_binary ← expect (get_elem? args 1)
  ctr_binary ← expect (get_elem? args 2)
  ended ← run_tests "canary" (λ test. run_test M test spin_binary ctr_binary)
  unwrap_run ended

-- A run of the suite starts and kills no processes but those of its tests.
abbrev pub OnlyRuns : RunTests → Type 0
OnlyRuns run_tests =
    (version : String) (run : Test → Harness Unit)
    → ((test : Test) → Neutral (run test))
    → Neutral (run_tests version run)
