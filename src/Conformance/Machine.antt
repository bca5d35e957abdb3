-- ===== src/Conformance/Machine.antt =====
-- What the conformance tests act on, of conformance-tests/src/main.rs: processes, ports and the
-- environment of a test. The answers are those of the machine, a parameter.
use containerd_shim_spin.Prelude.{ℕ, String, Bool, Option, List, [], ◌∷◌, ◌++◌}
use containerd_shim_spin.Conformance.{Probe, Status, Sent}

-- `std::process::Command`
pub record Command : Type 0 where
  pub program : String
  pub args : List String
  pub env : List (String × String)

-- The errors of the harness.
pub data HarnessError : Type 0 where
  io : String → HarnessError
  no_registry_port pull_failed no_available_port push_failed : HarnessError
  shim_exited : Option ℕ → HarnessError
  start_timeout : HarnessError
  request_failed check_failed : String → HarnessError

pub data Try (A : Type 0) : Type 0 where
  good : A → Try A
  bad : String → Try A

-- What the harness does, in order: a port that is bound, a request to a port while a process runs, and
-- the files of a test with what is written to them.
pub data Action : Type 0 where
  run_in output : Command → Action
  bind_port : ℕ → Action
  spawn : ℕ → Command → Action
  send : ℕ → ℕ → String → Action
  kill : ℕ → Action
  write_file copy_into : String → String → Action

abbrev pub Log : Type 0
Log = List Action

-- The answers of the machine and of `test_environment`, each by all that was done before.
pub record Machine : Type 0 where
  -- `env.get_port(5000)` and `env.env_vars()`
  pub registry_port : Log → Try (Option ℕ)
  pub env_vars : List (String × String)
  -- `env.run_in(&mut cmd)`
  pub run_in_env : Log → Command → Try Unit
  -- `cmd.output()`, as the test of its status
  pub succeeds : Log → Command → Try Bool
  -- the port of a listener on `localhost:0`
  pub free_port : Log → Try ℕ
  -- `cmd.spawn()`, as the id of the process
  pub spawned : Log → Command → Try ℕ
  -- what the harness sees of a process and its port from now on
  pub look : Log → ℕ → ℕ → Probe
  -- `try_wait` and the answer to a request, with its text
  pub waited : Log → ℕ → Status
  pub answer : Log → ℕ → String → Sent String
  -- the services of a test, which `TestEnvironment::up` boots first; `EnvTemplate::from_file` on a
  -- manifest, and its contents after `substitute` in the environment; `env.write_file`, `env.copy_into`
  -- and `Path::file_name`
  pub boot : Log → List String → Try Unit
  pub template : Log → String → Try String
  pub fill : Log → String → Try String
  pub writes : Log → String → String → Try Unit
  pub copies : Log → String → String → Try Unit
  pub file_name : String → Option String
  -- the request of an invocation in this environment, and the check of a response
  pub substitute : Log → String → Try String
  pub check : String → String → Try Unit
  -- `Display` of a number, and `hash` of a test's id
  pub display : ℕ → String
  pub hash : String → ℕ

-- How an action of the harness ends.
pub data Done (A : Type 0) : Type 0 where
  returned : A → Done A
  failed : HarnessError → Done A
  panicked : Done A

abbrev pub Harness : Type 0 → Type 0
Harness A = Log → Done A × Log

module _ {A : Type 0} where
  abbrev pub of_try : (String → HarnessError) → Try A → Done A
  of_try name (good a) = returned a
  of_try name (bad e) = failed (name e)

module _ {A : Type 0} where
  unfoldable pub pure : A → Harness A
  pure a log = (returned a, log)

  unfoldable pub fail : HarnessError → Harness A
  fail e log = (failed e, log)

  unfoldable pub panic : Harness A
  panic log = (panicked, log)

  -- A question that changes nothing.
  unfoldable pub ask : (String → HarnessError) → (Log → Try A) → Harness A
  ask name answer log = (of_try name (answer log), log)

  -- An action with its answer.
  unfoldable pub act : Action → (String → HarnessError) → (Log → Try A) → Harness A
  act action name answer log = (of_try name (answer log), log ++ action ∷ [])

module _ {A B : Type 0} where
  abbrev pub continue : Done A → (A → Harness B) → Harness B
  continue (returned a) f log = f a log
  continue (failed e) f log = (failed e, log)
  continue panicked f log = (panicked, log)

  infixl 10 ◌>>=◌ ◌>>◌
  unfoldable pub ◌>>=◌ : Harness A → (A → Harness B) → Harness B
  ◌>>=◌ m f log = let (r, log') = m log in continue r f log'

  abbrev pub ◌>>◌ : Harness A → Harness B → Harness B
  m >> n = m >>= λ _. n

-- An action that is done whatever the action before it has come to, as a destructor is.
unfoldable pub finally : {A : Type 0} → Harness A → Action → Harness A
finally m action log = let (r, log') = m log in (r, log' ++ action ∷ [])

abbrev pub log_spawn : Command → Try ℕ → Log → Log
log_spawn cmd (good process) log = log ++ spawn process cmd ∷ []
log_spawn cmd (bad _) log = log

abbrev pub log_bound : Try ℕ → Log → Log
log_bound (good port) log = log ++ bind_port port ∷ []
log_bound (bad _) log = log

-- A listener on `localhost:0`: a port, or no port and an error.
unfoldable pub bind_listener : Machine → (String → HarnessError) → Harness ℕ
bind_listener M name log =
    let answer = M.free_port log in (of_try name answer, log_bound answer log)

-- `cmd.spawn()`: a process, or no process and an error.
unfoldable pub start_process : Machine → Command → Harness ℕ
start_process M cmd log =
    let answer = M.spawned log cmd in (of_try io answer, log_spawn cmd answer log)
