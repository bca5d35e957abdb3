-- ===== src/Conformance/Processes.antt =====
-- The processes that a conformance test starts and kills: `SpinShim::start`, its `Drop` and `run_test`
-- of conformance-tests/src/main.rs.
use containerd_shim_spin.Prelude.{
  ℕ, String, ◌≡◌, refl, ◌∙◌, Bool, true, false, Option, none, some, List, [], ◌∷◌,
}
use containerd_shim_spin.Conformance.{
  Selected, selected, unsupported_label, Status, wait_error, exited, running, Start, started,
  wait_failed, exited_early, timed_out, out_of_fuel,
}
use containerd_shim_spin.Conformance.Machine.{
  Command, io, start_timeout, shim_exited, Try, good, bad, send, Log, Machine, Done, returned,
  failed, panicked, pure, panic, fail, start_process, log_spawn, of_try, continue, ◌>>=◌, finally,
  spawn, bind_port, log_bound, bind_listener,
}
use containerd_shim_spin.Conformance.Shim.{
  SpinShim, Test, existing, ensure_pulled, registry_push, image_pull, keep_started, await_shim,
  start, create_runtime, send_request, request_of, unwrap_text, run_invocations, unwrap_shim,
  booted, up, with_shim, init_env, unwrap_name, unwrap_services, run_test,
}
use containerd_shim_spin.Conformance.Cleanup.{
  alive_from-append, alive, Neutral, opened, Opens, Neutral-fail, Neutral-ask, Neutral-kill,
  Neutral-bind, Opens-bind, neutral_rules,
}

module _ (M : Machine) where
  keep_started-opened :
      (shim : SpinShim) (how : Start) (log : Log) (ps : List ℕ)
      → alive log ≡ shim.process ∷ ps
      → alive (keep_started M shim how log).1 ≡ opened (keep_started M shim how log).0 ps
  unfolding keep_started pure fail finally
  keep_started-opened shim started log ps top = top
  keep_started-opened shim (wait_failed e) log ps top =
      Neutral-kill {A = SpinShim} (fail (io e)) shim.process log ps (Neutral-fail (io e)) top
  keep_started-opened shim (exited_early code) log ps top =
      Neutral-kill {A = SpinShim} (fail (shim_exited code)) shim.process log ps (Neutral-fail _) top
  keep_started-opened shim timed_out log ps top =
      Neutral-kill {A = SpinShim} (fail start_timeout) shim.process log ps (Neutral-fail _) top
  keep_started-opened shim out_of_fuel log ps top =
      Neutral-kill {A = SpinShim} (fail start_timeout) shim.process log ps (Neutral-fail _) top

  -- The process of `start`, from its spawn to the end of the loop.
  spawn-opened :
      (answer : Try ℕ) (port : ℕ) (cmd : Command) (log : Log)
      → let r =
          continue
            (of_try io answer)
            (λ process. await_shim M (record { process = process; port = port }))
            (log_spawn cmd answer log) in
        alive r.1 ≡ opened r.0 (alive log)
  unfolding await_shim
  spawn-opened (bad e) port cmd log = refl
  spawn-opened (good process) port cmd log =
      keep_started-opened (record { process = process; port = port }) _ _ (alive log)
        (alive_from-append [] log (spawn process cmd ∷ []))

  start_process-Opens :
      (port : ℕ) (cmd : Command)
      → Opens (
          start_process M cmd >>= λ process.
          await_shim M (record { process = process; port = port }))
  unfolding start_process ◌>>=◌
  start_process-Opens port cmd = record {
    at = λ log. spawn-opened (M.spawned log cmd) port cmd log;
  }

  bound-same : (answer : Try ℕ) (log : Log) → alive (log_bound answer log) ≡ alive log
  bound-same (good port) log = alive_from-append [] log (bind_port port ∷ [])
  bound-same (bad e) log = refl

  start-Opens : (ctr_binary image ctr_run_id : String) → Opens (start M ctr_binary image ctr_run_id)
  unfolding start bind_listener
  start-Opens ctr_binary image ctr_run_id =
      Opens-bind _ _ (record { at = λ log. bound-same (M.free_port log) log })
        λ port. start_process-Opens port _

  existing-Neutral : (found : Option ℕ) → Neutral (existing found)
  existing-Neutral none = search neutral_rules
  existing-Neutral (some port) = search neutral_rules

  ensure_pulled-Neutral : (success : Bool) → Neutral (ensure_pulled success)
  ensure_pulled-Neutral true = search neutral_rules
  ensure_pulled-Neutral false = search neutral_rules

  create_runtime-Opens :
      (ctr_binary spin_binary name ctr_run_id : String)
      → Opens (create_runtime M ctr_binary spin_binary name ctr_run_id)
  unfolding create_runtime registry_push image_pull
  create_runtime-Opens ctr_binary spin_binary name ctr_run_id =
      Opens-bind _ _ (search neutral_rules) λ found. Opens-bind _ _ (existing-Neutral found) λ port.
        Opens-bind _ _ (search neutral_rules) λ pushed.
          Opens-bind _ _ (search (neutral_rules, ensure_pulled-Neutral)) λ pulled. start-Opens _ _ _

  send_request-same :
      (shim : SpinShim) (request : String) (status : Status) (log : Log)
      → alive (send_request M shim request status log).1 ≡ alive log
  unfolding send_request
  send_request-same shim request (wait_error e) log = refl
  send_request-same shim request (exited code) log = refl
  send_request-same shim request running log =
      alive_from-append [] log (send shim.process shim.port request ∷ [])

  request_of-Neutral : (shim : SpinShim) (request : String) → Neutral (request_of M shim request)
  unfolding request_of
  request_of-Neutral shim request = record { at = λ log. send_request-same shim request _ log }

  unwrap_text-same : (text : Try String) (log : Log) → alive (unwrap_text M text log).1 ≡ alive log
  unfolding pure panic
  unwrap_text-same (good text) log = refl
  unwrap_text-same (bad e) log = refl

  run_invocations-Neutral :
      (shim : SpinShim) (invocations : List String) → Neutral (run_invocations M shim invocations)
  unfolding run_invocations
  run_invocations-Neutral shim [] = search neutral_rules
  run_invocations-Neutral shim (invocation ∷ invocations) =
      Neutral-bind _ _ (record { at = λ log. unwrap_text-same _ log })
        λ request. Neutral-bind _ _ (request_of-Neutral shim request) λ answer.
          Neutral-bind _ _ (search neutral_rules)
            λ checked. run_invocations-Neutral shim invocations

  unwrap_shim-opened : (r : Done SpinShim) (ps : List ℕ) → opened r ps ≡ opened (unwrap_shim M r) ps
  unwrap_shim-opened (returned shim) ps = refl
  unwrap_shim-opened (failed e) ps = refl
  unwrap_shim-opened panicked ps = refl

  unwrap_name-Neutral : (found : Option String) → Neutral (unwrap_name M found)
  unwrap_name-Neutral none = search neutral_rules
  unwrap_name-Neutral (some name) = search neutral_rules

  init_env-Neutral : (test : Test) → Neutral (init_env M test)
  unfolding init_env
  init_env-Neutral test =
      Neutral-bind _ _ (record { at = λ log. unwrap_text-same _ log })
        λ manifest.
          Neutral-bind _ _ (record { at = λ log. unwrap_text-same _ log })
            λ contents. search (neutral_rules, unwrap_name-Neutral) depth 8

  booted-Opens :
      (ctr_binary spin_binary : String) (test : Test) (services : List String)
      → Opens (booted M ctr_binary spin_binary test services)
  unfolding booted
  booted-Opens ctr_binary spin_binary test services =
      Opens-bind _ _ (Neutral-ask io _)
        λ done. Opens-bind _ _ (init_env-Neutral test) λ stored. create_runtime-Opens _ _ _ _

  up-Opens :
      (ctr_binary spin_binary : String) (test : Test) (services : List String)
      → Opens (up M ctr_binary spin_binary test services)
  unfolding up
  up-Opens ctr_binary spin_binary test services = record {
    at = λ log.
        (booted-Opens ctr_binary spin_binary test services).at log
        ∙ unwrap_shim-opened (booted M ctr_binary spin_binary test services log).0 (alive log);
  }

  -- A shim that is used and then dropped.
  with_shim-continue :
      (invocations : List String) (r : Done SpinShim) (log : Log) (ps : List ℕ)
      → alive log ≡ opened r ps
      → alive (continue r (with_shim M invocations) log).1 ≡ ps
  unfolding with_shim
  with_shim-continue invocations (returned shim) log ps top =
      Neutral-kill _ shim.process log ps (run_invocations-Neutral shim invocations) top
  with_shim-continue invocations (failed e) log ps same = same
  with_shim-continue invocations panicked log ps same = same

  unwrap_services-Neutral : (services : Selected) → Neutral (unwrap_services M services)
  unfolding unwrap_services
  unwrap_services-Neutral (selected services) = search neutral_rules
  unwrap_services-Neutral (unsupported_label label) = search neutral_rules

  session-Neutral :
      (ctr_binary spin_binary : String) (test : Test) (services invocations : List String)
      → Neutral (up M ctr_binary spin_binary test services >>= with_shim M invocations)
  unfolding ◌>>=◌
  session-Neutral ctr_binary spin_binary test services invocations = record {
    at = λ log.
        with_shim-continue invocations _ _ (alive log)
          ((up-Opens ctr_binary spin_binary test services).at log);
  }

  pub run_test-Neutral :
      (test : Test) (spin_binary ctr_binary : String)
      → Neutral (run_test M test spin_binary ctr_binary)
  unfolding run_test
  run_test-Neutral test spin_binary ctr_binary =
      Neutral-bind _ _ (unwrap_services-Neutral _) λ services. session-Neutral _ _ test _ _

  -- A test leaves no process behind: at its end, however it ends, the processes that were started and
  -- not killed are those from before it.
  pub alive-run_test :
      (test : Test) (spin_binary ctr_binary : String) (log : Log)
      → alive (run_test M test spin_binary ctr_binary log).1 ≡ alive log
  alive-run_test test spin_binary ctr_binary log =
      (run_test-Neutral test spin_binary ctr_binary).at log

  -- When a start fails, its process has been killed; when it returns, the process of the shim is the
  -- one that was added.
  pub alive-create_runtime :
      (ctr_binary spin_binary name ctr_run_id : String) (log : Log)
      → let r = create_runtime M ctr_binary spin_binary name ctr_run_id log in
        alive r.1 ≡ opened r.0 (alive log)
  alive-create_runtime ctr_binary spin_binary name ctr_run_id log =
      (create_runtime-Opens ctr_binary spin_binary name ctr_run_id).at log
