-- ===== src/Conformance/Success.antt =====
-- A conformance test on a machine that works: `run_test` of conformance-tests/src/main.rs comes to its
-- end without a failure.
mod Rules
pub mod Up
use containerd_shim_spin.Prelude.{
  ℕ, zero, suc, ◌+◌, ◌*◌, ◌≤◌, ◌<◌, String, ◌≡◌, refl, sym, ap, ◌∙◌, Bool, true, false, Option,
  none, some, List, [], ◌∷◌, ◌++◌, arith, all, ltb, Bool-cases, inl, inr,
}
use containerd_shim_spin.Conformance.{
  Precondition, selected, services_for, running, started, Probe, await_start, answered, Status,
  Sent, two_minutes, make_http_request, Start,
}
use containerd_shim_spin.Conformance.Services.{can_meet, needs_all, services_for-selected}
use containerd_shim_spin.Conformance.Startup.{Sleeps, IsWaiting, elapsed-ge}
use containerd_shim_spin.Conformance.Machine.{
  HarnessError, Try, good, bad, Action, Log, Machine, Done, returned, failed, panicked, Harness,
  pure, ask, act, bind_listener, start_process, of_try, continue, ◌>>=◌, finally, send, Command, io,
  kill,
}
use containerd_shim_spin.Conformance.Shim.{
  SpinShim, Test, existing, ensure_pulled, registry_push, image_pull, keep_started, await_shim,
  start, create_runtime, send_request, request_of, unwrap_text, run_invocations, unwrap_shim,
  booted, up, with_shim, init_env, unwrap_services, run_test, reply_done,
}
use containerd_shim_spin.Conformance.Success.Rules.{
  Ends, Finishes, Ends-pure, Ends-ask, Ends-act, Ends-finally, Ends-bind, Finishes-bind,
}
use containerd_shim_spin.Conformance.Success.Up.{ComesUp, await_start_up}

-- A machine on which every command of the harness succeeds, and whose shim comes up, goes on running,
-- and answers each request with what the test expects.
pub record IsWorking (M : Machine) : Type 0 where
  pub boots : (log : Log) (services : List String) → M.boot log services ≡ good tt
  pub reads_manifest :
      (log : Log) (path : String) → (manifest : String) × (M.template log path ≡ good manifest)
  pub fills :
      (log : Log) (manifest : String) → (contents : String) × (M.fill log manifest ≡ good contents)
  pub stores_files :
      (log : Log) (path contents : String)
      → (M.writes log path contents ≡ good tt) × (M.copies log path contents ≡ good tt)
  pub has_registry : (log : Log) → (port : ℕ) × (M.registry_port log ≡ good (some port))
  pub pushes : (log : Log) (cmd : Command) → M.run_in_env log cmd ≡ good tt
  pub pulls : (log : Log) (cmd : Command) → M.succeeds log cmd ≡ good true
  pub has_port : (log : Log) → (port : ℕ) × (M.free_port log ≡ good port)
  pub spawns : (log : Log) (cmd : Command) → (process : ℕ) × (M.spawned log cmd ≡ good process)
  pub comes_up : (log : Log) (process port : ℕ) → ComesUp (M.look log process port)
  pub goes_on : (log : Log) (process : ℕ) → M.waited log process ≡ running
  pub substitutes :
      (log : Log) (invocation : String)
      → (request : String) × (M.substitute log invocation ≡ good request)
  pub answers :
      (log log' : Log) (process : ℕ) (invocation request : String)
      → M.substitute log invocation ≡ good request
      → (text : String) × (M.answer log' process request ≡ answered text)
        × (M.check invocation text ≡ good tt)

module _ (M : Machine) (W : IsWorking M) where
  await_shim-Ends : (shim : SpinShim) → Finishes (await_shim M shim)
  unfolding await_shim keep_started pure
  await_shim-Ends shim = record {
    at = λ log.
        let up = await_start_up _ (W.comes_up log shim.process shim.port) in (shim, rw up refl, tt);
  }

  start_process-Ends : (cmd : Command) → Finishes (start_process M cmd)
  unfolding start_process
  start_process-Ends cmd = record {
    at = λ log. let (process, e) = W.spawns log cmd in (process, ap (of_try io) e, tt);
  }

  bind_listener-Ends : (name : String → HarnessError) → Finishes (bind_listener M name)
  unfolding bind_listener
  bind_listener-Ends name = record {
    at = λ log. let (port, e) = W.has_port log in (port, ap (of_try name) e, tt);
  }

  create_runtime-Ends :
      (ctr_binary spin_binary name ctr_run_id : String)
      → Finishes (create_runtime M ctr_binary spin_binary name ctr_run_id)
  unfolding create_runtime registry_push image_pull start
  create_runtime-Ends ctr_binary spin_binary name ctr_run_id =
      Ends-bind {Q = λ found. (port : ℕ) × (found ≡ some port)} _ _
        (Ends-ask _ _ λ log. let (port, e) = W.has_registry log in (some port, e, (port, refl)))
        λ found (port, same). Finishes-bind (existing found) _ (rw same (Ends-pure port tt)) λ port.
          Finishes-bind _ _ (Ends-act _ _ _ λ log. (tt, W.pushes log _, tt)) λ _.
            Finishes-bind _ _
              (Ends-bind {Q = λ success. success ≡ true} _ _
                (Ends-act _ _ _ λ log. (true, W.pulls log _, refl))
                λ success same. rw same (Ends-pure tt tt))
              λ _.
                Finishes-bind _ _ (bind_listener-Ends _)
                  λ port. Finishes-bind _ _ (start_process-Ends _) λ process. await_shim-Ends _

  template-Ends :
      (found : Log → Try String)
      → ((log : Log) → (text : String) × (found log ≡ good text))
      → Finishes (λ log. unwrap_text M (found log) log)
  unfolding pure
  template-Ends found good_text = record {
    at = λ log. let (text, e) = good_text log in (text, rw e refl, tt);
  }

  -- The file of the component has a name.
  abbrev pub IsNamed : Test → Type 0
  IsNamed test = (file_name : String) × (M.file_name test.component ≡ some file_name)

  init_env-Ends : (test : Test) → IsNamed test → Finishes (init_env M test)
  unfolding init_env
  init_env-Ends test (file_name, named) =
      Finishes-bind _ _ (template-Ends _ λ log. W.reads_manifest log test.manifest) λ manifest.
        Finishes-bind _ _ (template-Ends _ λ log. W.fills log manifest) λ contents.
          Finishes-bind _ _ (Ends-act _ _ _ λ log. (tt, (W.stores_files log _ _).0, tt)) λ _.
            Finishes-bind _ _ (rw named (Ends-pure file_name tt))
              λ _. Ends-act _ _ _ λ log. (tt, (W.stores_files log _ _).1, tt)

  booted-Ends :
      (ctr_binary spin_binary : String) (test : Test) (services : List String)
      → IsNamed test
      → Finishes (booted M ctr_binary spin_binary test services)
  unfolding booted
  booted-Ends ctr_binary spin_binary test services named =
      Finishes-bind _ _ (Ends-ask _ _ λ log. (tt, W.boots log services, tt))
        λ _. Finishes-bind _ _ (init_env-Ends test named) λ _. create_runtime-Ends _ _ _ _

  up-Ends :
      (ctr_binary spin_binary : String) (test : Test) (services : List String)
      → IsNamed test
      → Finishes (up M ctr_binary spin_binary test services)
  unfolding up
  up-Ends ctr_binary spin_binary test services named = record {
    at = λ log.
        let (shim, e, _) = (booted-Ends ctr_binary spin_binary test services named).at log in
        (shim, rw e refl, tt);
  }

  -- The request that an invocation stands for.
  abbrev IsRequest : String → String → Type 0
  IsRequest invocation request = (log : Log) × (M.substitute log invocation ≡ good request)

  unwrap_text-Ends :
      (invocation : String)
      → Ends (IsRequest invocation) (λ log. unwrap_text M (M.substitute log invocation) log)
  unfolding pure
  unwrap_text-Ends invocation = record {
    at = λ log. let (request, e) = W.substitutes log invocation in (request, rw e refl, (log, e));
  }

  -- An answer that the check of an invocation accepts.
  abbrev IsAccepted : String → String → Type 0
  IsAccepted invocation answer = M.check invocation answer ≡ good tt

  request_of-Ends :
      (shim : SpinShim) (invocation request : String)
      → IsRequest invocation request
      → Ends (IsAccepted invocation) (request_of M shim request)
  unfolding request_of send_request make_http_request
  request_of-Ends shim invocation request (earlier, asked) = record {
    at = λ log.
        let (text, answer, accepted) =
          W.answers earlier log shim.process invocation request asked in
        let before = W.goes_on log shim.process in
        let after = W.goes_on (log ++ send shim.process shim.port request ∷ []) shim.process in
        (text, rw (before, answer, after) refl, accepted);
  }

  run_invocations-Ends :
      (shim : SpinShim) (invocations : List String) → Finishes (run_invocations M shim invocations)
  unfolding run_invocations
  run_invocations-Ends shim [] = Ends-pure tt tt
  run_invocations-Ends shim (invocation ∷ invocations) =
      Ends-bind _ _ (unwrap_text-Ends invocation) λ request asked.
        Ends-bind _ _ (request_of-Ends shim invocation request asked) λ answer accepted.
          Finishes-bind _ _ (Ends-ask _ _ λ _. (tt, accepted, tt))
            λ _. run_invocations-Ends shim invocations

  run_test-Ends :
      (test : Test) (spin_binary ctr_binary : String)
      → all can_meet test.preconditions ≡ true
      → IsNamed test
      → Finishes (run_test M test spin_binary ctr_binary)
  unfolding run_test unwrap_services with_shim
  run_test-Ends test spin_binary ctr_binary met named =
      Finishes-bind _ _ (rw (services_for-selected test.preconditions met) (Ends-pure _ tt))
        λ services.
          Finishes-bind _ _ (up-Ends ctr_binary spin_binary test services named)
            λ shim. Ends-finally _ _ (run_invocations-Ends shim test.invocations)

  -- A test whose preconditions the harness can meet, and whose component has a file name, passes on a machine where every command of the
  -- harness succeeds and whose shim comes up, goes on running, and gives to the request of each
  -- invocation an answer that the check of this invocation accepts.
  pub run_test_passes :
      (test : Test) (spin_binary ctr_binary : String) (log : Log)
      → all can_meet test.preconditions ≡ true
      → IsNamed test
      → (run_test M test spin_binary ctr_binary log).0 ≡ returned tt
  run_test_passes test spin_binary ctr_binary log met named =
      let (done, e, _) = (run_test-Ends test spin_binary ctr_binary met named).at log in e
