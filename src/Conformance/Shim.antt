-- ===== src/Conformance/Shim.antt =====
-- The container that a conformance test runs, from its image to its end: `SpinShim` and `run_test` of
-- conformance-tests/src/main.rs.
use containerd_shim_spin.Prelude.{
  ℕ, String, ◌<>◌, Bool, true, false, Option, none, some, List, [], ◌∷◌, ◌++◌,
}
use containerd_shim_spin.Conformance.{
  Precondition, Selected, selected, unsupported_label, services_for, Status, wait_error, exited,
  running, Start, started, wait_failed, exited_early, timed_out, out_of_fuel, await_start, Reply,
  response, send_failed, exited_before, exited_after, unwaitable, make_http_request,
}
use containerd_shim_spin.Conformance.Machine.{
  Command, HarnessError, io, no_registry_port, pull_failed, no_available_port, push_failed,
  shim_exited, start_timeout, request_failed, check_failed, Try, good, bad, Action, run_in, output,
  bind_listener, send, kill, write_file, copy_into, Machine, Done, returned, failed, panicked,
  Harness, pure, panic, fail, ask, act, start_process, ◌>>=◌, ◌>>◌, finally,
}
use containerd_shim_spin.Conformance.Commands.{push_command, pull_command, run_args, image_name}

-- `SpinShim`: the process and the port of its `IoMode`.
pub record SpinShim : Type 0 where
  pub process : ℕ
  pub port : ℕ

-- The helper `kill_process`, and the destructor of the shim.
abbrev pub kill_process : ℕ → Action
kill_process process = kill process

abbrev pub drop : SpinShim → Action
drop spin = kill_process spin.process

-- `conformance_tests::Test`, with the texts of the requests of its invocations.
pub record Test : Type 0 where
  pub name : String
  pub manifest : String
  pub component : String
  pub preconditions : List Precondition
  pub invocations : List String

abbrev pub existing : Option ℕ → Harness ℕ
existing none = fail no_registry_port
existing (some port) = pure port

abbrev pub ensure_pulled : Bool → Harness Unit
ensure_pulled true = pure tt
ensure_pulled false = fail pull_failed

abbrev pub no_port : String → HarnessError
no_port _ = no_available_port

abbrev pub no_push : String → HarnessError
no_push _ = push_failed

-- How a reply to a request is passed on.
abbrev pub reply_done : Reply String → Done String
reply_done (response r) = returned r
reply_done (send_failed e) = failed (request_failed e)
reply_done (exited_before code) = failed (shim_exited code)
reply_done (exited_after code) = failed (shim_exited code)
reply_done (unwaitable e) = failed (io e)

module _ (M : Machine) where
  unfoldable pub registry_push : String → String → Harness Unit
  registry_push spin_binary image =
      let cmd = push_command spin_binary image in
      act (run_in cmd) no_push (λ log. M.run_in_env log cmd)

  unfoldable pub image_pull : String → String → Harness Unit
  image_pull ctr_binary image = do
    let cmd = pull_command ctr_binary image
    success ← act (output cmd) io (λ log. M.succeeds log cmd)
    ensure_pulled success

  abbrev pub run_command : String → String → String → ℕ → Command
  run_command ctr_binary image ctr_run_id port = record {
    program = ctr_binary;
    args = run_args ("0.0.0.0:" <> M.display port) image ctr_run_id;
    env = M.env_vars;
  }

  -- What `start` makes of its loop. On the failures `spin` is dropped, which kills its process.
  unfoldable pub keep_started : SpinShim → Start → Harness SpinShim
  keep_started spin started = pure spin
  keep_started spin (wait_failed e) = finally (fail (io e)) (drop spin)
  keep_started spin (exited_early code) = finally (fail (shim_exited code)) (drop spin)
  keep_started spin timed_out = finally (fail start_timeout) (drop spin)
  keep_started spin out_of_fuel = finally (fail start_timeout) (drop spin)

  unfoldable pub await_shim : SpinShim → Harness SpinShim
  unfolding keep_started
  await_shim spin log =
      keep_started spin (await_start (M.look log spin.process spin.port) 2402 0) log

  -- A port that was free, with the context that `start` gives to the error.
  abbrev pub get_available_port : Harness ℕ
  get_available_port = bind_listener M no_port

  unfoldable pub start : String → String → String → Harness SpinShim
  unfolding await_shim
  start ctr_binary image ctr_run_id = do
    port ← get_available_port
    let cmd = run_command ctr_binary image ctr_run_id port
    process ← start_process M cmd
    await_shim (record { process = process; port = port })

  -- The closure `create_runtime` of `config`.
  unfoldable pub create_runtime : String → String → String → String → Harness SpinShim
  unfolding registry_push image_pull start
  create_runtime ctr_binary spin_binary name ctr_run_id = do
    found ← ask io M.registry_port
    port ← existing found
    let oci_image = image_name (M.display port) name
    registry_push spin_binary oci_image
    image_pull ctr_binary oci_image
    start ctr_binary oci_image ctr_run_id

  -- A request after `try_wait` has said this of the process.
  unfoldable pub send_request : SpinShim → String → Status → Harness String
  send_request shim request running log =
      let log' = log ++ send shim.process shim.port request ∷ [] in
      (
        reply_done (
            make_http_request running (M.answer log shim.process request)
              (M.waited log' shim.process)),
        log',
      )
  send_request shim request status log =
      (reply_done (make_http_request status (M.answer log shim.process request) status), log)

  unfoldable pub request_of : SpinShim → String → Harness String
  unfolding send_request
  request_of shim request log = send_request shim request (M.waited log shim.process) log

  error_of : Status → Harness Unit
  error_of (wait_error e) = fail (io e)
  error_of (exited code) = fail (shim_exited code)
  error_of running = pure tt

  -- `Runtime::error`
  unfoldable pub error : SpinShim → Harness Unit
  unfolding error_of
  error shim log = error_of (M.waited log shim.process) log

  abbrev pub unwrap_text : Try String → Harness String
  unwrap_text (good text) = pure text
  unwrap_text (bad _) = panic

  -- The loop over the invocations of a test.
  unfoldable pub run_invocations : SpinShim → List String → Harness Unit
  run_invocations shim [] = pure tt
  run_invocations shim (invocation ∷ invocations) = do
    request ← (λ log. unwrap_text (M.substitute log invocation) log)
    answer ← request_of shim request
    ask check_failed (λ _. M.check invocation answer)
    run_invocations shim invocations

  abbrev pub unwrap_name : Option String → Harness String
  unwrap_name (some name) = pure name
  unwrap_name none = panic

  -- The closure that `run_test` passes to `TestEnvironment::up`.
  unfoldable pub init_env : Test → Harness Unit
  init_env test = do
    manifest ← (λ log. unwrap_text (M.template log test.manifest) log)
    contents ← (λ log. unwrap_text (M.fill log manifest) log)
    act (write_file "spin.toml" contents) io (λ log. M.writes log "spin.toml" contents)
    file_name ← unwrap_name (M.file_name test.component)
    act (copy_into test.component file_name) io (λ log. M.copies log test.component file_name)

  -- The `unwrap` on what `TestEnvironment::up` returns.
  abbrev pub unwrap_shim : Done SpinShim → Done SpinShim
  unwrap_shim (returned shim) = returned shim
  unwrap_shim (failed _) = panicked
  unwrap_shim panicked = panicked

  -- `TestEnvironment::up` calls the closure and then `create_runtime`, in the booted environment.
  unfoldable pub booted : String → String → Test → List String → Harness SpinShim
  unfolding create_runtime init_env
  booted ctr_binary spin_binary test services = do
    ask io (λ log. M.boot log services)
    init_env test
    create_runtime ctr_binary spin_binary test.name (M.display (M.hash test.name))

  unfoldable pub up : String → String → Test → List String → Harness SpinShim
  unfolding booted
  up ctr_binary spin_binary test services log =
      let (r, log') = booted ctr_binary spin_binary test services log in (unwrap_shim r, log')

  -- The environment is dropped at the end of `run_test`, and with it the shim.
  unfoldable pub with_shim : List String → SpinShim → Harness Unit
  unfolding run_invocations
  with_shim invocations shim = finally (run_invocations shim invocations) (drop shim)

  unfoldable pub unwrap_services : Selected → Harness (List String)
  unwrap_services (selected services) = pure services
  unwrap_services (unsupported_label label) = panic

  unfoldable pub run_test : Test → String → String → Harness Unit
  unfolding unwrap_services up with_shim
  run_test test spin_binary ctr_binary = do
    services ← unwrap_services (services_for test.preconditions)
    shim ← up ctr_binary spin_binary test services
    with_shim test.invocations shim
