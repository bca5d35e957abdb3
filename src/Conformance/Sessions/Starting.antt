-- ===== src/Conformance/Sessions/Starting.antt =====
-- How the harness of conformance-tests/src/main.rs starts a shim, and what it has done by then.
use containerd_shim_spin.Prelude.{
  ℕ, String, ◌≡◌, refl, sym, ◌∙◌, ap, ◌<>◌, Bool, true, false, Option, none, some, List, [], ◌∷◌,
  ◌++◌,
}
use containerd_shim_spin.Conformance.{
  Start, started, wait_failed, exited_early, timed_out, out_of_fuel,
}
use containerd_shim_spin.Conformance.Machine.{
  Action, Command, HarnessError, log_bound, bind_listener, Try, good, bad, run_in, output,
  bind_port, spawn, Log, Machine, Done, returned, failed, panicked, start_process, of_try,
  log_spawn, ◌>>=◌, io,
}
use containerd_shim_spin.Conformance.Commands.{push_command, pull_command, image_name}
use containerd_shim_spin.Conformance.Shim.{
  SpinShim, Test, no_port, existing, ensure_pulled, registry_push, image_pull, run_command,
  keep_started, await_shim, start, create_runtime, unwrap_shim, booted, up,
}
use containerd_shim_spin.Conformance.Sessions.Rules.{
  Deeds, Does, Does-ask_of, Does-map, Only, Does-pure, Does-value, Does-fail, Does-dropped,
  Does-ask, Does-act, Does-bind,
}
use containerd_shim_spin.Conformance.Sessions.Files.{IsStored, init_env-Does}

module _ (M : Machine) where
  -- An image is pushed to the registry, pulled, and run in one process on a port.
  abbrev pub run_image : String → String → String → String → SpinShim → List Action
  run_image ctr_binary spin_binary image ctr_run_id shim =
      run_in
        (record { program = spin_binary; args = "registry" ∷ "push" ∷ "-k" ∷ image ∷ []; env = [] })
      ∷ output (record { program = ctr_binary; args = "image" ∷ "pull" ∷ image ∷ []; env = [] })
      ∷ bind_port shim.port
      ∷ spawn shim.process (record {
        program = ctr_binary;
        args =
            "run"
            ∷ "--rm"
            ∷ "--net-host"
            ∷ "--runtime"
            ∷ "io.containerd.spin.v2"
            ∷ "--env"
            ∷ ("SPIN_HTTP_LISTEN_ADDR=" <> ("0.0.0.0:" <> M.display shim.port))
            ∷ image
            ∷ ctr_run_id
            ∷ "bogus-arg"
            ∷ [];
        env = M.env_vars;
      })
      ∷ []

  -- The port of the registry is the one that the environment has given for it.
  abbrev pub IsRegistry : ℕ → Type 0
  IsRegistry port = (log : Log) × (M.registry_port log ≡ good (some port))

  abbrev pub IsStarted : String → String → String → String → Deeds SpinShim
  IsStarted ctr_binary spin_binary name ctr_run_id shim es =
      (port : ℕ) × IsRegistry port
      × (es
          ≡ run_image ctr_binary spin_binary
              ("localhost:" <> M.display port <> "/" <> name <> ":latest") ctr_run_id shim)

  existing-Does :
      (found : Option ℕ) → Does (λ port es. (found ≡ some port) × (es ≡ [])) (existing found)
  existing-Does none = Does-fail _ _
  existing-Does (some port) =
      Does-map _ _ _ (Does-pure port) λ found es (same, none_more). (ap some (sym same), none_more)

  ensure_pulled-Does : (success : Bool) → Does (Only []) (ensure_pulled success)
  ensure_pulled-Does true = Does-value tt
  ensure_pulled-Does false = Does-fail _ _

  image_pull-Does :
      (ctr_binary image : String)
      → Does (Only (output (pull_command ctr_binary image) ∷ [])) (image_pull M ctr_binary image)
  unfolding image_pull
  image_pull-Does ctr_binary image =
      Does-bind (Only _) (λ _. Only []) _ _ _ (Does-act _ _ _) ensure_pulled-Does
        λ success done first second e f. rw (e, f) refl

  keep_started-Does :
      (spin : SpinShim) (how : Start)
      → Does (λ shim es. (shim ≡ spin) × (es ≡ [])) (keep_started M spin how)
  unfolding keep_started
  keep_started-Does spin started = Does-pure spin
  keep_started-Does spin (wait_failed e) = Does-dropped _ _ _
  keep_started-Does spin (exited_early code) = Does-dropped _ _ _
  keep_started-Does spin timed_out = Does-dropped _ _ _
  keep_started-Does spin out_of_fuel = Does-dropped _ _ _

  await_shim-Does :
      (spin : SpinShim) → Does (λ shim es. (shim ≡ spin) × (es ≡ [])) (await_shim M spin)
  unfolding await_shim
  await_shim-Does spin = record { at = λ log shim h. (keep_started-Does spin _).at log shim h }

  spawned-log :
      (cmd : Command) (answer : Try ℕ) (log : Log) (process : ℕ)
      → of_try io answer ≡ returned process
      → log_spawn cmd answer log ≡ log ++ spawn process cmd ∷ []
  spawned-log cmd (good found) log process h = cc
  spawned-log cmd (bad e) log process h = cc

  start_process-Does :
      (cmd : Command) → Does (λ process es. es ≡ spawn process cmd ∷ []) (start_process M cmd)
  unfolding start_process
  start_process-Does cmd = record {
    at = λ log process h. (spawn process cmd ∷ [], spawned-log cmd _ log process h, refl);
  }

  bound-log :
      (name : String → HarnessError) (answer : Try ℕ) (log : Log) (port : ℕ)
      → of_try name answer ≡ returned port
      → log_bound answer log ≡ log ++ bind_port port ∷ []
  bound-log name (good found) log port h = cc
  bound-log name (bad e) log port h = cc

  bind_listener-Does :
      (name : String → HarnessError)
      → Does (λ port es. es ≡ bind_port port ∷ []) (bind_listener M name)
  unfolding bind_listener
  bind_listener-Does name = record {
    at = λ log port h. (bind_port port ∷ [], bound-log name _ log port h, refl);
  }

  -- A port is bound, and one process started with the command for this port.
  abbrev IsRun : (SpinShim → Command) → Deeds SpinShim
  IsRun cmd shim es = es ≡ bind_port shim.port ∷ spawn shim.process (cmd shim) ∷ []

  start-Does :
      (ctr_binary image ctr_run_id : String)
      → Does
          (IsRun λ shim. run_command M ctr_binary image ctr_run_id shim.port)
          (start M ctr_binary image ctr_run_id)
  unfolding start
  start-Does ctr_binary image ctr_run_id =
      Does-bind (λ port es. es ≡ bind_port port ∷ [])
        (λ port shim es.
          (shim.port ≡ port)
          × (es ≡ spawn shim.process (run_command M ctr_binary image ctr_run_id port) ∷ []))
        _ _ _ (bind_listener-Does no_port)
        (λ port.
          Does-bind
            (λ process es. es ≡ spawn process (run_command M ctr_binary image ctr_run_id port) ∷ [])
            (λ process shim es. (shim ≡ record { process = process; port = port }) × (es ≡ [])) _ _
            _ (start_process-Does _) (λ process. await_shim-Does _)
            λ process shim first second e (same, none_more).
              (ap (λ s. s.port) same, rw (e, none_more, same) refl))
        λ port shim first second e (same, f). rw (e, f, same) refl

  served-Does :
      (ctr_binary spin_binary image ctr_run_id : String)
      → Does
          (λ shim es. es ≡ run_image ctr_binary spin_binary image ctr_run_id shim)
          (registry_push M spin_binary image >>= λ _.
            image_pull M ctr_binary image >>= λ _. start M ctr_binary image ctr_run_id)
  unfolding registry_push
  served-Does ctr_binary spin_binary image ctr_run_id =
      let cmd = λ (shim : SpinShim). run_command M ctr_binary image ctr_run_id shim.port in
      Does-bind (Only (run_in (push_command spin_binary image) ∷ []))
        (λ _ shim es.
          es
          ≡ output (pull_command ctr_binary image)
            ∷ bind_port shim.port
            ∷ spawn shim.process (cmd shim)
            ∷ [])
        _ _ _ (Does-act _ _ _)
        (λ _.
          Does-bind (Only (output (pull_command ctr_binary image) ∷ [])) (λ _. IsRun cmd) _ _ _
            (image_pull-Does ctr_binary image) (λ _. start-Does ctr_binary image ctr_run_id)
            λ _ shim first second e f. rw (e, f) refl)
        λ _ shim first second e f. rw (e, f) refl

  create_runtime-Does :
      (ctr_binary spin_binary name ctr_run_id : String)
      → Does
          (IsStarted ctr_binary spin_binary name ctr_run_id)
          (create_runtime M ctr_binary spin_binary name ctr_run_id)
  unfolding create_runtime
  create_runtime-Does ctr_binary spin_binary name ctr_run_id =
      let image = λ (port : ℕ). image_name (M.display port) name in
      Does-bind (λ found es. ((log : Log) × (M.registry_port log ≡ good found)) × (es ≡ []))
        (λ found shim es.
          (port : ℕ) × (found ≡ some port)
          × (es ≡ run_image ctr_binary spin_binary (image port) ctr_run_id shim))
        _ _ _ (Does-ask_of _ _)
        (λ found.
          Does-bind (λ port es. (found ≡ some port) × (es ≡ []))
            (λ port shim es. es ≡ run_image ctr_binary spin_binary (image port) ctr_run_id shim) _ _
            _ (existing-Does found)
            (λ port. served-Does ctr_binary spin_binary (image port) ctr_run_id)
            λ port shim first second (same, e) f. (port, same, rw (e, f) refl))
        λ found shim first second ((log, asked), e) (port, same, f).
          (port, (log, asked ∙ ap good same), rw (e, f) refl)

  -- The files of the test are stored, and then its image is run.
  abbrev pub IsUp : String → String → Test → Deeds SpinShim
  IsUp ctr_binary spin_binary test shim es =
      (files : List Action) × (run : List Action) × IsStored M test files
      × IsStarted ctr_binary spin_binary test.name (M.display (M.hash test.name)) shim run
      × (es ≡ files ++ run)

  booted-Does :
      (ctr_binary spin_binary : String) (test : Test) (services : List String)
      → Does (IsUp ctr_binary spin_binary test) (booted M ctr_binary spin_binary test services)
  unfolding booted
  booted-Does ctr_binary spin_binary test services =
      Does-bind (Only []) (λ _. IsUp ctr_binary spin_binary test) _ _ _ (Does-ask _ _)
        (λ _.
          Does-bind (λ _. IsStored M test)
            (λ _. IsStarted ctr_binary spin_binary test.name (M.display (M.hash test.name))) _ _ _
            (init_env-Does M test) (λ _. create_runtime-Does _ _ _ _)
            λ _ shim first second files run. (first, second, files, run, refl))
        λ _ shim first second e (files, run, stored, ran, f).
          (files, run, stored, ran, rw (e, f) refl)

  unwrap_shim-returned :
      (r : Done SpinShim) (shim : SpinShim) → unwrap_shim M r ≡ returned shim → r ≡ returned shim
  unwrap_shim-returned (returned found) shim h = h
  unwrap_shim-returned (failed e) shim h = cc
  unwrap_shim-returned panicked shim h = h

  pub up-Does :
      (ctr_binary spin_binary : String) (test : Test) (services : List String)
      → Does (IsUp ctr_binary spin_binary test) (up M ctr_binary spin_binary test services)
  unfolding up
  up-Does ctr_binary spin_binary test services = record {
    at = λ log shim h.
        (booted-Does ctr_binary spin_binary test services).at log shim
          (unwrap_shim-returned _ shim h);
  }
