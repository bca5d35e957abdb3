-- ===== src/Lib.antt =====
-- containerd-shim-spin runs Spin applications under containerd. containerd gives a container's
-- environment, its arguments and either a file or the layers of an OCI image to the shim; the shim
-- stores the layers, loads the application, decides which triggers it needs, starts one for each
-- trigger type and returns when the first of them ends or a signal arrives.
--
-- The parts and their files (paths from the repository's root):
--   Engine         containerd-shim-spin/src/engine.rs. `run_wasi` sets the container's environment,
--                  installs the signal handler and runs `wasm_exec_async`, which calls into all other
--                  parts and ends with `run_trigger`. The match on the trigger's type is `launch`, the
--                  loop around it `launch_all`, the AOT setting of the loader `loader_aot`.
--                  Engine/Compiler is `SpinCompiler::compile`. Engine/Aot, Engine/Panics,
--                  Engine/Order, Engine/Starts, Engine/Success, Engine/Errors, Engine/Requests,
--                  Engine/Launches, Engine/Kinds, Engine/Exhaustive, Engine/Shutdown, Engine/Triggers and
--                  Engine/LayerTypes hold proofs.
--   Source         containerd-shim-spin/src/source.rs. `from_entry` is `Source::from_ctx` on the
--                  entrypoint; each arm of its match is a definition of its own (`store_config` to
--                  `store_archive`). `to_locked_app` loads the application from the source.
--   Trigger        containerd-shim-spin/src/trigger.rs: `run`, `factors_config` and
--                  `get_supported_triggers`. A `HashSet` is the list of its members.
--   Utils          containerd-shim-spin/src/utils.rs, each function under its own name.
--   Oci, App       containerd-shim-spin/src/constants.rs, and the types of the libraries, with the
--                  fields that the shim touches.
--   Text           the operations on `str` that the shim calls.
--   Env, Exec      the environment of the process, and the effects of the shim's functions. Exec/Stages
--                  names the stages of a run's calls; the files beside it are rules of reasoning.
--   Host           the libraries and the operating system, a parameter of all that calls them.
--   Shim           containerd-shim-spin/src/main.rs, and `name` and `can_handle` of engine.rs.
--   Conformance    conformance-tests/src/main.rs. Conformance/Main is `main`; Conformance/Shim is
--                  `SpinShim` and `run_test`, Conformance/Commands the commands that they run, over the
--                  answers of a machine (Conformance/Machine) and with a log of what is done; its parts
--                  without effects, the services of a test, the loop that waits for the shim and the
--                  requests, are in Conformance itself.
--   Integration    tests/src/integration_test.rs: `retry_get`, over the answers of curl.
--   Apps           images/*/src/lib.rs: the handlers of the sample applications, over the operations of
--                  Spin's SDK (Apps/Sdk), on services in a state of any type. The laws of Redis and of
--                  key value stores (Apps/Logic) are those of a server that no other client uses
--                  while the handler runs.
--                  The other files below Source, Trigger, Utils, Text, Conformance, Integration
--                  and Apps hold proofs.
--   UnitTests      the unit tests beside the shim's code, each a Boolean function of the host: those of
--                  source.rs in UnitTests/Sources and UnitTests/Loading, of utils.rs and engine.rs in
--                  UnitTests/Helpers; UnitTests/Passing is about any host.
--   Samples, Tests a concrete host and containers, and the theorems applied to them.
--   Prelude        names, tests, lists and maps that the other modules share.
--
-- Effects. An action of type `Exec A` takes the state of the process (`World`) and gives an `Outcome`
-- and the next state. The state holds the environment variables, the files that the shim writes, the
-- calls of libraries so far with their arguments, and `signal`, the number of awaits that pass before
-- the termination signal drops the running future. An outcome is a value, an error, a panic, or the
-- drop of the future at an await. `?` and the sequence of statements are the bind of `Exec`; `context`
-- and `with_context` are `with_context`. What a library answers is a function in `Host` of the whole
-- state, so it may depend on all earlier calls; a theorem that needs more of it has a hypothesis
-- that says so (`IsUp`: no call fails; `IsLawful`: a `HashSet` iterates over its members, and
-- `select_all` names one of the futures that it was given). The handlers of Apps have the same
-- shape over the SDK's operations, and so have the actions of the conformance tests, whose
-- destructor of the shim is `finally`. `env::set_var` panics on the names and values that its
-- documentation excludes.
--
-- Loops. Every loop of the shim is over a list and is structural recursion. The loop that waits for the
-- shim in the conformance tests runs on fuel, one unit for each round; 2402 rounds are enough, since
-- each sleeps for 50 milliseconds and the loop gives up after two minutes. The loop of `retry_get` runs
-- on one unit of fuel for each transfer that it may make; `retry_times` are enough, if they are at least
-- one and fit the counter.
--
-- Not modelled: logging; the types of `oci_spec`'s media types beyond the test whether a type is one of
-- the named ones; `SpinShim::version`, `cache_key` and the creation of the wasmtime engine, which only
-- call libraries; in the conformance tests, the texts of the shim's output in error messages, and what
-- `TestEnvironment::up` boots, how it fills a manifest in and what `run_tests` does with the suite, which
-- are parameters; the integration tests themselves, which act on a live cluster; the node installer and the
-- scripts. A signal is noticed only at an await, as the future is dropped there.
pub mod Prelude
pub mod Text
pub mod Oci
pub mod App
pub mod Env
pub mod Exec
pub mod Host
pub mod Utils
pub mod Source
pub mod Trigger
pub mod Engine
pub mod Shim
pub mod Conformance
pub mod Integration
pub mod Samples
pub mod Tests
pub mod Apps
pub mod UnitTests
