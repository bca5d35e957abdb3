-- ===== src/Conformance.antt =====
-- conformance-tests/src/main.rs: the services that a test asks for, the loop that waits for the shim,
-- and the requests that a test makes of it.
pub mod Machine
pub mod Commands
pub mod Shim
pub mod Cleanup
pub mod Processes
pub mod Services
pub mod Startup
pub mod Sessions
pub mod Success
pub mod Main
use containerd_shim_spin.Prelude.{
  ℕ, zero, suc, ◌*◌, String, Bool, Option, none, some, List, [], ◌∷◌, ◌++◌, ltb, if◌then◌else◌,
  ◌==◌,
}

-- `conformance_tests::config::Precondition`, with the label of a key value store.
pub data Precondition : Type 0 where
  http_echo : Precondition
  key_value_store : String → Precondition
  tcp_echo sqlite redis mqtt : Precondition

-- How the loop over the preconditions ends: with the services, or with a panic on a label.
pub data Selected : Type 0 where
  selected : List String → Selected
  unsupported_label : String → Selected

-- The loop of `run_test` over the preconditions.
unfoldable pub push_services : List Precondition → List String → Selected
push_services [] services = selected services
push_services (http_echo ∷ preconditions) services =
    push_services preconditions (services ++ "http-echo" ∷ [])
push_services (key_value_store label ∷ preconditions) services =
    let rest = push_services preconditions services in
    if label == "default" then rest else unsupported_label label
push_services (tcp_echo ∷ preconditions) services =
    push_services preconditions (services ++ "tcp-echo" ∷ [])
push_services (sqlite ∷ preconditions) services = push_services preconditions services
push_services (redis ∷ preconditions) services =
    push_services preconditions (services ++ "redis" ∷ [])
push_services (mqtt ∷ preconditions) services =
    push_services preconditions (services ++ "mqtt" ∷ [])

abbrev pub services_for : List Precondition → Selected
services_for preconditions = push_services preconditions ("registry" ∷ [])

-- What `try_wait` says of the process: an error, its status code, or that it still runs.
pub data Status : Type 0 where
  wait_error : String → Status
  exited : Option ℕ → Status
  running : Status

-- What the harness sees of the shim at its `n`th look: whether its port accepts a connection, what
-- `try_wait` says, and the milliseconds that have gone by since the start.
pub record Probe : Type 0 where
  pub connects : ℕ → Bool
  pub try_wait : ℕ → Status
  pub elapsed : ℕ → ℕ

pub data Start : Type 0 where
  started : Start
  wait_failed : String → Start
  exited_early : Option ℕ → Start
  timed_out : Start
  out_of_fuel : Start

abbrev pub two_minutes : ℕ
two_minutes = 2 * 60 * 1000

abbrev pub after_wait : Status → Start → Start
after_wait (wait_error e) next = wait_failed e
after_wait (exited code) next = exited_early code
after_wait running next = next

-- The loop of `SpinShim::start` from its `n`th round, with fuel for the rounds.
unfoldable pub await_start : Probe → ℕ → ℕ → Start
await_start probe zero n = out_of_fuel
await_start probe (suc fuel) n =
    let again = await_start probe fuel (suc n) in
    if probe.connects n
    then started
    else after_wait (probe.try_wait n)
        (if ltb two_minutes (probe.elapsed n) then timed_out else again)

-- How a request of the shim ends.
pub data Reply (A : Type 0) : Type 0 where
  response : A → Reply A
  send_failed : String → Reply A
  exited_before exited_after : Option ℕ → Reply A
  unwaitable : String → Reply A

pub data Sent (A : Type 0) : Type 0 where
  answered : A → Sent A
  unanswered : String → Sent A

module _ {A : Type 0} where
  abbrev pub after_send : Sent A → Status → Reply A
  after_send (unanswered e) later = send_failed e
  after_send (answered r) (wait_error e) = unwaitable e
  after_send (answered r) (exited code) = exited_after code
  after_send (answered r) running = response r

  -- `SpinShim::make_http_request`, by what `try_wait` says before and after the request.
  unfoldable pub make_http_request : Status → Sent A → Status → Reply A
  make_http_request (wait_error e) sent later = unwaitable e
  make_http_request (exited code) sent later = exited_before code
  make_http_request running sent later = after_send sent later
