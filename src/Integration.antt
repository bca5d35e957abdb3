-- ===== src/Integration.antt =====
-- `retry_get` of tests/src/integration_test.rs: the requests that an integration test makes of a
-- workload until it is served. `curl` is a parameter.
pub mod Retries
use containerd_shim_spin.Prelude.{
  ℕ, zero, suc, ◌/◌, String, Bool, Option, none, some, List, [], ◌∷◌, eqb, if◌then◌else◌,
}
use containerd_shim_spin.Oci.{Bytes}
use containerd_shim_spin.Exec.{Error, Result, ok, err}

abbrev pub retry_times : ℕ
retry_times = 5

abbrev pub interval_in_secs : ℕ
interval_in_secs = 10

-- The answers of curl to one transfer: to `write_function`, to `perform` and to `response_code`, and
-- the bytes that the write function is called with.
pub record Transfer : Type 0 where
  pub write_function : Result (Unit {0})
  pub perform : Result (Unit {0})
  pub response_code : Result ℕ
  pub received : Bytes

-- A handle of curl, with the transfers by their number.
pub record Curl : Type 0 where
  pub set_url : String → Result (Unit {0})
  pub transfer : ℕ → Transfer

pub data Step : Type 0 where
  requested : Step
  slept : ℕ → Step

-- How `retry_get` ends; `overflowed` is the panic of `i += 1`.
pub data Fetched : Type 0 where
  fetched : Bytes → Fetched
  gave_up : String → Fetched
  refused : Error → Fetched
  overflowed out_of_fuel : Fetched

abbrev pub Run : Type 0
Run = Fetched × List Step

abbrev pub u32_max : ℕ
u32_max = 4294967295

-- The match on the result of a transfer: the body, if the loop ends with it.
abbrev pub body_of : Result (Unit {0}) → ℕ → Bytes → Option Bytes
body_of (err _) response_code buf = none
body_of (ok _) response_code buf = if eqb (response_code / 100) 2 then some buf else none

abbrev pub with_code : Result ℕ → Result (Unit {0}) → Bytes → Result (Option Bytes)
with_code (err e) res buf = err e
with_code (ok response_code) res buf = ok (body_of res response_code buf)

abbrev pub end_of_round : Result (Option Bytes) → Run → Run
end_of_round (err e) next = (refused e, [])
end_of_round (ok (some buf)) next = (fetched buf, [])
end_of_round (ok none) next = next

-- A round of the loop, with the rest of it for a transfer that is to be repeated.
abbrev pub round : Result (Unit {0}) → Transfer → Run → Run
round (err e) transfer next = (refused e, [])
round (ok _) transfer next =
    let ended =
      end_of_round (with_code transfer.response_code transfer.perform transfer.received) next in
    (ended.0, requested ∷ ended.1)

-- The end of a round: the counter, its test and the pause.
abbrev pub next_round : String → ℕ → ℕ → ℕ → Run → Run
next_round url times secs i rest =
    if eqb i u32_max
    then (overflowed, [])
    else if eqb (suc i) times
    then (gave_up url, [])
    else (rest.0, slept secs ∷ rest.1)

module _ (curl : Curl) (url : String) (times secs : ℕ) where
  -- The loop from the counter `i`, with fuel for the rounds.
  unfoldable pub retry_from : ℕ → ℕ → Run
  retry_from zero i = (out_of_fuel, [])
  retry_from (suc fuel) i =
      let rest = retry_from fuel (suc i) in
      let transfer = curl.transfer i in
      round transfer.write_function transfer (next_round url times secs i rest)

  abbrev pub with_url : Result (Unit {0}) → Run
  with_url (err e) = (refused e, [])
  with_url (ok _) = retry_from times 0

  unfoldable pub retry_get : Run
  retry_get = with_url (curl.set_url url)
