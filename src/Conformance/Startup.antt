-- ===== src/Conformance/Startup.antt =====
-- `SpinShim::start` of conformance-tests/src/main.rs: how its loop ends, and the requests.
use containerd_shim_spin.Prelude.{
  ℕ, zero, suc, ◌+◌, ◌*◌, ◌<◌, ◌≤◌, String, ◌≡◌, ◌≢◌, refl, Bool, true, false, Option, ◌⊎◌, ◌↔◌,
  arith, ltb, if◌then◌else◌, inl, inr, Bool-cases,
}
use containerd_shim_spin.Conformance.{
  Status, wait_error, exited, running, Probe, Start, started, wait_failed, exited_early, timed_out,
  out_of_fuel, two_minutes, after_wait, await_start, response, Sent, answered, unanswered,
  make_http_request,
}

-- Each round sleeps for 50 milliseconds at least.
abbrev pub Sleeps : Probe → Type 0
Sleeps probe = (n : ℕ) → probe.elapsed n + 50 ≤ probe.elapsed (suc n)

pub elapsed-ge : (probe : Probe) → Sleeps probe → (n : ℕ) → 50 * n ≤ probe.elapsed n
elapsed-ge probe sleeps zero = omega arith
elapsed-ge probe sleeps (suc n) = omega (arith, elapsed-ge probe sleeps n, sleeps n)

round-ne :
    (connects : Bool) (status : Status) (next : Start)
    → next ≢ out_of_fuel
    → (if connects then started else after_wait status next) ≢ out_of_fuel
round-ne true status next h = λ e. cc
round-ne false (wait_error e) next h = λ e. cc
round-ne false (exited code) next h = λ e. cc
round-ne false running next h = h

await_start_ends :
    (probe : Probe) (fuel n : ℕ)
    → Sleeps probe
    → 2401 < fuel + n
    → 0 < fuel
    → await_start probe fuel n ≢ out_of_fuel
unfolding await_start
await_start_ends probe zero n sleeps enough left = absurd (omega arith)
await_start_ends probe (suc fuel) n sleeps enough left =
    round-ne (probe.connects n) (probe.try_wait n) _
      (elim (Bool-cases (ltb two_minutes (probe.elapsed n))) [
        | inl late ↦ rw late (λ e. cc)
        | inr early ↦
            let early_round : n < 2401 = ground (arith, elapsed-ge probe sleeps n) in
            rw early (await_start_ends probe fuel (suc n) sleeps (omega arith) (omega arith))
      ])

-- The loop ends, within 2402 rounds, whatever the shim does. (Each round sleeps for 50 milliseconds.)
pub await_start_total : (probe : Probe) → Sleeps probe → await_start probe 2402 0 ≢ out_of_fuel
await_start_total probe sleeps = await_start_ends probe 2402 0 sleeps (omega arith) (omega arith)

-- A round that goes on to the next one: no connection, the process runs, and time is left.
pub record IsWaiting (probe : Probe) (n : ℕ) : Type 0 where
  pub unconnected : probe.connects n ≡ false
  pub alive : probe.try_wait n ≡ running
  pub in_time : probe.elapsed n ≤ two_minutes

-- How the loop ends in a round.
pub data EndsAt (probe : Probe) (n : ℕ) (ending : Start) : Type 0 where
  connected : probe.connects n ≡ true → ending ≡ started → EndsAt probe n ending
  unwaited :
      {e : String}
      → probe.connects n ≡ false
      → probe.try_wait n ≡ wait_error e
      → ending ≡ wait_failed e
      → EndsAt probe n ending
  died :
      {code : Option ℕ}
      → probe.connects n ≡ false
      → probe.try_wait n ≡ exited code
      → ending ≡ exited_early code
      → EndsAt probe n ending
  late :
      probe.connects n ≡ false
      → probe.try_wait n ≡ running
      → two_minutes < probe.elapsed n
      → ending ≡ timed_out
      → EndsAt probe n ending

-- The ending of the first round that is not waiting, with the rounds before it all waiting.
pub data Ending (probe : Probe) (ending : Start) : ℕ → Type 0 where
  now : {n : ℕ} → EndsAt probe n ending → Ending probe ending n
  later : {n : ℕ} → IsWaiting probe n → Ending probe ending (suc n) → Ending probe ending n

Status-cases :
    (status : Status)
    → ((e : String) × (status ≡ wait_error e))
      ⊎ (((code : Option ℕ) × (status ≡ exited code)) ⊎ (status ≡ running))
Status-cases (wait_error e) = inl (e, refl)
Status-cases (exited code) = inr (inl (code, refl))
Status-cases running = inr (inr refl)

await_start-Ending :
    (probe : Probe) (fuel n : ℕ)
    → await_start probe fuel n ≢ out_of_fuel
    → Ending probe (await_start probe fuel n) n
unfolding await_start
await_start-Ending probe zero n h = absurd (h refl)
await_start-Ending probe (suc fuel) n h = elim (Bool-cases (probe.connects n)) [
  | inl open_port ↦ simp open_port (now (connected open_port refl))
  | inr closed ↦ elim (Status-cases (probe.try_wait n)) [
    | inl (e, bad) ↦ simp (closed, bad) (now (unwaited closed bad refl))
    | inr (inl (code, dead)) ↦ simp (closed, dead) (now (died closed dead refl))
    | inr (inr alive) ↦ elim (Bool-cases (ltb two_minutes (probe.elapsed n))) [
      | inl over ↦ simp (closed, alive, over) (now (late closed alive (ground arith) refl))
      | inr in_time ↦
          simp (closed, alive, in_time)
            (later (record { unconnected = closed; alive = alive; in_time = ground arith })
              (await_start-Ending probe fuel (suc n) (simp (closed, alive, in_time) at h)))
    ]
  ]
]

-- The loop ends in the first round that is not waiting, by what the harness sees in it: it has
-- started only when the port accepts a connection, it fails with the exit of the process only when
-- the process has exited, and it gives up only after two minutes. (Each round sleeps for 50
-- milliseconds.)
pub await_start_first : (probe : Probe) → Sleeps probe → Ending probe (await_start probe 2402 0) 0
await_start_first probe sleeps = await_start-Ending probe 2402 0 (await_start_total probe sleeps)

-- A test gets a response exactly when the request is answered and the process runs both before and
-- after it.
pub make_http_request-eq-response_iff :
    {A : Type 0} (before after : Status) (sent : Sent A) (r : A)
    → (make_http_request before sent after ≡ response r)
      ↔ ((before ≡ running) × (sent ≡ answered r) × (after ≡ running))
unfolding make_http_request
make_http_request-eq-response_iff (wait_error e) after sent r = (λ h. cc, λ h. cc)
make_http_request-eq-response_iff (exited code) after sent r = (λ h. cc, λ h. cc)
make_http_request-eq-response_iff running after (unanswered e) r = (λ h. cc, λ h. cc)
make_http_request-eq-response_iff running (wait_error e) (answered a) r = (λ h. cc, λ h. cc)
make_http_request-eq-response_iff running (exited code) (answered a) r = (λ h. cc, λ h. cc)
make_http_request-eq-response_iff running running (answered a) r =
    (λ h. (refl, ground arith, refl), λ h. ground arith)
