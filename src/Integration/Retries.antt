-- ===== src/Integration/Retries.antt =====
-- How `retry_get` of tests/src/integration_test.rs ends, and how often it asks.
use containerd_shim_spin.Prelude.{
  ℕ, zero, suc, ◌+◌, ◌*◌, ◌/◌, ◌-◌, ◌<◌, ◌≤◌, String, ◌≡◌, refl, ◌⊎◌, List, [], ◌∷◌, eqb, ltb,
  arith, Bool-cases, inl, inr, if_cases,
}
use containerd_shim_spin.Oci.{Bytes}
use containerd_shim_spin.Exec.{Error, Result, ok, err}
use containerd_shim_spin.Integration.{
  Transfer, Curl, Step, requested, slept, fetched, gave_up, refused, Run, u32_max, body_of,
  with_code, end_of_round, round, next_round, retry_from, with_url, retry_get,
}

-- A transfer whose body is the answer: curl has no error, and the response code is 2xx.
pub data IsServed (t : Transfer) (body : Bytes) : Type 0 where
  served :
      (code : ℕ)
      → t.write_function ≡ ok tt
      → t.perform ≡ ok tt
      → t.response_code ≡ ok code
      → 200 ≤ code
      → code < 300
      → t.received ≡ body
      → IsServed t body

-- A transfer that is repeated: it has failed, or its response code is not 2xx.
pub data IsRepeated (t : Transfer) : Type 0 where
  unperformed :
      (e : Error) (code : ℕ)
      → t.write_function ≡ ok tt
      → t.perform ≡ err e
      → t.response_code ≡ ok code
      → IsRepeated t
  unserved :
      (code : ℕ)
      → t.write_function ≡ ok tt
      → t.perform ≡ ok tt
      → t.response_code ≡ ok code
      → (code < 200) ⊎ (300 ≤ code)
      → IsRepeated t

-- What a run of the loop is from the counter `i` on: which transfers there are, and what they come to.
pub data IsRetried (curl : Curl) (url : String) (times secs : ℕ) : ℕ → Run → Type 0 where
  answered :
      {i : ℕ} {body : Bytes}
      → IsServed (curl.transfer i) body
      → IsRetried curl url times secs i (fetched body, requested ∷ [])
  unregistered :
      {i : ℕ} {e : Error}
      → (curl.transfer i).write_function ≡ err e
      → IsRetried curl url times secs i (refused e, [])
  uncoded :
      {i : ℕ} {e : Error}
      → (curl.transfer i).write_function ≡ ok tt
      → (curl.transfer i).response_code ≡ err e
      → IsRetried curl url times secs i (refused e, requested ∷ [])
  last :
      {i : ℕ}
      → IsRepeated (curl.transfer i)
      → suc i ≡ times
      → IsRetried curl url times secs i (gave_up url, requested ∷ [])
  again :
      {i : ℕ} {run : Run}
      → IsRepeated (curl.transfer i)
      → suc i < times
      → IsRetried curl url times secs (suc i) run
      → IsRetried curl url times secs i (run.0, requested ∷ slept secs ∷ run.1)

abbrev pub requests : List Step → ℕ
requests [] = 0
requests (requested ∷ steps) = suc (requests steps)
requests (slept _ ∷ steps) = requests steps

abbrev pub seconds : List Step → ℕ
seconds [] = 0
seconds (requested ∷ steps) = seconds steps
seconds (slept secs ∷ steps) = secs + seconds steps

module _ (curl : Curl) (url : String) (times secs : ℕ) where
  abbrev From : ℕ → Run → Type 0
  From i run = IsRetried curl url times secs i run

  -- A round whose rest, if it is reached, is a run of the loop.
  module _ (i : ℕ) (rest : Run) (more : i < times) (bound : times ≤ u32_max)
      (k : suc i < times → From (suc i) rest) where
    abbrev next : Run
    next = next_round url times secs i rest

    abbrev Asked : Run → Type 0
    Asked run = From i (run.0, requested ∷ run.1)

    next_round-Asked : IsRepeated (curl.transfer i) → Asked next
    next_round-Asked repeated =
        if_cases Asked (eqb i u32_max) _ _ (λ over. absurd (ground arith))
          λ _.
            if_cases Asked (eqb (suc i) times) _ _ (λ same. last repeated (ground arith))
              λ other. let left : suc i < times = ground arith in again repeated left (k left)

    code-Asked :
        (code : ℕ)
        → (curl.transfer i).write_function ≡ ok tt
        → (curl.transfer i).perform ≡ ok tt
        → (curl.transfer i).response_code ≡ ok code
        → Asked (end_of_round (ok (body_of (ok tt) code (curl.transfer i).received)) next)
    code-Asked code registered performed coded =
        if_cases (λ body. Asked (end_of_round (ok body) next)) (eqb (code / 100) 2) _ _
          (λ success.
            answered (served code registered performed coded (ground arith) (ground arith) refl))
          λ other. next_round-Asked (
            unserved code registered performed coded (elim (Bool-cases (ltb code 200)) [
              | inl low ↦ inl (ground arith)
              | inr high ↦ inr (ground arith)
            ]))

    perform-Asked :
        (res : Result Unit) (code : Result ℕ)
        → (curl.transfer i).write_function ≡ ok tt
        → (curl.transfer i).perform ≡ res
        → (curl.transfer i).response_code ≡ code
        → Asked (end_of_round (with_code code res (curl.transfer i).received) next)
    perform-Asked res (err e) registered performed coded = uncoded registered coded
    perform-Asked (err e) (ok code) registered performed coded =
        next_round-Asked (unperformed e code registered performed coded)
    perform-Asked (ok _) (ok code) registered performed coded =
        code-Asked code registered performed coded

    round-From :
        (registered : Result Unit)
        → (curl.transfer i).write_function ≡ registered
        → From i (round registered (curl.transfer i) next)
    round-From (err e) same = unregistered same
    round-From (ok _) same = perform-Asked _ _ same refl refl

  retry_from-From :
      (fuel i : ℕ)
      → i + fuel ≡ times
      → 0 < fuel
      → times ≤ u32_max
      → From i (retry_from curl url times secs fuel i)
  unfolding retry_from
  retry_from-From zero i whole some_fuel bound = absurd (omega arith)
  retry_from-From (suc fuel) i whole some_fuel bound =
      round-From i _ (omega arith) bound
        (λ left. retry_from-From fuel (suc i) (omega arith) (omega arith) bound) _ refl

  requests-le :
      (i : ℕ) (run : Run)
      → From i run
      → i < times
      → (i + requests run.1 ≤ times) × (seconds run.1 ≤ (times - 1 - i) * secs)
  requests-le i run (answered _) more = (omega arith, omega arith)
  requests-le i run (unregistered _) more = (omega arith, omega arith)
  requests-le i run (uncoded _ _) more = (omega arith, omega arith)
  requests-le i run (last _ _) more = (omega arith, omega arith)
  requests-le i run (again _ left rest) more =
      let (asked, paused) = requests-le (suc i) _ rest left in
      let pause : times - 1 - i ≡ suc (times - 1 - suc i) = omega arith in
      (omega arith, rw pause (omega (arith, paused)))

  abbrev pub IsFetched : Result (Unit {0}) → Run → Type 0
  IsFetched (err e) run = run ≡ (refused e, [])
  IsFetched (ok _) run =
      From 0 run × (requests run.1 ≤ times) × (seconds run.1 ≤ (times - 1) * secs)

  with_url-IsFetched :
      (url_set : Result Unit)
      → 0 < times
      → times ≤ u32_max
      → IsFetched url_set (with_url curl url times secs url_set)
  with_url-IsFetched (err e) some_times bound = refl
  with_url-IsFetched (ok _) some_times bound =
      let run = retry_from-From times 0 (omega arith) some_times bound in
      let (asked, paused) = requests-le 0 _ run some_times in
      let all_pauses : times - 1 - 0 ≡ times - 1 = omega arith in
      (run, omega (arith, asked), rw all_pauses at paused)

  -- When `retry_times` is at least one and a `u32`, `retry_get` ends. An error of curl on its URL, its write
  -- function or its response code ends it at once; a transfer that fails is repeated. Otherwise it
  -- returns the body of the first transfer that succeeds with a 2xx response code, and gives up
  -- only when `retry_times` transfers have all been repeated. It makes at most `retry_times`
  -- requests and sleeps for at most `retry_times - 1` intervals.
  pub retry_get-IsFetched :
      0 < times → times ≤ u32_max → IsFetched (curl.set_url url) (retry_get curl url times secs)
  unfolding retry_get
  retry_get-IsFetched some_times bound = with_url-IsFetched (curl.set_url url) some_times bound
