-- ===== src/Tests/Harness.antt =====
-- The theorems on the conformance tests at concrete inputs.
use containerd_shim_spin.Prelude.{ℕ, ◌<◌, ◌≡◌, refl, [], ◌∷◌, arith, ltb, if◌then◌else◌}
use containerd_shim_spin.Conformance.Shim.{run_test}
use containerd_shim_spin.Conformance.Cleanup.{alive}
use containerd_shim_spin.Conformance.Processes.{alive-run_test}
use containerd_shim_spin.Conformance.Main.{RunTests}
use containerd_shim_spin.Conformance.Machine.{returned, good, pure, ◌>>=◌}
use containerd_shim_spin.Conformance.Success.{IsWorking, run_test_passes}
use containerd_shim_spin.Exec.{ok}
use containerd_shim_spin.Integration.{Transfer, Curl, fetched, retry_get}
use containerd_shim_spin.Integration.Retries.{IsFetched, retry_get-IsFetched}
use containerd_shim_spin.Samples.Services.{sample_machine, sample_test}
use containerd_shim_spin.Conformance.{
  http_echo, key_value_store, unsupported_label, services_for, await_start,
}
use containerd_shim_spin.Conformance.Services.{services_for-eq-selection}
use containerd_shim_spin.Conformance.Startup.{Sleeps, IsWaiting, Ending, await_start_first}
use containerd_shim_spin.Samples.{third_look}

services_for-eq-selection_example :
    services_for (http_echo ∷ key_value_store "other" ∷ http_echo ∷ []) ≡ unsupported_label "other"
services_for-eq-selection_example =
    services_for-eq-selection (http_echo ∷ key_value_store "other" ∷ http_echo ∷ [])

third_look-Sleeps : Sleeps third_look
third_look-Sleeps n = omega arith

await_start_first_example : Ending third_look (await_start third_look 2402 0) 0
await_start_first_example = await_start_first third_look third_look-Sleeps

alive-run_test_example :
    alive (run_test sample_machine sample_test "/usr/bin/spin" "/usr/bin/ctr" []).1 ≡ alive []
alive-run_test_example = alive-run_test sample_machine sample_test "/usr/bin/spin" "/usr/bin/ctr" []

third_look-IsWaiting : (n : ℕ) → n < 2 → IsWaiting third_look n
third_look-IsWaiting n early = record {
  unconnected = ground arith;
  alive = refl;
  in_time = omega arith;
}

sample_machine-IsWorking : IsWorking sample_machine
sample_machine-IsWorking = record {
  boots = λ log services. refl;
  reads_manifest = λ log path. (path, refl);
  fills = λ log manifest. (manifest, refl);
  stores_files = λ log path contents. (refl, refl);
  has_registry = λ log. (5000, refl);
  pushes = λ log cmd. refl;
  pulls = λ log cmd. refl;
  has_port = λ log. (8080, refl);
  spawns = λ log cmd. (7, refl);
  comes_up = λ log process port. record {
    sleeps = third_look-Sleeps;
    opens = (2, refl, third_look-IsWaiting);
  };
  goes_on = λ log process. refl;
  substitutes = λ log invocation. (invocation, refl);
  answers = λ log log' process invocation request asked. (request, refl, refl);
}

run_test_passes_example :
    (run_test sample_machine sample_test "/usr/bin/spin" "/usr/bin/ctr" []).0 ≡ returned tt
run_test_passes_example =
    run_test_passes sample_machine sample_machine-IsWorking sample_test "/usr/bin/spin"
      "/usr/bin/ctr" [] refl ("app.wasm", refl)

-- A workload that is served at the third request.
abbrev transfer_of : ℕ → Transfer
transfer_of code = record {
  write_function = ok tt;
  perform = ok tt;
  response_code = ok code;
  received = 72 ∷ 105 ∷ [];
}

abbrev third_try : Curl
third_try = record {
  set_url = λ url. ok tt;
  transfer = λ n. transfer_of (if ltb n 2 then 503 else 200);
}

retry_get-IsFetched_example :
    IsFetched third_try "localhost" 5 10 (ok tt) (retry_get third_try "localhost" 5 10)
retry_get-IsFetched_example =
    retry_get-IsFetched third_try "localhost" 5 10 (omega arith) (omega arith)

third_try_test : (retry_get third_try "localhost" 5 10).0 ≡ fetched (72 ∷ 105 ∷ [])
unfolding retry_get containerd_shim_spin.Integration.retry_from
third_try_test = refl

-- A suite of one test.
abbrev one_test : RunTests
one_test version run = run sample_test >>= λ _. pure (good tt)
