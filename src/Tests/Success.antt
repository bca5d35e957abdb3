-- ===== src/Tests/Success.antt =====
-- The theorems on runs that come to their end, on the sample host.
use containerd_shim_spin.Prelude.{some, ◌≡◌, refl, [], ◌∷◌, ◌==◌, inl, inr, Bool-cases}
use containerd_shim_spin.Prelude.Maps.{lookup}
use containerd_shim_spin.Text.{holds_char, to_ascii_uppercase, split_once}
use containerd_shim_spin.Env.{var, is_settable}
use containerd_shim_spin.Exec.{returned}
use containerd_shim_spin.Exec.Total.{IsClean}
use containerd_shim_spin.Trigger.{supported_triggers}
use containerd_shim_spin.Engine.{run_wasi, wasm_exec_async}
use containerd_shim_spin.Engine.Success.{wasm_exec_async_succeeds, run_wasi_succeeds}
use containerd_shim_spin.Engine.Success.Up.{IsRunnable, IsUp}
use containerd_shim_spin.Samples.{world_of, host, start, cached_context, cached_image, two_triggers}
use containerd_shim_spin.Tests.{host-IsLawful, host-IsHealthy}

start-IsClean : IsClean start.env
unfolding var lookup holds_char
start-IsClean name value held = elim (Bool-cases ("GREETING" == name)) [
  | inl same ↦ let e : "hi" ≡ value = cc (rw same at held) in rw (← e) refl
  | inr other ↦ elim (Bool-cases ("HOSTNAME" == name)) [
    | inl same ↦ let e : "pod" ≡ value = cc (rw (other, same) at held) in rw (← e) refl
    | inr apart ↦ cc (rw (other, apart) at held)
  ]
]

two_triggers-IsRunnable : IsRunnable host two_triggers
unfolding supported_triggers is_settable holds_char to_ascii_uppercase
two_triggers-IsRunnable = record { some_trigger = refl; all_supported = refl; nameable = refl }

host-IsUp : IsUp host
host-IsUp = record {
  opens_cache = λ w path. (_, refl);
  healthy = λ cache. host-IsHealthy cache;
  reads = λ w path. refl;
  resolves = λ w cache component. (component, refl);
  retains = λ w app names runnable. (app, refl, runnable);
  ready_telemetry = λ w. refl;
  ready_handler = λ w. refl;
  finds_address = λ w addr. (_, _, refl);
  makes_trigger = λ w kind args app. refl;
  starts_trigger = λ w launch. (_, refl);
  ends_well = λ w f futures. refl;
}

wasm_exec_async_succeeds_example : (wasm_exec_async host cached_context start).0 ≡ returned tt
wasm_exec_async_succeeds_example =
    wasm_exec_async_succeeds host host-IsUp host-IsLawful cached_context cached_image (1 ∷ 2 ∷ [])
      two_triggers refl refl refl refl two_triggers-IsRunnable start refl start-IsClean

-- The signal comes while the application is loaded.
run_wasi_succeeds_example : (run_wasi host cached_context (world_of (some 6))).0 ≡ returned 0
unfolding is_settable holds_char split_once
run_wasi_succeeds_example =
    run_wasi_succeeds host host-IsUp host-IsLawful cached_context cached_image (1 ∷ 2 ∷ [])
      two_triggers refl refl refl refl two_triggers-IsRunnable (world_of (some 6)) refl
      start-IsClean
