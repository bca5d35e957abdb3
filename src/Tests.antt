-- ===== src/Tests.antt =====
-- The theorems at concrete inputs.
pub mod Handlers
pub mod Harness
pub mod Sources
pub mod Units
pub mod Success
pub mod Triggers
use mathlib.Core.List.Perm
use containerd_shim_spin.Prelude.{
  ◌⊎◌, all, ℕ, zero, suc, String, ◌<>◌, ◌≡◌, ◌≢◌, ◌*◌, ◌↔◌, refl, Bool, true, false, Option, none,
  some, List, [], ◌∷◌, ◌++◌, length, any, all, All, arith, if◌then◌else◌, ◌==◌,
}
use containerd_shim_spin.Prelude.Maps.{lookup}
use containerd_shim_spin.Text.{split_once, split, parse_unsigned}
use containerd_shim_spin.Text.Laws.{join, join-split, IsCut, split_once-IsCut, is_free, split_free}
use containerd_shim_spin.Text.Numbers.{below, written, parse_unsigned-eq-written}
use containerd_shim_spin.Env.{var}
use containerd_shim_spin.Oci.{WasmLayer, oci}
use containerd_shim_spin.App.{LockedApp}
use containerd_shim_spin.Exec.{
  Outcome, returned, panicked, failed, empty_select, ok, err, external, unpack_archive, set_handler,
  World, unsupported_trigger, not_a_precompiled_component, invalid_variable,
}
use containerd_shim_spin.Host.{Cache}
use containerd_shim_spin.Utils.{
  prefixed, handle_archive_layer, configure_application_variables_from_environment_variables,
}
use containerd_shim_spin.Utils.Variables.{configure-var, configure-var_other}
use containerd_shim_spin.Utils.Archive.{handle_archive_layer_lem}
use containerd_shim_spin.Source.{Source, from_entry, oci_spin, oci_wkg}
use containerd_shim_spin.Source.Layers.{calls_of, config_of, Stores, is_package}
use containerd_shim_spin.Source.Images.{from_entry-oci_spin, from_entry-oci_wkg, from_entry_mixed}
use containerd_shim_spin.Source.Resolved.{IsResolved}
use containerd_shim_spin.Source.Manifest.{load_image-IsResolved}
use containerd_shim_spin.Source.Success.{IsHealthy, from_entry_succeeds}
use containerd_shim_spin.Trigger.{get_supported_triggers}
use containerd_shim_spin.Trigger.Supported.{
  IsTypeSet, FirstUnsupported, get_supported_triggers-eq-ok, get_supported_triggers-eq-err,
}
use containerd_shim_spin.Engine.{set_envs, components_to_retain, run_wasi, run_trigger}
use containerd_shim_spin.Exec.Stages.{Ordered}
use containerd_shim_spin.Engine.Order.{run_wasi-Ordered}
use containerd_shim_spin.Engine.Aot.{run_wasi-IsGuarded}
use containerd_shim_spin.Engine.Aot.Image.{
  IsTrusted, is_of_image, IsGuarded, loader_aot-eq-true_iff,
}
use containerd_shim_spin.Engine.Compiler.{compile}
use containerd_shim_spin.Engine.Compiler.Answers.{
  Answers, FirstRefused, compile-eq-ok_iff, compile-eq-err,
}
use containerd_shim_spin.Engine.Panics.{IsLawful}
use containerd_shim_spin.Engine.Shutdown.{
  set_envs-first, IsUnsettable, entry_settable, name_of, set_envs-var, run_wasi_signalled,
}
use containerd_shim_spin.Oci.{other}
use containerd_shim_spin.Source.{handle_layer}
use containerd_shim_spin.Utils.{is_wasm_type}
use containerd_shim_spin.App.{Launch}
use containerd_shim_spin.Engine.{launch_all, loader_aot}
use containerd_shim_spin.Engine.Launches.{launches, Launched, launch_all-Launched}
use containerd_shim_spin.Engine.LayerTypes.{handle_layer_unasked}
use containerd_shim_spin.Engine.Triggers.{is_name, components_to_retain-is_name, run_trigger_empty}
use containerd_shim_spin.Samples.{
  config_layer, wasm_layer, broken_layer, package_layer, spin_image, cached_image, two_triggers,
  timer_app, app_of, host, cache, world_of, start, cached_context,
}

host-IsLawful : IsLawful host
host-IsLawful = record {
  hash_order_perm = λ types. Perm.refl types;
  select_in_range = λ w f futures. ground arith;
}

run_wasi-IsGuarded_example :
    All (IsGuarded (oci cached_image)) (run_wasi host cached_context start).1.calls
run_wasi-IsGuarded_example = run_wasi-IsGuarded host cached_context start refl

run_wasi-Ordered_example : Ordered 0 7 (run_wasi host cached_context start).1.calls
run_wasi-Ordered_example = run_wasi-Ordered host cached_context start refl

compile-eq-ok_iff_example :
    (compile host spin_image ≡ ok (none ∷ some (9 ∷ 3 ∷ []) ∷ []))
    ↔ Answers host spin_image (none ∷ some (9 ∷ 3 ∷ []) ∷ [])
compile-eq-ok_iff_example = compile-eq-ok_iff host spin_image (none ∷ some (9 ∷ 3 ∷ []) ∷ [])

compile-eq-err_example :
    FirstRefused host (config_layer ∷ broken_layer ∷ []) not_a_precompiled_component
unfolding compile containerd_shim_spin.Utils.is_wasm_content
compile-eq-err_example =
    compile-eq-err host (config_layer ∷ broken_layer ∷ []) not_a_precompiled_component refl

get_supported_triggers-eq-ok_example : IsTypeSet host two_triggers.triggers ("http" ∷ "redis" ∷ [])
unfolding get_supported_triggers containerd_shim_spin.Trigger.supported_triggers
get_supported_triggers-eq-ok_example =
    get_supported_triggers-eq-ok host two_triggers ("http" ∷ "redis" ∷ []) refl

get_supported_triggers-eq-err_example :
    FirstUnsupported host timer_app.triggers (unsupported_trigger "timer")
unfolding get_supported_triggers containerd_shim_spin.Trigger.supported_triggers
get_supported_triggers-eq-err_example =
    get_supported_triggers-eq-err host timer_app (unsupported_trigger "timer") refl

abbrev entries : List String
entries = "A=1" ∷ "B" ∷ "A=2=3" ∷ []

set_envs-first_example :
    (((set_envs entries start).0 ≡ returned tt) × (all entry_settable entries ≡ true))
    ⊎ ((v : String) × IsUnsettable entries v
        × ((set_envs entries start).0 ≡ panicked (invalid_variable (name_of v))))
set_envs-first_example = set_envs-first entries start

set_envs-var_example : var (set_envs entries start).1.env "A" ≡ some "2=3"
unfolding set_envs split_once containerd_shim_spin.Env.is_settable var
    containerd_shim_spin.Exec.◌>>=◌ containerd_shim_spin.Exec.set_var
    containerd_shim_spin.Text.holds_char
set_envs-var_example = set_envs-var entries start "A" refl

run_wasi_signalled_example :
    ((run_wasi host cached_context (world_of (some 0))).0 ≡ returned 0)
    × ((run_wasi host cached_context (world_of (some 0))).1.calls ≡ [] ++ set_handler ∷ [])
unfolding split_once containerd_shim_spin.Env.is_settable containerd_shim_spin.Text.holds_char
run_wasi_signalled_example =
    run_wasi_signalled host cached_context (world_of (some 0)) refl (λ _. refl) refl

run_trigger_empty_example :
    (get_supported_triggers host (app_of []) ≡ ok [])
    × ((run_trigger host cached_context [] (app_of []) oci_spin start).0 ≡ panicked empty_select)
run_trigger_empty_example =
    run_trigger_empty host cached_context (app_of []) oci_spin start (Perm.refl []) refl

handle_layer_unasked_example :
    (is_wasm_type (other "text/plain") ≡ false)
    × (handle_layer host cache 2 config_layer (other "text/plain") start ≡ (returned none, start))
unfolding containerd_shim_spin.Engine.supported_layers_types
handle_layer_unasked_example =
    handle_layer_unasked host cache 2 config_layer (other "text/plain") start refl

host-IsHealthy : (c : Cache) → IsHealthy host c
unfolding containerd_shim_spin.Env.is_settable containerd_shim_spin.Text.holds_char
host-IsHealthy c = record {
  creates = λ w path. refl;
  writes = λ w path bytes. refl;
  stores_wasm = λ w bytes digest. refl;
  stores_data = λ w bytes digest. refl;
  unpacks = λ w bytes digest. refl;
  has_dir = λ w. refl;
}

loader_aot-eq-true_iff_example :
    (loader_aot cached_context oci_spin ≡ true)
    ↔ (is_of_image oci_spin ≡ true × IsTrusted (oci cached_image))
loader_aot-eq-true_iff_example = loader_aot-eq-true_iff cached_context oci_spin
