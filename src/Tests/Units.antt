-- ===== src/Tests/Units.antt =====
-- The unit tests beside the shim's code, on the sample host.
use containerd_shim_spin.Prelude.{◌≡◌, refl, Bool, true, [], ◌∷◌, all, if◌then◌else◌}
use containerd_shim_spin.Exec.{err, external, ok}
use containerd_shim_spin.Host.{Host}
use containerd_shim_spin.UnitTests.Sources.{source_tests}
use containerd_shim_spin.UnitTests.Passing.{AreApart, source_tests_pass}
use containerd_shim_spin.UnitTests.Helpers.{
  test_configure_application_variables_from_environment_variables, can_parse_spin_address,
  is_wasm_content_test, precompile, precompile_rejects_oci_layer_with_precompiled_bytes,
}
use containerd_shim_spin.Samples.{host, cache, start}
use containerd_shim_spin.Tests.{host-IsHealthy}

host-AreApart : AreApart host
host-AreApart = record {
  application_wasm = refl;
  application_package = refl;
  application_data = refl;
  data_wasm = refl;
  data_package = refl;
  unknown_application = refl;
  unknown_data = refl;
  unknown_archive = refl;
}

source_tests-host : all (λ passed. passed) (source_tests host cache start) ≡ true
source_tests-host = source_tests_pass host cache (host-IsHealthy cache) host-AreApart start refl

configure_test : test_configure_application_variables_from_environment_variables ≡ true
unfolding containerd_shim_spin.Env.var containerd_shim_spin.Prelude.Maps.lookup
    containerd_shim_spin.Utils.configure_application_variables_from_environment_variables
    containerd_shim_spin.Exec.◌>>=◌ containerd_shim_spin.Text.to_ascii_uppercase
    containerd_shim_spin.Exec.set_var containerd_shim_spin.Env.is_settable
    containerd_shim_spin.Text.holds_char containerd_shim_spin.Env.put_var
    containerd_shim_spin.Prelude.Maps.insert
configure_test = refl

address_test : can_parse_spin_address host start ≡ true
unfolding containerd_shim_spin.Utils.parse_addr containerd_shim_spin.Exec.◌>>=◌
    containerd_shim_spin.Exec.call
address_test = refl

content_test : is_wasm_content_test host ≡ true
unfolding containerd_shim_spin.Utils.is_wasm_content
content_test = refl

precompile_test : precompile host (3 ∷ []) (9 ∷ 3 ∷ []) ≡ true
unfolding containerd_shim_spin.Engine.Compiler.compile containerd_shim_spin.Utils.is_wasm_content
precompile_test = refl

-- `spin_componentize` takes no serialized component.
abbrev strict_host : Host
strict_host = record host {
  componentize_if_necessary =
      λ bytes. if host.detect_precompiled bytes then err (external "no component") else ok bytes;
}

rejects_test : precompile_rejects_oci_layer_with_precompiled_bytes strict_host (9 ∷ 3 ∷ []) ≡ true
unfolding containerd_shim_spin.Engine.Compiler.compile containerd_shim_spin.Utils.is_wasm_content
rejects_test = refl
