-- ===== src/Tests/Sources.antt =====
-- The theorems on the layers of an image and on the environment at concrete inputs.
use containerd_shim_spin.Prelude.{
  ℕ, zero, suc, String, ◌<>◌, ◌≡◌, ◌≢◌, ◌*◌, ◌↔◌, refl, Bool, true, false, Option, none, some, List,
  [], ◌∷◌, ◌++◌, length, any, all, All, arith, if◌then◌else◌, ◌==◌,
}
use containerd_shim_spin.Prelude.Maps.{lookup}
use containerd_shim_spin.Text.{split_once, split, parse_unsigned}
use containerd_shim_spin.Env.{var}
use containerd_shim_spin.Oci.{WasmLayer, oci}
use containerd_shim_spin.App.{LockedApp}
use containerd_shim_spin.Exec.{
  Outcome, returned, panicked, failed, empty_select, ok, err, external, unpack_archive, set_handler,
  World, unsupported_trigger, not_a_precompiled_component,
}
use containerd_shim_spin.Host.{Cache}
use containerd_shim_spin.Utils.{
  handle_archive_layer, configure_application_variables_from_environment_variables,
}
use containerd_shim_spin.Utils.Variables.{configure-var, configure-var_other}
use containerd_shim_spin.Utils.Archive.{handle_archive_layer_lem}
use containerd_shim_spin.Source.{Source, from_entry, oci_spin, oci_wkg}
use containerd_shim_spin.Source.Layers.{calls_of, config_of, Stores, is_package}
use containerd_shim_spin.Source.Images.{from_entry-oci_spin, from_entry-oci_wkg, from_entry_mixed}
use containerd_shim_spin.Source.Resolved.{IsResolved}
use containerd_shim_spin.Source.Manifest.{load_image-IsResolved}
use containerd_shim_spin.Source.{handle_layer}
use containerd_shim_spin.Samples.{
  wasm_layer, package_layer, spin_image, two_triggers, host, cache, start,
}

load_image-IsResolved_example :
    (decoded : LockedApp) × (host.from_json (1 ∷ 2 ∷ []) ≡ ok decoded)
    × IsResolved host cache decoded two_triggers
unfolding from_entry containerd_shim_spin.Source.to_locked_app containerd_shim_spin.Exec.◌>>=◌
    containerd_shim_spin.Source.handle_layer containerd_shim_spin.Source.store_config
    containerd_shim_spin.Host.create_file containerd_shim_spin.Host.write_all
    containerd_shim_spin.Source.store_wasm containerd_shim_spin.Exec.await
    containerd_shim_spin.Exec.call containerd_shim_spin.Host.read_file lookup
    containerd_shim_spin.Prelude.Maps.insert
load_image-IsResolved_example = load_image-IsResolved host cache spin_image start refl refl refl

from_entry-oci_spin_example :
    Stores start
      (calls_of host spin_image)
      (config_of host (lookup "/spin.json" start.files) spin_image)
      (from_entry host cache (oci spin_image) start).1
unfolding from_entry containerd_shim_spin.Exec.◌>>=◌ containerd_shim_spin.Source.handle_layer
    containerd_shim_spin.Source.store_config containerd_shim_spin.Host.create_file
    containerd_shim_spin.Host.write_all containerd_shim_spin.Source.store_wasm
    containerd_shim_spin.Exec.await containerd_shim_spin.Exec.call
from_entry-oci_spin_example = from_entry-oci_spin host cache spin_image start refl

from_entry-oci_wkg_example :
    (layer : WasmLayer) × (package_layer ∷ [] ≡ layer ∷ [])
    × (is_package layer ≡ true)
    × ("/.cache/registry/wasm/sha256:k" ≡ host.wasm_path cache layer.config.digest)
unfolding from_entry containerd_shim_spin.Exec.◌>>=◌ containerd_shim_spin.Source.handle_layer
    containerd_shim_spin.Source.store_package containerd_shim_spin.Exec.await
    containerd_shim_spin.Exec.call
from_entry-oci_wkg_example =
    from_entry-oci_wkg host cache (package_layer ∷ []) start "/.cache/registry/wasm/sha256:k" refl

from_entry_mixed_example :
    ¬ ((from_entry host cache (oci (wasm_layer ∷ package_layer ∷ [])) start).0 ≡ returned oci_spin)
from_entry_mixed_example =
    from_entry_mixed host cache (wasm_layer ∷ package_layer ∷ []) start oci_spin refl refl (λ e. cc)

abbrev configured : World
configured = (configure_application_variables_from_environment_variables two_triggers start).1

configure-var_example : var configured.env "SPIN_VARIABLE_GREETING" ≡ some "hi"
unfolding configure_application_variables_from_environment_variables var
    containerd_shim_spin.Exec.◌>>=◌ lookup containerd_shim_spin.Text.to_ascii_uppercase
    containerd_shim_spin.Exec.set_var containerd_shim_spin.Env.is_settable
    containerd_shim_spin.Text.holds_char
configure-var_example = configure-var two_triggers start "greeting" refl refl refl

configure-var_other_example : var configured.env "HOSTNAME" ≡ var start.env "HOSTNAME"
unfolding configure_application_variables_from_environment_variables containerd_shim_spin.Exec.◌>>=◌
    var lookup containerd_shim_spin.Text.to_ascii_uppercase containerd_shim_spin.Exec.set_var
    containerd_shim_spin.Env.is_settable containerd_shim_spin.Text.holds_char
configure-var_other_example = configure-var_other two_triggers start "HOSTNAME" refl refl refl

abbrev unpacked : World
unpacked = (handle_archive_layer host cache (5 ∷ []) "sha256:a" start).1

handle_archive_layer_lem_example :
    (unpacked.calls ≡ [] ++ unpack_archive (5 ∷ []) "sha256:a" ∷ [])
    × (unpacked.files ≡ [])
    × (var unpacked.env "TMPDIR" ≡ some "/")
unfolding handle_archive_layer var containerd_shim_spin.Exec.◌>>=◌ lookup
    containerd_shim_spin.Exec.set_var containerd_shim_spin.Env.is_settable
    containerd_shim_spin.Text.holds_char containerd_shim_spin.Exec.await
    containerd_shim_spin.Exec.call
handle_archive_layer_lem_example =
    handle_archive_layer_lem host cache (5 ∷ []) "sha256:a" start "TMPDIR" refl
