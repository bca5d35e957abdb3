-- ===== src/UnitTests/Passing.antt =====
-- The unit tests of containerd-shim-spin/src/source.rs on any host.
use containerd_shim_spin.Prelude.{
  Option-cases, ◌≡◌, refl, true, false, none, List, [], ◌∷◌, ◌++◌, arith, all, any, eq_refl, inl,
  inr, ◌==◌,
}
use containerd_shim_spin.Prelude.Maps.{lookup}
use containerd_shim_spin.Oci.{oci_layer_media_type_wasm, oci_layer_media_type_wasm_wkg}
use containerd_shim_spin.Exec.{
  Call, write_wasm, World, pure, fail, await, call, with_context, ◌>>=◌,
}
use containerd_shim_spin.Host.{Host, Cache, read_file}
use containerd_shim_spin.Source.{
  from_entry, handle_layers, handle_layer, store_wasm, store_data, store_package, to_locked_app,
}
use containerd_shim_spin.Source.Success.{IsHealthy}
use containerd_shim_spin.UnitTests.{test_digest}
use containerd_shim_spin.UnitTests.Sources.{
  wasm_header, writes_wasm, from_ctx_file_source_returns_spin_manifest_path,
  from_ctx_oci_empty_layers_returns_oci_spin, from_ctx_oci_unknown_media_type_returns_oci_spin,
  from_ctx_oci_wasm_layer_writes_to_cache_and_returns_oci_spin,
  from_ctx_oci_data_layer_writes_to_cache_and_returns_oci_spin,
  from_ctx_oci_wkg_single_layer_returns_oci_wkg_in_cache,
  from_ctx_oci_wkg_multiple_layers_returns_error,
  to_locked_app_oci_spin_without_spin_json_returns_error, source_tests,
}

-- The media types of `spin_oci` are none of the others that the tests use.
pub record AreApart (H : Host) : Type 0 where
  pub application_wasm : (oci_layer_media_type_wasm == H.spin_application_media_type) ≡ false
  pub application_package : (oci_layer_media_type_wasm_wkg == H.spin_application_media_type) ≡ false
  pub application_data : (H.data_mediatype == H.spin_application_media_type) ≡ false
  pub data_wasm : (H.data_mediatype == oci_layer_media_type_wasm) ≡ false
  pub data_package : (H.data_mediatype == oci_layer_media_type_wasm_wkg) ≡ false
  pub unknown_application : ("application/unknown+type" == H.spin_application_media_type) ≡ false
  pub unknown_data : ("application/unknown+type" == H.data_mediatype) ≡ false
  pub unknown_archive : ("application/unknown+type" == H.archive_mediatype) ≡ false

written :
    (calls : List Call)
    → any (writes_wasm test_digest) (calls ++ write_wasm wasm_header test_digest ∷ []) ≡ true
written [] = refl
written (c ∷ calls) = ground (arith, written calls)

module _ (H : Host) (cache : Cache) (G : IsHealthy H cache) (S : AreApart H) (w : World)
    (quiet : w.signal ≡ none) where
  file_passes : from_ctx_file_source_returns_spin_manifest_path H cache w ≡ true
  unfolding from_entry pure
  file_passes = refl

  empty_passes : from_ctx_oci_empty_layers_returns_oci_spin H cache w ≡ true
  unfolding from_entry handle_layers pure
  empty_passes = refl

  unknown_passes : from_ctx_oci_unknown_media_type_returns_oci_spin H cache w ≡ true
  unfolding from_entry handle_layers handle_layer pure ◌>>=◌
  unknown_passes = simp (S.unknown_application, S.unknown_data, S.unknown_archive) refl

  wasm_passes : from_ctx_oci_wasm_layer_writes_to_cache_and_returns_oci_spin H cache w ≡ true
  unfolding from_entry handle_layers handle_layer store_wasm pure ◌>>=◌ await call
  wasm_passes = simp (S.application_wasm, quiet, G.stores_wasm) (written w.calls)

  data_passes : from_ctx_oci_data_layer_writes_to_cache_and_returns_oci_spin H cache w ≡ true
  unfolding from_entry handle_layers handle_layer store_data pure ◌>>=◌ await call
  data_passes =
      simp (S.application_data, S.data_wasm, S.data_package, eq_refl, quiet, G.stores_data) refl

  package_passes : from_ctx_oci_wkg_single_layer_returns_oci_wkg_in_cache H cache w ≡ true
  unfolding from_entry handle_layers handle_layer store_package pure ◌>>=◌ await call
  package_passes = simp (S.application_package, quiet, G.stores_wasm, eq_refl) (written w.calls)

  packages_passes : from_ctx_oci_wkg_multiple_layers_returns_error H cache w ≡ true
  unfolding from_entry handle_layers handle_layer store_package pure fail ◌>>=◌ await call
  packages_passes = simp (S.application_package, quiet, G.stores_wasm) refl

  missing_passes : to_locked_app_oci_spin_without_spin_json_returns_error H cache w ≡ true
  unfolding to_locked_app read_file with_context await ◌>>=◌
  missing_passes = elim (Option-cases (lookup "/spin.json" w.files)) [
    | inl missing ↦
        simp (to_locked_app_oci_spin_without_spin_json_returns_error, missing, quiet) refl
    | inr (bytes, there) ↦ rw (to_locked_app_oci_spin_without_spin_json_returns_error, there) refl
  ]

  -- The unit tests of `Source` hold of the model: on every host where storing a layer does not fail
  -- and `spin_oci`'s media types are none of the others that the tests use, whatever the process has
  -- done before, if no signal comes.
  pub source_tests_pass : all (λ passed. passed) (source_tests H cache w) ≡ true
  source_tests_pass =
      simp
        (
          file_passes, empty_passes, unknown_passes, wasm_passes, data_passes, package_passes,
          packages_passes, missing_passes,
        )
        refl
