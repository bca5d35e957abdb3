-- ===== src/UnitTests/Sources.antt =====
-- The unit tests of containerd-shim-spin/src/source.rs: for `Source::from_ctx` each, and for
-- `Source::to_locked_app` the one on a missing `/spin.json`.
use containerd_shim_spin.Prelude.{
  String, Bool, true, false, ◌&&◌, none, some, List, [], ◌∷◌, any, ◌==◌,
}
use containerd_shim_spin.Prelude.Maps.{lookup}
use containerd_shim_spin.Oci.{
  Bytes, WasmLayer, Entry, oci, RuntimeContext, oci_layer_media_type_wasm,
  oci_layer_media_type_wasm_wkg, spin_manifest_file_path,
}
use containerd_shim_spin.App.{LockedApp}
use containerd_shim_spin.Exec.{
  expected_single_layer, Outcome, returned, failed, Call, write_wasm, World,
}
use containerd_shim_spin.Host.{Host, Cache}
use containerd_shim_spin.Source.{Source, file, oci_spin, oci_wkg, from_ctx, to_locked_app}
use containerd_shim_spin.UnitTests.{test_digest, make_layer}

abbrev pub mock_file_context : RuntimeContext
mock_file_context = record { args = []; envs = []; entrypoint = Entry.file "/some/module.wasm" }

abbrev pub mock_oci_context : List WasmLayer → RuntimeContext
mock_oci_context layers = record { args = []; envs = []; entrypoint = oci layers }

-- A header of a Wasm binary: magic and version.
abbrev pub wasm_header : Bytes
wasm_header = 0 ∷ 97 ∷ 115 ∷ 109 ∷ 1 ∷ 0 ∷ 0 ∷ 0 ∷ []

abbrev is_file_at : String → Outcome Source → Bool
is_file_at path (returned (file found)) = found == path
is_file_at path _ = false

abbrev is_oci_spin : Outcome Source → Bool
is_oci_spin (returned oci_spin) = true
is_oci_spin _ = false

abbrev is_oci_wkg_at : String → Outcome Source → Bool
is_oci_wkg_at path (returned (oci_wkg found)) = found == path
is_oci_wkg_at path _ = false

abbrev is_single_layer_error : Outcome Source → Bool
is_single_layer_error (failed (expected_single_layer layers)) = true
is_single_layer_error _ = false

abbrev pub is_failed : Outcome LockedApp → Bool
is_failed (failed e) = true
is_failed _ = false

-- Whether the layer with this digest has been written to the cache.
abbrev pub writes_wasm : String → Call → Bool
writes_wasm digest (write_wasm bytes found) = found == digest
writes_wasm digest _ = false

abbrev pub is_written : World → Bool
is_written w = any (writes_wasm test_digest) w.calls

module _ (H : Host) (cache : Cache) (w : World) where
  abbrev pub from_ctx_file_source_returns_spin_manifest_path : Bool
  from_ctx_file_source_returns_spin_manifest_path =
      is_file_at spin_manifest_file_path (from_ctx H cache mock_file_context w).0

  abbrev pub from_ctx_oci_empty_layers_returns_oci_spin : Bool
  from_ctx_oci_empty_layers_returns_oci_spin =
      is_oci_spin (from_ctx H cache (mock_oci_context []) w).0

  abbrev pub from_ctx_oci_unknown_media_type_returns_oci_spin : Bool
  from_ctx_oci_unknown_media_type_returns_oci_spin =
      is_oci_spin
        (from_ctx H cache (mock_oci_context (make_layer "application/unknown+type" [] ∷ [])) w).0

  abbrev pub from_ctx_oci_wasm_layer_writes_to_cache_and_returns_oci_spin : Bool
  from_ctx_oci_wasm_layer_writes_to_cache_and_returns_oci_spin =
      let layer = make_layer oci_layer_media_type_wasm wasm_header in
      let (source, w') = from_ctx H cache (mock_oci_context (layer ∷ [])) w in
      is_oci_spin source && is_written w'

  abbrev pub from_ctx_oci_data_layer_writes_to_cache_and_returns_oci_spin : Bool
  from_ctx_oci_data_layer_writes_to_cache_and_returns_oci_spin =
      is_oci_spin (from_ctx H cache (mock_oci_context (make_layer H.data_mediatype [] ∷ [])) w).0

  -- The path is the one that the cache has for the layer; where this is, is `spin_loader`'s affair.
  abbrev pub from_ctx_oci_wkg_single_layer_returns_oci_wkg_in_cache : Bool
  from_ctx_oci_wkg_single_layer_returns_oci_wkg_in_cache =
      let layer = make_layer oci_layer_media_type_wasm_wkg wasm_header in
      let (source, w') = from_ctx H cache (mock_oci_context (layer ∷ [])) w in
      is_oci_wkg_at (H.wasm_path cache test_digest) source && is_written w'

  abbrev pub from_ctx_oci_wkg_multiple_layers_returns_error : Bool
  from_ctx_oci_wkg_multiple_layers_returns_error =
      let layer = make_layer oci_layer_media_type_wasm_wkg wasm_header in
      is_single_layer_error (from_ctx H cache (mock_oci_context (layer ∷ layer ∷ [])) w).0

  -- The test passes where `/spin.json` exists.
  abbrev pub to_locked_app_oci_spin_without_spin_json_returns_error : Bool
  to_locked_app_oci_spin_without_spin_json_returns_error = elim (lookup "/spin.json" w.files) [
    | some _ ↦ true
    | none ↦ is_failed (to_locked_app H cache oci_spin w).0
  ]

  -- All of them.
  abbrev pub source_tests : List Bool
  source_tests =
      from_ctx_file_source_returns_spin_manifest_path ∷ from_ctx_oci_empty_layers_returns_oci_spin
      ∷ from_ctx_oci_unknown_media_type_returns_oci_spin
      ∷ from_ctx_oci_wasm_layer_writes_to_cache_and_returns_oci_spin
      ∷ from_ctx_oci_data_layer_writes_to_cache_and_returns_oci_spin
      ∷ from_ctx_oci_wkg_single_layer_returns_oci_wkg_in_cache
      ∷ from_ctx_oci_wkg_multiple_layers_returns_error
      ∷ to_locked_app_oci_spin_without_spin_json_returns_error ∷ []
