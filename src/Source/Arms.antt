-- ===== src/Source/Arms.antt =====
-- The match on a layer's media type in `Source::from_ctx` of containerd-shim-spin/src/source.rs.
use containerd_shim_spin.Prelude.{ℕ, ◌≡◌, true, Option, none, if_cases, ◌==◌}
use containerd_shim_spin.Oci.{
  MediaType, other, known, WasmLayer, oci_layer_media_type_wasm, oci_layer_media_type_wasm_wkg,
}
use containerd_shim_spin.Exec.{Exec, pure}
use containerd_shim_spin.Host.{Host, Cache}
use containerd_shim_spin.Source.{
  Source, store_config, store_wasm, store_package, store_data, store_archive, handle_layer,
}
use containerd_shim_spin.Source.Layers.{is_package_type}

-- What holds of each arm holds of the match; only a layer of the type of packages reaches their arm.
pub handle_layer_cases :
    (H : Host) (cache : Cache) (layers : ℕ) (layer : WasmLayer) (type : MediaType)
    (Q : Exec (Option Source) → Type 0)
    → Q (store_config H cache layer)
    → Q (store_wasm H cache layer)
    → (is_package_type type ≡ true → Q (store_package H cache layers layer))
    → Q (store_data H cache layer)
    → Q (store_archive H cache layer)
    → Q (pure none)
    → Q (handle_layer H cache layers layer type)
unfolding handle_layer
handle_layer_cases H cache layers layer (known _) Q config wasm wkg bytes archive rest = rest
handle_layer_cases H cache layers layer (other name) Q config wasm wkg bytes archive rest =
    if_cases Q (name == H.spin_application_media_type) (store_config H cache layer) _ (λ _. config)
      λ _.
        if_cases Q (name == oci_layer_media_type_wasm) (store_wasm H cache layer) _ (λ _. wasm)
          λ _.
            if_cases Q (name == oci_layer_media_type_wasm_wkg) (store_package H cache layers layer)
              _ wkg
              λ _.
                if_cases Q (name == H.data_mediatype) (store_data H cache layer) _ (λ _. bytes)
                  λ _.
                    if_cases Q (name == H.archive_mediatype) (store_archive H cache layer)
                      (pure none) (λ _. archive) λ _. rest
