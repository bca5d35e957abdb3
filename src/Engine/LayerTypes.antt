-- ===== src/Engine/LayerTypes.antt =====
-- The layer types that `SpinShim` of containerd-shim-spin/src/engine.rs asks for, against those that
-- the loader of images and the compiler act on.
use containerd_shim_spin.Prelude.{ℕ, ◌≡◌, refl, Bool, false, none, arith, eq_comm}
use containerd_shim_spin.Oci.{
  MediaType, other, known, WasmLayer, oci_layer_media_type_wasm, oci_layer_media_type_wasm_wkg,
}
use containerd_shim_spin.Exec.{World, returned, pure}
use containerd_shim_spin.Host.{Host, Cache}
use containerd_shim_spin.Utils.{is_wasm_type}
use containerd_shim_spin.Source.{handle_layer}
use containerd_shim_spin.Trigger.{contains}
use containerd_shim_spin.Engine.{supported_layers_types}

-- Whether the shim asks for layers of this type.
abbrev pub is_asked_for : Host → MediaType → Bool
is_asked_for H (known _) = false
is_asked_for H (other name) = contains (supported_layers_types H) name

-- A layer of a type that the shim does not ask for is no Wasm content for the compiler, and the
-- loader of images passes over it: nothing changes.
pub handle_layer_unasked :
    (H : Host) (cache : Cache) (layers : ℕ) (layer : WasmLayer) (type : MediaType) (w : World)
    → is_asked_for H type ≡ false
    → (is_wasm_type type ≡ false) × (handle_layer H cache layers layer type w ≡ (returned none, w))
unfolding handle_layer supported_layers_types is_wasm_type pure
handle_layer_unasked H cache layers layer (known _) w h = (refl, refl)
handle_layer_unasked H cache layers layer (other name) w h =
    let not_spin = eq_comm name H.spin_application_media_type in
    let not_wasm = eq_comm name oci_layer_media_type_wasm in
    let not_package = eq_comm name oci_layer_media_type_wasm_wkg in
    let not_data = eq_comm name H.data_mediatype in
    let not_archive = eq_comm name H.archive_mediatype in (ground arith, ground arith)
