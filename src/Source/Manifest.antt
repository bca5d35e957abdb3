-- ===== src/Source/Manifest.antt =====
-- `Source::to_locked_app` of containerd-shim-spin/src/source.rs, after `from_ctx`: from which layer
-- the app of an image comes.
use containerd_shim_spin.Prelude.{
  String, ◌≡◌, refl, sym, ap, ◌∙◌, Option, none, some, List, [], ◌∷◌, arith, length, ◌==◌, ◌⊎◌, inl,
  inr, Bool-cases, false, true, eq_iff,
}
use mathlib.Core.Option.{some-injective}
use containerd_shim_spin.Prelude.Maps.{lookup}
use containerd_shim_spin.Oci.{
  Bytes, WasmLayer, MediaType, other, known, oci, oci_layer_media_type_wasm_wkg,
}
use containerd_shim_spin.App.{LockedApp}
use containerd_shim_spin.Exec.{
  ok, World, Exec, returned, ◌>>=◌, >>=-returned, lift-returned, with_context-returned, await,
  with_context, text,
}
use containerd_shim_spin.Host.{Host, Cache, read_file}
use containerd_shim_spin.Source.{Source, oci_spin, from_entry, to_locked_app}
use containerd_shim_spin.Source.Resolved.{IsResolved, resolve_all-IsResolved}
use containerd_shim_spin.Source.Layers.{config_of, config_after, is_package_type}
use containerd_shim_spin.Source.Images.{
  from_entry-oci_spin, from_entry-oci_wkg, handle_layers-source,
}

config_after-cases :
    (H : Host) (old : Option Bytes) (layer : WasmLayer) (type : MediaType)
    → (config_after H none layer type ≡ config_after H old layer type)
      ⊎ ((config_after H none layer type ≡ none) × (config_after H old layer type ≡ old))
config_after-cases H old layer (known _) = inr (refl, refl)
config_after-cases H old layer (other name) =
    elim (Bool-cases (name == H.spin_application_media_type)) [
      | inl same ↦ inl (rw same)
      | inr differ ↦ inr (rw differ, rw differ)
    ]

-- A configuration among the layers hides what was there before them.
pub config_of-some :
    (H : Host) (layers : List WasmLayer) (old : Option Bytes) {bytes : Bytes}
    → config_of H none layers ≡ some bytes
    → config_of H old layers ≡ some bytes
config_of-some H [] old h = cc
config_of-some H (layer ∷ layers) old h =
    elim (config_after-cases H old layer layer.config.media_type) [
      | inl same ↦ rw (← same) h
      | inr (absent, kept) ↦ rw kept (config_of-some H layers old (rw absent at h))
    ]

config_after-package :
    (H : Host) (layer : WasmLayer) (type : MediaType)
    → (H.spin_application_media_type == oci_layer_media_type_wasm_wkg) ≡ false
    → is_package_type type ≡ true
    → config_after H none layer type ≡ none
config_after-package H layer (known _) apart named = refl
config_after-package H layer (other name) apart named = ground (
  arith,
  eq_iff name oci_layer_media_type_wasm_wkg,
  eq_iff name H.spin_application_media_type,
  eq_iff H.spin_application_media_type oci_layer_media_type_wasm_wkg,
)

module _ (H : Host) (cache : Cache) where
  read_file-returned :
      (path : String) (w : World) {bytes : Bytes}
      → (with_context (text "failed to read from \"/spin.json\"") (await (read_file H path)) w).0
        ≡ returned bytes
      → lookup path w.files ≡ some bytes
  unfolding read_file await ◌>>=◌
  read_file-returned path w h = ground arith

  -- An app of an image is what `/spin.json` decodes to, with its components resolved.
  to_locked_app-IsResolved :
      (w : World) {bytes : Bytes} {app : LockedApp}
      → lookup "/spin.json" w.files ≡ some bytes
      → (to_locked_app H cache oci_spin w).0 ≡ returned app
      → (decoded : LockedApp) × (H.from_json bytes ≡ ok decoded) × IsResolved H cache decoded app
  unfolding to_locked_app
  to_locked_app-IsResolved w {app = app} stored h =
      let (content, read, whole) = >>=-returned _ _ w h in
      let (decoded, parsed, whole') = >>=-returned _ _ _ (sym (ap (λ r. r.0) whole) ∙ h) in
      let found = read_file-returned "/spin.json" w read in
      let decoding = lift-returned (H.from_json content) _ (with_context-returned _ _ _ parsed) in
      let resolved = sym (ap (λ r. r.0) whole') ∙ sym (ap (λ r. r.0) whole) ∙ h in
      (
        decoded,
        rw (some-injective _ _ (sym stored ∙ found)) decoding,
        resolve_all-IsResolved H cache decoded app _ resolved,
      )

  -- `from_ctx` and then `to_locked_app`, as `wasm_exec_async` does it.
  abbrev pub load_image : List WasmLayer → Exec LockedApp
  load_image layers = do source ← from_entry H cache (oci layers); to_locked_app H cache source

  -- The source of an image that holds a configuration.
  from_entry-eq-oci_spin :
      (layers : List WasmLayer) (w : World) (source : Source) {bytes : Bytes}
      → (H.spin_application_media_type == oci_layer_media_type_wasm_wkg) ≡ false
      → config_of H none layers ≡ some bytes
      → (from_entry H cache (oci layers) w).0 ≡ returned source
      → source ≡ oci_spin
  unfolding from_entry
  from_entry-eq-oci_spin layers w source apart last h =
      elim (handle_layers-source H cache (length layers) layers w source h) [
        | inl spin ↦ spin
        | inr (path, same) ↦
            let (layer, only, named, _) = from_entry-oci_wkg H cache layers w path (rw same at h) in
            cc (config_after-package H layer layer.config.media_type apart named, rw only at last)
      ]

  -- A Spin application that is loaded from an image is the one that the last configuration among the
  -- image's layers decodes to, with each of its components replaced by what the host resolves it to;
  -- an older `/spin.json` and earlier configurations have no effect. (The media type of Spin
  -- applications is not that of packages.)
  pub load_image-IsResolved :
      (layers : List WasmLayer) (w : World) {bytes : Bytes} {app : LockedApp}
      → (H.spin_application_media_type == oci_layer_media_type_wasm_wkg) ≡ false
      → config_of H none layers ≡ some bytes
      → (load_image layers w).0 ≡ returned app
      → (decoded : LockedApp) × (H.from_json bytes ≡ ok decoded) × IsResolved H cache decoded app
  load_image-IsResolved layers w apart last h =
      let (source, first, whole) = >>=-returned _ _ w h in
      let spin = from_entry-eq-oci_spin layers w source apart last first in
      let stored = from_entry-oci_spin H cache layers w (rw spin at first) in
      to_locked_app-IsResolved _
        (stored.config_kept ∙ config_of-some H layers (lookup "/spin.json" w.files) last)
        (rw spin at (sym (ap (λ r. r.0) whole) ∙ h))
