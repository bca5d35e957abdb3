-- ===== src/Source/Layers.antt =====
-- `Source::from_ctx` of containerd-shim-spin/src/source.rs: what is done for each layer of an image,
-- and which source results.
use containerd_shim_spin.Prelude.{
  ℕ, String, ◌≡◌, refl, Bool, true, false, Option, none, some, List, [], ◌∷◌, ◌++◌, arith,
  append-nil, if◌then◌else◌, ◌==◌, eq_iff, inl, inr, Bool-cases, eq_comm,
}
use containerd_shim_spin.Prelude.Maps.{lookup, insert, lookup-insert}
use containerd_shim_spin.Oci.{
  Bytes, MediaType, other, known, WasmLayer, oci_layer_media_type_wasm,
  oci_layer_media_type_wasm_wkg,
}
use containerd_shim_spin.Exec.{
  Call, write_wasm, write_data, unpack_archive, World, returned, ◌>>=◌, await, call, put_file,
  set_var,
}
use containerd_shim_spin.Host.{Host, Cache, create_file, write_all}
use containerd_shim_spin.Utils.{handle_archive_layer}
use containerd_shim_spin.Source.{
  Source, oci_wkg, store_config, store_wasm, store_package, store_data, store_archive, handle_layer,
}

module _ (H : Host) where
  -- The calls that a layer of this type asks for.
  abbrev pub named_calls : WasmLayer → String → List Call
  named_calls layer name =
      if name == H.spin_application_media_type
      then []
      else if name == oci_layer_media_type_wasm
      then write_wasm layer.layer layer.config.digest ∷ []
      else if name == oci_layer_media_type_wasm_wkg
      then write_wasm layer.layer layer.config.digest ∷ []
      else if name == H.data_mediatype
      then write_data layer.layer layer.config.digest ∷ []
      else if name == H.archive_mediatype
      then unpack_archive layer.layer layer.config.digest ∷ []
      else []

  abbrev pub calls_for : WasmLayer → MediaType → List Call
  calls_for layer (known _) = []
  calls_for layer (other name) = named_calls layer name

  -- The content of `/spin.json` after a layer of this type, from its content before it.
  abbrev pub config_after : Option Bytes → WasmLayer → MediaType → Option Bytes
  config_after old layer (known _) = old
  config_after old layer (other name) =
      if name == H.spin_application_media_type then some layer.layer else old

-- What an image's layers ask for, in their order.
abbrev pub calls_of : Host → List WasmLayer → List Call
calls_of H [] = []
calls_of H (layer ∷ layers) = calls_for H layer layer.config.media_type ++ calls_of H layers

abbrev pub config_of : Host → Option Bytes → List WasmLayer → Option Bytes
config_of H old [] = old
config_of H old (layer ∷ layers) =
    config_of H (config_after H old layer layer.config.media_type) layers

-- Whether the media type is that of a `wkg` package.
abbrev pub is_package_type : MediaType → Bool
is_package_type (known _) = false
is_package_type (other name) = name == oci_layer_media_type_wasm_wkg

abbrev pub is_package : WasmLayer → Bool
is_package layer = is_package_type layer.config.media_type

-- What an action that returns no source has done.
pub record Stores (w : World) (calls : List Call) (config : Option Bytes) (w' : World)
    : Type 0 where
  pub calls_made : w'.calls ≡ w.calls ++ calls
  pub config_kept : lookup "/spin.json" w'.files ≡ config

module _ (H : Host) (cache : Cache) where
  store_config-Stores :
      (layer : WasmLayer) (w : World)
      → (store_config H cache layer w).0 ≡ returned none
      → Stores w [] (some layer.layer) (store_config H cache layer w).1
  unfolding store_config create_file write_all ◌>>=◌ put_file
  store_config-Stores layer w h = record {
    calls_made = ground (arith, append-nil w.calls);
    config_kept = ground (
      arith,
      lookup-insert "/spin.json" layer.layer (insert "/spin.json" [] w.files) "/spin.json",
    );
  }

  store_wasm-Stores :
      (layer : WasmLayer) (w : World)
      → (store_wasm H cache layer w).0 ≡ returned none
      → Stores w
          (write_wasm layer.layer layer.config.digest ∷ [])
          (lookup "/spin.json" w.files)
          (store_wasm H cache layer w).1
  unfolding store_wasm ◌>>=◌ await call
  store_wasm-Stores layer w h = record { calls_made = ground arith; config_kept = ground arith }

  store_data-Stores :
      (layer : WasmLayer) (w : World)
      → (store_data H cache layer w).0 ≡ returned none
      → Stores w
          (write_data layer.layer layer.config.digest ∷ [])
          (lookup "/spin.json" w.files)
          (store_data H cache layer w).1
  unfolding store_data ◌>>=◌ await call
  store_data-Stores layer w h = record { calls_made = ground arith; config_kept = ground arith }

  store_archive-Stores :
      (layer : WasmLayer) (w : World)
      → (store_archive H cache layer w).0 ≡ returned none
      → Stores w
          (unpack_archive layer.layer layer.config.digest ∷ [])
          (lookup "/spin.json" w.files)
          (store_archive H cache layer w).1
  unfolding store_archive handle_archive_layer ◌>>=◌ await call set_var
  store_archive-Stores layer w h = record { calls_made = ground arith; config_kept = ground arith }

  store_package-Stores :
      (layers : ℕ) (layer : WasmLayer) (w : World)
      → (store_package H cache layers layer w).0 ≡ returned none
      → ⊥
  unfolding store_package ◌>>=◌ await call
  store_package-Stores layers layer w h = ground arith

  pub handle_layer-Stores :
      (layers : ℕ) (layer : WasmLayer) (type : MediaType) (w : World)
      → (handle_layer H cache layers layer type w).0 ≡ returned none
      → Stores w
          (calls_for H layer type)
          (config_after H (lookup "/spin.json" w.files) layer type)
          (handle_layer H cache layers layer type w).1
  unfolding handle_layer ◌>>=◌
  handle_layer-Stores layers layer (known _) w h = record {
    calls_made = rw append-nil;
    config_kept = refl;
  }
  handle_layer-Stores layers layer (other name) w h = record {
    calls_made = ground (
      arith,
      append-nil w.calls,
      store_config-Stores layer w,
      store_wasm-Stores layer w,
      store_package-Stores layers layer w,
      store_data-Stores layer w,
      store_archive-Stores layer w,
    );
    config_kept = ground (
      arith,
      store_config-Stores layer w,
      store_wasm-Stores layer w,
      store_package-Stores layers layer w,
      store_data-Stores layer w,
      store_archive-Stores layer w,
    );
  }

  -- An early return is that of a package, the only layer of its image.
  pub handle_layer-package :
      (layers : ℕ) (layer : WasmLayer) (type : MediaType) (w : World) (source : Source)
      → (handle_layer H cache layers layer type w).0 ≡ returned (some source)
      → (layers ≡ 1)
        × (is_package_type type ≡ true)
        × (source ≡ oci_wkg (H.wasm_path cache layer.config.digest))
  unfolding handle_layer store_config create_file write_all store_wasm store_package store_data
      store_archive handle_archive_layer ◌>>=◌ await call set_var
  handle_layer-package layers layer (known _) w source h = cc
  handle_layer-package layers layer (other name) w source h =
      (ground arith, ground arith, ground arith)

  store_package-reached :
      (layers : ℕ) (layer : WasmLayer) (w : World)
      → (H.spin_application_media_type == oci_layer_media_type_wasm_wkg) ≡ false
      → (handle_layer H cache layers layer (other oci_layer_media_type_wasm_wkg) w).0
        ≡ returned none
      → ⊥
  unfolding handle_layer
  store_package-reached layers layer w apart h = ground (
    arith,
    eq_comm H.spin_application_media_type oci_layer_media_type_wasm_wkg,
    store_package-Stores layers layer w,
  )

  -- A layer after which the loop goes on is no package.
  pub handle_layer-no_package :
      (layers : ℕ) (layer : WasmLayer) (type : MediaType) (w : World)
      → (H.spin_application_media_type == oci_layer_media_type_wasm_wkg) ≡ false
      → (handle_layer H cache layers layer type w).0 ≡ returned none
      → is_package_type type ≡ false
  handle_layer-no_package layers layer (known _) w apart h = refl
  handle_layer-no_package layers layer (other name) w apart h =
      elim (Bool-cases (name == oci_layer_media_type_wasm_wkg)) [
        | inr differ ↦ differ
        | inl same ↦ absurd (
            store_package-reached layers layer w apart
              (rw ((eq_iff name oci_layer_media_type_wasm_wkg).0 same) at h))
      ]
