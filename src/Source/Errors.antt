-- ===== src/Source/Errors.antt =====
-- How `Source` of containerd-shim-spin/src/source.rs may fail.
pub mod Files
use containerd_shim_spin.Prelude.{
  ℕ, String, ◌≡◌, ◌≢◌, refl, Bool, true, false, Option, none, some, List, [], ◌∷◌, arith, length,
  eqb, inl, inr, Bool-cases, Option-cases, if◌then◌else◌, ◌==◌,
}
use containerd_shim_spin.Prelude.Maps.{lookup}
use containerd_shim_spin.Oci.{
  Bytes, MediaType, other, known, WasmLayer, Entry, oci, oci_layer_media_type_wasm,
  oci_layer_media_type_wasm_wkg,
}
use containerd_shim_spin.App.{Component, LockedApp}
use containerd_shim_spin.Exec.{
  Context, text, resolving_content, loading_component, Error, external, expected_single_layer,
  context, err, Outcome, World, Exec, pure, fail, lift, gets, await, call, with_context, ◌>>=◌,
  ◌>>◌, set_var, put_file,
}
use containerd_shim_spin.Exec.Fails.{
  Failed, FailsBy, Refuses, Fails-pure, Fails-fail, Fails-lift, Fails-call, Fails-gets, Fails-if,
  Fails-await, Fails-with_context, Fails-bind, Fails-from, fails_rules,
}
use containerd_shim_spin.Host.{Host, Cache, create_file, write_all, read_file}
use containerd_shim_spin.Utils.{ensure_tmpdir, handle_archive_layer}
use containerd_shim_spin.Source.{
  Source, or_continue, store_config, store_wasm, store_package, store_data, store_archive,
  handle_layer, handle_layers, from_entry, resolve_component, resolve_components, to_locked_app,
}
use containerd_shim_spin.Source.Arms.{handle_layer_cases}
use containerd_shim_spin.Source.Errors.Files.{
  create_file-FailsBy, write_all-FailsBy, read_file-FailsBy, ensure_tmpdir-FailsBy,
}

module _ (H : Host) where
  -- Why the layers of an image, so many, could not be stored: a call that failed, or a package that is
  -- not the only layer.
  pub data IsStoreError (layers : ℕ) : Error → Type 0 where
    not_created :
        {e : Error}
        → (w : World) × (H.create_fault w "/spin.json" ≡ some e)
        → IsStoreError layers (context (text "failed to create spin.json") e)
    not_written :
        {e : Error}
        → (w : World) × (bytes : Bytes) × (n : ℕ) × (H.write_fault w "/spin.json" bytes
            ≡ some (n, e))
        → IsStoreError layers (context (text "failed to write spin.json") e)
    wasm_not_stored :
        {e : Error} (cache : Cache) (layer : WasmLayer)
        → Refuses (λ w. H.write_wasm w cache layer.layer layer.config.digest) e
        → IsStoreError layers e
    data_not_stored :
        {e : Error} (cache : Cache) (layer : WasmLayer)
        → Refuses (λ w. H.write_data w cache layer.layer layer.config.digest) e
        → IsStoreError layers e
    not_unpacked :
        {e : Error} (cache : Cache) (layer : WasmLayer)
        → Refuses (λ w. H.unpack_archive_layer w cache layer.layer layer.config.digest) e
        → IsStoreError layers (context (text "unable to unpack archive layer") e)
    not_single : layers ≢ 1 → IsStoreError layers (expected_single_layer layers)

  -- Why the app could not be loaded from a source.
  pub data IsLoadError : Source → Error → Type 0 where
    manifest_not_loaded :
        {path : String} {e : Error}
        → Refuses (λ w. H.from_file w path) e
        → IsLoadError (Source.file path) e
    no_config :
        IsLoadError Source.oci_spin (
          context
            (text "failed to read from \"/spin.json\"")
            (external "No such file or directory"))
    config_not_read :
        {e : Error}
        → (w : World) × (H.read_fault w "/spin.json" ≡ some e)
        → IsLoadError Source.oci_spin (context (text "failed to read from \"/spin.json\"") e)
    not_decoded :
        {e : Error} (bytes : Bytes)
        → H.from_json bytes ≡ err e
        → IsLoadError Source.oci_spin
            (context (text "failed to decode locked app from \"/spin.json\"") e)
    not_resolved :
        {e : Error} (cache : Cache) (component : Component)
        → Refuses (λ w. H.resolve_component_content_refs w cache component) e
        → IsLoadError Source.oci_spin (context (resolving_content component.id) e)
    component_not_loaded :
        {path : String} {e : Error}
        → Refuses (λ w. H.from_wasm_file w path) e
        → IsLoadError (Source.oci_wkg path) (context (loading_component path) e)

  module _ (cache : Cache) (layers : ℕ) where
    abbrev Stores : Exec (Option Source) → Type 0
    Stores m = FailsBy (IsStoreError layers) m

    store_config-FailsBy : (layer : WasmLayer) → Stores (store_config H cache layer)
    unfolding store_config
    store_config-FailsBy layer =
        Fails-bind _ _
          (Fails-with_context _ _ (create_file-FailsBy H _ λ w e h. not_created (w, h)))
          λ _.
            Fails-bind _ _
              (Fails-with_context _ _
                (write_all-FailsBy H _ _ λ w n e h. not_written (w, layer.layer, n, h)))
              λ _. Fails-pure _

    store_wasm-FailsBy : (layer : WasmLayer) → Stores (store_wasm H cache layer)
    unfolding store_wasm
    store_wasm-FailsBy layer =
        Fails-bind _ _ (Fails-await _ (Fails-call _ _ λ e h. wasm_not_stored cache layer h))
          λ _. Fails-pure _

    single-ne : eqb layers 1 ≡ false → layers ≢ 1
    single-ne h same = ground arith

    store_package-FailsBy : (layer : WasmLayer) → Stores (store_package H cache layers layer)
    unfolding store_package
    store_package-FailsBy layer =
        Fails-bind _ _ (Fails-await _ (Fails-call _ _ λ e h. wasm_not_stored cache layer h))
          λ _. Fails-if _ _ _ (λ _. Fails-pure _) λ many. Fails-fail _ (not_single (single-ne many))

    store_data-FailsBy : (layer : WasmLayer) → Stores (store_data H cache layer)
    unfolding store_data
    store_data-FailsBy layer =
        Fails-bind _ _ (Fails-await _ (Fails-call _ _ λ e h. data_not_stored cache layer h))
          λ _. Fails-pure _

    store_archive-FailsBy : (layer : WasmLayer) → Stores (store_archive H cache layer)
    unfolding store_archive handle_archive_layer
    store_archive-FailsBy layer =
        Fails-bind _ _
          (Fails-with_context _ _ (
            Fails-await _ (
              Fails-bind _ _ (Fails-gets _) λ found.
                Fails-bind _ _ (ensure_tmpdir-FailsBy H found)
                  λ _. Fails-await _ (Fails-call _ _ λ e h. not_unpacked cache layer h))))
          λ _. Fails-pure _

    handle_layer-FailsBy :
        (layer : WasmLayer) (type : MediaType) → Stores (handle_layer H cache layers layer type)
    handle_layer-FailsBy layer type =
        handle_layer_cases H cache layers layer type Stores (store_config-FailsBy layer)
          (store_wasm-FailsBy layer) (λ _. store_package-FailsBy layer) (store_data-FailsBy layer)
          (store_archive-FailsBy layer) (Fails-pure none)

    or_continue-FailsBy :
        (early : Option Source) (rest : Exec Source)
        → FailsBy (IsStoreError layers) rest
        → FailsBy (IsStoreError layers) (or_continue early rest)
    or_continue-FailsBy none rest k = k
    or_continue-FailsBy (some source) rest k = Fails-pure source

    handle_layers-FailsBy :
        (artifacts : List WasmLayer)
        → FailsBy (IsStoreError layers) (handle_layers H cache layers artifacts)
    unfolding handle_layers
    handle_layers-FailsBy [] = Fails-pure _
    handle_layers-FailsBy (artifact ∷ artifacts) =
        Fails-bind _ _ (handle_layer-FailsBy artifact artifact.config.media_type)
          λ early. or_continue-FailsBy early _ (handle_layers-FailsBy artifacts)

  module _ (cache : Cache) where
    resolve_components-FailsBy :
        (components : List Component)
        → FailsBy (IsLoadError Source.oci_spin) (resolve_components H cache components)
    unfolding resolve_components resolve_component
    resolve_components-FailsBy [] = Fails-pure _
    resolve_components-FailsBy (component ∷ components) =
        Fails-bind _ _
          (Fails-with_context _ _
            (Fails-await _ (Fails-call _ _ λ e h. not_resolved cache component h)))
          λ resolved. Fails-bind _ _ (resolve_components-FailsBy components) λ rest. Fails-pure _

    pub to_locked_app-FailsBy :
        (source : Source) → FailsBy (IsLoadError source) (to_locked_app H cache source)
    unfolding to_locked_app
    to_locked_app-FailsBy (Source.file path) =
        Fails-await _ (Fails-call _ _ λ e h. manifest_not_loaded h)
    to_locked_app-FailsBy Source.oci_spin =
        Fails-bind _ _
          (Fails-with_context _ _
            (Fails-await _ (read_file-FailsBy H _ no_config λ w e h. config_not_read (w, h))))
          λ content.
            Fails-bind _ _ (Fails-with_context _ _ (Fails-lift _ λ e h. not_decoded content h))
              λ decoded.
                Fails-bind _ _ (resolve_components-FailsBy decoded.components)
                  λ components. Fails-pure _
    to_locked_app-FailsBy (Source.oci_wkg path) =
        Fails-with_context _ _ (Fails-await _ (Fails-call _ _ λ e h. component_not_loaded h))

  -- The source of a context fails only by its layers.
  pub from_entry-FailsBy :
      (cache : Cache) (entry : Entry)
      → FailsBy
          (λ e. (layers : List WasmLayer) × (entry ≡ oci layers) × IsStoreError (length layers) e)
          (from_entry H cache entry)
  unfolding from_entry
  from_entry-FailsBy cache (Entry.file _) = Fails-pure _
  from_entry-FailsBy cache (oci layers) =
      Fails-from _ (λ e h. (layers, refl, h)) (handle_layers-FailsBy cache (length layers) layers)
