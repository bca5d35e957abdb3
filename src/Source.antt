-- ===== src/Source.antt =====
-- containerd-shim-spin/src/source.rs
pub mod Calls
pub mod Layers
pub mod Images
pub mod Resolved
pub mod Manifest
pub mod Arms
pub mod Success
pub mod Errors
use containerd_shim_spin.Prelude.{
  ℕ, String, ◌<>◌, Bool, Option, none, some, List, [], ◌∷◌, eqb, length, if◌then◌else◌, ◌==◌,
}
use containerd_shim_spin.Oci.{
  Bytes, MediaType, other, known, WasmLayer, Entry, RuntimeContext, oci_layer_media_type_wasm,
  oci_layer_media_type_wasm_wkg, spin_manifest_file_path,
}
use containerd_shim_spin.App.{Component, LockedApp}
use containerd_shim_spin.Exec.{
  Exec, pure, fail, lift, await, call, with_context, ◌>>=◌, ◌>>◌, text, resolving_content,
  loading_component, expected_single_layer, write_wasm, write_data, load_manifest, load_wasm_file,
  resolve_content,
}
use containerd_shim_spin.Host.{Host, Cache, create_file, write_all, read_file}
use containerd_shim_spin.Utils.{handle_archive_layer}

pub data Source : Type 0 where
  file : String → Source
  oci_spin : Source
  oci_wkg : String → Source

-- `{:?}` of a source
abbrev pub debug : Source → String
debug (file path) = "File(" <> path <> ")"
debug oci_spin = "OciSpin"
debug (oci_wkg path) = "OciWkg(" <> path <> ")"

abbrev pub or_continue : Option Source → Exec Source → Exec Source
or_continue none rest = rest
or_continue (some source) rest = pure source

module _ (H : Host) (cache : Cache) where
  -- The arm for the Spin application's configuration.
  unfoldable pub store_config : WasmLayer → Exec (Option Source)
  store_config artifact = do
    with_context (text "failed to create spin.json") (create_file H "/spin.json")
    with_context (text "failed to write spin.json") (write_all H "/spin.json" artifact.layer)
    pure none

  unfoldable pub store_wasm : WasmLayer → Exec (Option Source)
  store_wasm artifact = do
    await (
        call (write_wasm artifact.layer artifact.config.digest)
          (λ w. H.write_wasm w cache artifact.layer artifact.config.digest))
    pure none

  -- The arm for a `wkg` package. `layers` is the number of layers of the image.
  unfoldable pub store_package : ℕ → WasmLayer → Exec (Option Source)
  store_package layers artifact = do
    await (
        call (write_wasm artifact.layer artifact.config.digest)
          (λ w. H.write_wasm w cache artifact.layer artifact.config.digest))
    if eqb layers 1
        then pure (some (oci_wkg (H.wasm_path cache artifact.config.digest)))
        else fail (expected_single_layer layers)

  unfoldable pub store_data : WasmLayer → Exec (Option Source)
  store_data artifact = do
    await (
        call (write_data artifact.layer artifact.config.digest)
          (λ w. H.write_data w cache artifact.layer artifact.config.digest))
    pure none

  unfoldable pub store_archive : WasmLayer → Exec (Option Source)
  store_archive artifact = do
    with_context (text "unable to unpack archive layer")
        (await (handle_archive_layer H cache artifact.layer artifact.config.digest))
    pure none

  -- The arms of the match; `some` is an early return.
  unfoldable pub handle_layer : ℕ → WasmLayer → MediaType → Exec (Option Source)
  handle_layer layers artifact (known _) = pure none
  handle_layer layers artifact (other name) =
      if name == H.spin_application_media_type
      then store_config artifact
      else if name == oci_layer_media_type_wasm
      then store_wasm artifact
      else if name == oci_layer_media_type_wasm_wkg
      then store_package layers artifact
      else if name == H.data_mediatype
      then store_data artifact
      else if name == H.archive_mediatype
      then store_archive artifact
      else pure none

  -- The loop over the layers.
  unfoldable pub handle_layers : ℕ → List WasmLayer → Exec Source
  handle_layers layers [] = pure oci_spin
  handle_layers layers (artifact ∷ artifacts) = do
    early ← handle_layer layers artifact artifact.config.media_type
    or_continue early (handle_layers layers artifacts)

  unfoldable pub from_entry : Entry → Exec Source
  unfolding handle_layers
  from_entry (Entry.file _) = pure (file spin_manifest_file_path)
  from_entry (Entry.oci layers) = handle_layers (length layers) layers

  abbrev pub from_ctx : RuntimeContext → Exec Source
  from_ctx ctx = from_entry ctx.entrypoint

  unfoldable pub resolve_component : Component → Exec Component
  resolve_component component = with_context (resolving_content component.id) (
      await (
        call (resolve_content component.id)
          (λ w. H.resolve_component_content_refs w cache component)))

  -- The loop over `locked_app.components`, each replaced by its resolved form.
  unfoldable pub resolve_components : List Component → Exec (List Component)
  resolve_components [] = pure []
  resolve_components (component ∷ components) = do
    resolved ← resolve_component component
    rest ← resolve_components components
    pure (resolved ∷ rest)

  unfoldable pub to_locked_app : Source → Exec LockedApp
  unfolding resolve_component resolve_components
  to_locked_app (file source) = await (call (load_manifest source) (λ w. H.from_file w source))
  to_locked_app oci_spin = do
    locked_content ←
        with_context (text "failed to read from \"/spin.json\"") (await (read_file H "/spin.json"))
    locked_app ←
        with_context (text "failed to decode locked app from \"/spin.json\"")
          (lift (H.from_json locked_content))
    components ← resolve_components locked_app.components
    pure (record locked_app { components = components })
  to_locked_app (oci_wkg wasm_path) =
      with_context (loading_component wasm_path)
        (await (call (load_wasm_file wasm_path) (λ w. H.from_wasm_file w wasm_path)))
