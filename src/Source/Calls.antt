-- ===== src/Source/Calls.antt =====
-- Which calls the steps before the triggers make: containerd-shim-spin/src/source.rs and utils.rs.
use containerd_shim_spin.Prelude.{ℕ, String, Option, none, some, List, [], ◌∷◌, arith}
use containerd_shim_spin.Oci.{Bytes, WasmLayer, MediaType, other, known, Entry, oci}
use containerd_shim_spin.App.{Component, SocketAddr}
use containerd_shim_spin.Exec.{
  Call, new_cache, write_wasm, write_data, unpack_archive, load_manifest, load_wasm_file,
  resolve_content, resolve_address, Exec,
}
use containerd_shim_spin.Exec.Makes.{Makes, Adds-none, Makes-bind, Makes-gets, makes_rules}
use containerd_shim_spin.Host.{Host, Cache, create_file, write_all, read_file}
use containerd_shim_spin.Utils.{
  initialize_cache, parse_addr, handle_archive_layer, ensure_tmpdir, first_addr, copy_value,
  configure_variables,
}
use containerd_shim_spin.Source.{
  Source, handle_layer, store_config, store_wasm, store_package, store_data, store_archive,
  or_continue, handle_layers, from_entry, resolve_component, resolve_components, to_locked_app,
}

or_continue-Makes :
    (Q : Call → Type 0) (early : Option Source) (rest : Exec Source)
    → Makes Q rest
    → Makes Q (or_continue early rest)
or_continue-Makes Q none rest k = k
or_continue-Makes Q (some source) rest k = search makes_rules

module _ (H : Host) (Q : Call → Type 0) where
  pub create_file-Makes : (path : String) → Makes Q (create_file H path)
  unfolding create_file
  create_file-Makes path = record { at = λ w. Adds-none w _ (ground arith) }

  pub write_all-Makes : (path : String) (bytes : List ℕ) → Makes Q (write_all H path bytes)
  unfolding write_all
  write_all-Makes path bytes = record { at = λ w. Adds-none w _ (ground arith) }

  pub initialize_cache-Makes : Q (new_cache "/.cache") → Makes Q (initialize_cache H)
  unfolding initialize_cache
  initialize_cache-Makes q = search makes_rules

  pub read_file-Makes : (path : String) → Makes Q (read_file H path)
  unfolding read_file
  read_file-Makes path = record { at = λ w. Adds-none w _ (ground arith) }

  pub ensure_tmpdir-Makes : (found : Option String) → Makes Q (ensure_tmpdir H found)
  ensure_tmpdir-Makes none = search makes_rules
  ensure_tmpdir-Makes (some _) = search makes_rules

  pub first_addr-Makes :
      (addr : String) (found : List SocketAddr) → Makes Q (first_addr H addr found)
  first_addr-Makes addr [] = search makes_rules
  first_addr-Makes addr (_ ∷ _) = search makes_rules

  pub parse_addr-Makes :
      (addr : String) → ((name : String) → Q (resolve_address name)) → Makes Q (parse_addr H addr)
  unfolding parse_addr
  parse_addr-Makes addr q = search (makes_rules, first_addr-Makes)

  pub copy_value-Makes :
      (variable : String) (found : Option String) → Makes Q (copy_value variable found)
  copy_value-Makes variable none = search makes_rules
  copy_value-Makes variable (some _) = search makes_rules

  pub configure_variables-Makes : (keys : List String) → Makes Q (configure_variables keys)
  unfolding configure_variables
  configure_variables-Makes [] = search makes_rules
  configure_variables-Makes (key ∷ keys) =
      Makes-bind _ _ (Makes-gets _)
        λ found. Makes-bind _ _ (copy_value-Makes _ found) λ _. configure_variables-Makes keys

  -- The layers of an image; `wasm`, `data` and `archive` allow the calls that store them.
  module _ (cache : Cache) (wasm : (bytes : Bytes) (digest : String) → Q (write_wasm bytes digest))
      (data_layer : (bytes : Bytes) (digest : String) → Q (write_data bytes digest))
      (archive : (bytes : Bytes) (digest : String) → Q (unpack_archive bytes digest)) where
    pub handle_archive_layer-Makes :
        (bytes : List ℕ) (digest : String) → Makes Q (handle_archive_layer H cache bytes digest)
    unfolding handle_archive_layer
    handle_archive_layer-Makes bytes digest = search (makes_rules, ensure_tmpdir-Makes) depth 8

    ruleset store_rules =
        (makes_rules, create_file-Makes, write_all-Makes, handle_archive_layer-Makes)

    pub handle_layer-Makes :
        (layers : ℕ) (artifact : WasmLayer) (type : MediaType)
        → Makes Q (handle_layer H cache layers artifact type)
    unfolding handle_layer store_config store_wasm store_package store_data store_archive
    handle_layer-Makes layers artifact (known _) = search makes_rules
    handle_layer-Makes layers artifact (other name) = search store_rules depth 12

    pub handle_layers-Makes :
        (layers : ℕ) (artifacts : List WasmLayer) → Makes Q (handle_layers H cache layers artifacts)
    unfolding handle_layers
    handle_layers-Makes layers [] = search makes_rules
    handle_layers-Makes layers (artifact ∷ artifacts) =
        Makes-bind _ _ (handle_layer-Makes layers artifact _)
          λ early. or_continue-Makes Q early _ (handle_layers-Makes layers artifacts)

    pub from_entry-Makes : (entry : Entry) → Makes Q (from_entry H cache entry)
    unfolding from_entry
    from_entry-Makes (Entry.file _) = search makes_rules
    from_entry-Makes (oci layers) = handle_layers-Makes _ layers

  -- The application; the hypotheses allow the calls that load it.
  module _ (cache : Cache) (manifest : (path : String) → Q (load_manifest path))
      (wasm_file : (path : String) → Q (load_wasm_file path))
      (content : (id : String) → Q (resolve_content id)) where
    pub resolve_components-Makes :
        (components : List Component) → Makes Q (resolve_components H cache components)
    unfolding resolve_components resolve_component
    resolve_components-Makes [] = search makes_rules
    resolve_components-Makes (component ∷ components) =
        Makes-bind _ _ (search makes_rules) λ resolved.
          Makes-bind _ _ (resolve_components-Makes components) λ rest. search makes_rules

    pub to_locked_app-Makes : (source : Source) → Makes Q (to_locked_app H cache source)
    unfolding to_locked_app
    to_locked_app-Makes (Source.file path) = search makes_rules
    to_locked_app-Makes Source.oci_spin =
        search (makes_rules, read_file-Makes, resolve_components-Makes) depth 8
    to_locked_app-Makes (Source.oci_wkg path) = search makes_rules
