-- ===== src/Engine/Panics/Setup.antt =====
-- The steps before the triggers, of containerd-shim-spin/src/source.rs and utils.rs: how they may end.
use containerd_shim_spin.Prelude.{ℕ, String, Option, none, some, List, [], ◌∷◌, arith}
use containerd_shim_spin.Oci.{WasmLayer, MediaType, other, known, Entry, oci}
use containerd_shim_spin.App.{Component, SocketAddr}
use containerd_shim_spin.Exec.{Exec}
use containerd_shim_spin.Host.{Host, Cache, create_file, write_all, read_file}
use containerd_shim_spin.Utils.{
  initialize_cache, parse_addr, handle_archive_layer, ensure_tmpdir, first_addr, copy_value,
  configure_variables,
}
use containerd_shim_spin.Source.{
  Source, handle_layer, store_config, store_wasm, store_package, store_data, store_archive,
  or_continue, handle_layers, from_entry, resolve_component, resolve_components, to_locked_app,
}
use containerd_shim_spin.Exec.Ends.{PanicsBy, Ends-bind, Ends-gets}
use containerd_shim_spin.Engine.Panics.Rules.{Allowed, ends_rules}

or_continue-PanicsBy :
    (early : Option Source) (rest : Exec Source)
    → PanicsBy Allowed rest
    → PanicsBy Allowed (or_continue early rest)
or_continue-PanicsBy none rest k = k
or_continue-PanicsBy (some source) rest k = search ends_rules

module _ (H : Host) where
  pub create_file-PanicsBy : (path : String) → PanicsBy Allowed (create_file H path)
  unfolding create_file
  create_file-PanicsBy path = record { at = λ w. ground arith }

  pub write_all-PanicsBy :
      (path : String) (bytes : List ℕ) → PanicsBy Allowed (write_all H path bytes)
  unfolding write_all
  write_all-PanicsBy path bytes = record { at = λ w. ground arith }

  pub initialize_cache-PanicsBy : PanicsBy Allowed (initialize_cache H)
  unfolding initialize_cache
  initialize_cache-PanicsBy = search ends_rules

  pub read_file-PanicsBy : (path : String) → PanicsBy Allowed (read_file H path)
  unfolding read_file
  read_file-PanicsBy path = record { at = λ w. ground arith }

  pub ensure_tmpdir-PanicsBy : (found : Option String) → PanicsBy Allowed (ensure_tmpdir H found)
  ensure_tmpdir-PanicsBy none = search ends_rules
  ensure_tmpdir-PanicsBy (some _) = search ends_rules

  pub handle_archive_layer-PanicsBy :
      (cache : Cache) (bytes : List ℕ) (digest : String)
      → PanicsBy Allowed (handle_archive_layer H cache bytes digest)
  unfolding handle_archive_layer
  handle_archive_layer-PanicsBy cache bytes digest =
      search (ends_rules, ensure_tmpdir-PanicsBy) depth 8

  pub first_addr-PanicsBy :
      (addr : String) (found : List SocketAddr) → PanicsBy Allowed (first_addr H addr found)
  first_addr-PanicsBy addr [] = search ends_rules
  first_addr-PanicsBy addr (_ ∷ _) = search ends_rules

  pub parse_addr-PanicsBy : (addr : String) → PanicsBy Allowed (parse_addr H addr)
  unfolding parse_addr
  parse_addr-PanicsBy addr = search (ends_rules, first_addr-PanicsBy)

  pub copy_value-PanicsBy :
      (variable : String) (found : Option String) → PanicsBy Allowed (copy_value variable found)
  copy_value-PanicsBy variable none = search ends_rules
  copy_value-PanicsBy variable (some _) = search ends_rules

  pub configure_variables-PanicsBy :
      (keys : List String) → PanicsBy Allowed (configure_variables keys)
  unfolding configure_variables
  configure_variables-PanicsBy [] = search ends_rules
  configure_variables-PanicsBy (key ∷ keys) =
      Ends-bind _ _ (Ends-gets _ (λ w. tt))
        λ found. Ends-bind _ _ (copy_value-PanicsBy _ found) λ _. configure_variables-PanicsBy keys

  ruleset setup_ends = (
    ends_rules, create_file-PanicsBy, write_all-PanicsBy, read_file-PanicsBy,
    handle_archive_layer-PanicsBy, parse_addr-PanicsBy, configure_variables-PanicsBy,
  )

  module _ (cache : Cache) where
    pub handle_layer-PanicsBy :
        (layers : ℕ) (artifact : WasmLayer) (type : MediaType)
        → PanicsBy Allowed (handle_layer H cache layers artifact type)
    unfolding handle_layer store_config store_wasm store_package store_data store_archive
    handle_layer-PanicsBy layers artifact (known _) = search ends_rules
    handle_layer-PanicsBy layers artifact (other name) = search setup_ends depth 12

    pub handle_layers-PanicsBy :
        (layers : ℕ) (artifacts : List WasmLayer)
        → PanicsBy Allowed (handle_layers H cache layers artifacts)
    unfolding handle_layers
    handle_layers-PanicsBy layers [] = search ends_rules
    handle_layers-PanicsBy layers (artifact ∷ artifacts) =
        Ends-bind _ _ (handle_layer-PanicsBy layers artifact _)
          λ early. or_continue-PanicsBy early _ (handle_layers-PanicsBy layers artifacts)

    pub from_entry-PanicsBy : (entry : Entry) → PanicsBy Allowed (from_entry H cache entry)
    unfolding from_entry
    from_entry-PanicsBy (Entry.file _) = search ends_rules
    from_entry-PanicsBy (oci layers) = handle_layers-PanicsBy _ layers

    pub resolve_components-PanicsBy :
        (components : List Component) → PanicsBy Allowed (resolve_components H cache components)
    unfolding resolve_components resolve_component
    resolve_components-PanicsBy [] = search ends_rules
    resolve_components-PanicsBy (component ∷ components) =
        Ends-bind _ _ (search ends_rules) λ resolved.
          Ends-bind _ _ (resolve_components-PanicsBy components) λ rest. search ends_rules

    pub to_locked_app-PanicsBy : (source : Source) → PanicsBy Allowed (to_locked_app H cache source)
    unfolding to_locked_app
    to_locked_app-PanicsBy (Source.file path) = search ends_rules
    to_locked_app-PanicsBy Source.oci_spin =
        search (ends_rules, read_file-PanicsBy, resolve_components-PanicsBy) depth 8
    to_locked_app-PanicsBy (Source.oci_wkg path) = search ends_rules
