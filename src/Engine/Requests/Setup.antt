-- ===== src/Engine/Requests/Setup.antt =====
-- The steps of a run before its triggers keep what the container asks for, and start no trigger:
-- containerd-shim-spin/src/source.rs and utils.rs.
use containerd_shim_spin.Prelude.{
  ℕ, ◌<◌, ◌↔◌, String, ◌≡◌, refl, sym, false, not, ◌||◌, Option, none, some, List, [], ◌∷◌, arith,
  if_cases, eqb, keep, if◌then◌else◌, ◌==◌,
}
use containerd_shim_spin.Oci.{Bytes, WasmLayer, MediaType, Entry, oci}
use containerd_shim_spin.Text.{split}
use containerd_shim_spin.Text.Numbers.{written}
use containerd_shim_spin.App.{
  Component, LockedApp, SocketAddr, TriggerKind, http, CliArgs, http_args,
}
use containerd_shim_spin.Exec.{Exec, World, ok, put_file, Call, start_trigger, retain}
use containerd_shim_spin.Exec.Keeps.{
  Rule, Keeps, Keeps-gets, Keeps-call, Keeps-with_context, Keeps-bind, Keeps-set_var, Keeps-same,
  keeps_rules,
}
use containerd_shim_spin.Host.{Host, Cache, create_file, write_all, read_file}
use containerd_shim_spin.Utils.{
  initialize_cache, handle_archive_layer, ensure_tmpdir, copy_value, configure_variables, prefixed,
}
use containerd_shim_spin.Utils.Variables.{prefixed-ne}
use containerd_shim_spin.Source.{
  Source, handle_layer, store_config, store_wasm, store_package, store_data, store_archive,
  or_continue, handle_layers, from_entry, resolve_component, resolve_components, to_locked_app,
}
use containerd_shim_spin.Source.Arms.{handle_layer_cases}
use containerd_shim_spin.Engine.{components_to_retain, retain_configured}

-- The limit on a trigger's memory: the number that the text writes if it fits, and no limit from any
-- other text; without a text, the default.
abbrev pub IsLimit : Host → Option String → Option ℕ → Type 0
IsLimit H none limit = limit ≡ H.default_max_instance_memory
IsLimit H (some text) limit =
    (n : ℕ) → (limit ≡ some n) ↔ ((written text ≡ some n) × (n < H.memory_bound))

abbrev pub listen_text : Option String → String
listen_text none = "0.0.0.0:80"
listen_text (some text) = text

-- The first address that a text stands for.
abbrev pub IsAddress : Host → Option String → SocketAddr → Type 0
IsAddress H value address =
    (w : World) × (others : List SocketAddr) × (H.to_socket_addrs w (listen_text value)
      ≡ ok (address ∷ others))

-- An HTTP trigger listens on the address, with no option set but the timeout for idle instances.
abbrev pub IsListening : Host → Option String → TriggerKind → CliArgs → Type 0
IsListening H value http args =
    (address : SocketAddr) × IsAddress H value address
    × (args
        ≡ http_args (record {
          address = address;
          tls_cert = none;
          tls_key = none;
          find_free_port = false;
          http1_max_buf_size = none;
          max_instance_reuse_count = none;
          max_instance_concurrent_reuse_count = none;
          request_timeout = none;
          idle_instance_timeout = 1;
        }))
IsListening H value _ args = Unit

-- The names of components: the pieces between commas that are not empty.
abbrev pub names_in : List String → List String
names_in [] = []
names_in (piece ∷ pieces) = if piece == "" then names_in pieces else piece ∷ names_in pieces

-- What the container asks for, by the values of three variables: for the triggers their memory limit
-- and the address to listen on, and for the app the components to retain.
abbrev pub IsRequested : Host → (String → Option String) → Call → Type 0
IsRequested H value (start_trigger l) =
    IsLimit H (value "SPIN_MAX_INSTANCE_MEMORY") l.max_instance_memory
    × IsListening H (value "SPIN_HTTP_LISTEN_ADDR") l.kind l.cli_args
IsRequested H value (retain components) =
    (text : String) × (value "SPIN_COMPONENTS_TO_RETAIN" ≡ some text)
    × (components ≡ names_in (split "," text))
IsRequested H value _ = Unit

abbrev pub requested_rule : Host → (String → Option String) → Rule
requested_rule H value = record {
  kept = λ name.
      name == "SPIN_MAX_INSTANCE_MEMORY"
      || name == "SPIN_HTTP_LISTEN_ADDR"
      || name == "SPIN_COMPONENTS_TO_RETAIN";
  value = value;
  allowed = IsRequested H value;
}

module _ (H : Host) (value : String → Option String) where
  abbrev KeepsRequested : {A : Type 0} → Exec A → Type 0
  KeepsRequested m = Keeps (requested_rule H value) m

  create_file-Keeps : (path : String) → KeepsRequested (create_file H path)
  unfolding create_file put_file
  create_file-Keeps path = Keeps-same _ λ w. (ground arith, ground arith)

  write_all-Keeps : (path : String) (bytes : Bytes) → KeepsRequested (write_all H path bytes)
  unfolding write_all put_file
  write_all-Keeps path bytes = Keeps-same _ λ w. (ground arith, ground arith)

  read_file-Keeps : (path : String) → KeepsRequested (read_file H path)
  unfolding read_file
  read_file-Keeps path = Keeps-same _ λ w. (ground arith, ground arith)

  ensure_tmpdir-Keeps : (found : Option String) → KeepsRequested (ensure_tmpdir H found)
  ensure_tmpdir-Keeps (some _) = search keeps_rules
  ensure_tmpdir-Keeps none = Keeps-bind _ _ (Keeps-gets _) λ dir. Keeps-set_var "TMPDIR" dir refl

  pub initialize_cache-Keeps : KeepsRequested (initialize_cache H)
  unfolding initialize_cache
  initialize_cache-Keeps =
      Keeps-bind _ _ (search keeps_rules)
        λ cache. Keeps-bind _ _ (Keeps-set_var _ _ refl) λ _. search keeps_rules

  copy_value-Keeps : (key : String) (found : Option String) → KeepsRequested (copy_value key found)
  copy_value-Keeps key none = search keeps_rules
  copy_value-Keeps key (some val) = Keeps-set_var (prefixed key) _ (
      rw
        (
          prefixed-ne "SPIN_MAX_INSTANCE_MEMORY" key refl,
          prefixed-ne "SPIN_HTTP_LISTEN_ADDR" key refl,
          prefixed-ne "SPIN_COMPONENTS_TO_RETAIN" key refl,
        )
        refl)

  pub configure_variables-Keeps : (keys : List String) → KeepsRequested (configure_variables keys)
  unfolding configure_variables
  configure_variables-Keeps [] = search keeps_rules
  configure_variables-Keeps (key ∷ keys) =
      Keeps-bind _ _ (Keeps-gets _)
        λ found. Keeps-bind _ _ (copy_value-Keeps _ found) λ _. configure_variables-Keeps keys

  keep-names : (pieces : List String) → keep (λ s. not (s == "")) pieces ≡ names_in pieces
  keep-names [] = refl
  keep-names (piece ∷ pieces) = ground (arith, keep-names pieces)

  pub retain_configured-Keeps :
      (found : Option String) (app : LockedApp)
      → found ≡ value "SPIN_COMPONENTS_TO_RETAIN"
      → KeepsRequested (retain_configured H found app)
  unfolding retain_configured components_to_retain
  retain_configured-Keeps none app asked = search keeps_rules
  retain_configured-Keeps (some names) app asked =
      Keeps-with_context _ _ (Keeps-call _ _ (names, sym asked, keep-names (split "," names)))

  module _ (cache : Cache) where
    store_archive-Keeps : (layer : WasmLayer) → KeepsRequested (store_archive H cache layer)
    unfolding store_archive handle_archive_layer
    store_archive-Keeps layer = search (keeps_rules, ensure_tmpdir-Keeps) depth 12

    handle_layer-Keeps :
        (layers : ℕ) (layer : WasmLayer) (type : MediaType)
        → KeepsRequested (handle_layer H cache layers layer type)
    unfolding store_config store_wasm store_package store_data
    handle_layer-Keeps layers layer type =
        handle_layer_cases H cache layers layer type KeepsRequested
          (search (keeps_rules, create_file-Keeps, write_all-Keeps) depth 8) (search keeps_rules)
          (λ _. Keeps-bind _ _ (search keeps_rules) λ _.
            if_cases KeepsRequested (eqb layers 1) _ _ (λ _. search keeps_rules)
              λ _. search keeps_rules)
          (search keeps_rules) (store_archive-Keeps layer) (search keeps_rules)

    or_continue-Keeps :
        (early : Option Source) (rest : Exec Source)
        → KeepsRequested rest
        → KeepsRequested (or_continue early rest)
    or_continue-Keeps none rest k = k
    or_continue-Keeps (some source) rest k = search keeps_rules

    handle_layers-Keeps :
        (layers : ℕ) (artifacts : List WasmLayer)
        → KeepsRequested (handle_layers H cache layers artifacts)
    unfolding handle_layers
    handle_layers-Keeps layers [] = search keeps_rules
    handle_layers-Keeps layers (layer ∷ artifacts) =
        Keeps-bind _ _ (handle_layer-Keeps layers layer _)
          λ early. or_continue-Keeps early _ (handle_layers-Keeps layers artifacts)

    pub from_entry-Keeps : (entry : Entry) → KeepsRequested (from_entry H cache entry)
    unfolding from_entry
    from_entry-Keeps (Entry.file _) = search keeps_rules
    from_entry-Keeps (oci layers) = handle_layers-Keeps _ layers

    resolve_components-Keeps :
        (components : List Component) → KeepsRequested (resolve_components H cache components)
    unfolding resolve_components resolve_component
    resolve_components-Keeps [] = search keeps_rules
    resolve_components-Keeps (component ∷ components) =
        Keeps-bind _ _ (search keeps_rules) λ resolved.
          Keeps-bind _ _ (resolve_components-Keeps components) λ rest. search keeps_rules

    pub to_locked_app-Keeps : (source : Source) → KeepsRequested (to_locked_app H cache source)
    unfolding to_locked_app
    to_locked_app-Keeps (Source.file path) = search keeps_rules
    to_locked_app-Keeps Source.oci_spin =
        search (keeps_rules, read_file-Keeps, resolve_components-Keeps) depth 8
    to_locked_app-Keeps (Source.oci_wkg path) = search keeps_rules
