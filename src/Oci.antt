-- ===== src/Oci.antt =====
-- What containerd hands to the shim (the types of `containerd_shim_wasm` and `oci_spec`, with the
-- fields that the shim reads), and the constants of containerd-shim-spin/src/constants.rs.
use containerd_shim_spin.Prelude.{ℕ, String, Bool, List}

abbrev pub Bytes : Type 0
Bytes = List ℕ

-- Only `Other` carries a name that the shim compares; the types that `oci_spec` knows by name are
-- `known`.
pub data MediaType : Type 0 where
  other known : String → MediaType

pub record Descriptor : Type 0 where
  pub media_type : MediaType
  pub size : ℕ
  pub digest : String

pub record WasmLayer : Type 0 where
  pub layer : Bytes
  pub precompiled : Bool
  pub config : Descriptor

-- `sandbox::context::Source`
pub data Entry : Type 0 where
  file : String → Entry
  oci : List WasmLayer → Entry

-- `RuntimeContext`
pub record RuntimeContext : Type 0 where
  pub args : List String
  pub envs : List String
  pub entrypoint : Entry

abbrev pub spin_addr_default : String
spin_addr_default = "0.0.0.0:80"

abbrev pub spin_http_listen_addr_env : String
spin_http_listen_addr_env = "SPIN_HTTP_LISTEN_ADDR"

abbrev pub runtime_config_path : String
runtime_config_path = "/runtime-config.toml"

abbrev pub oci_layer_media_type_wasm : String
oci_layer_media_type_wasm = "application/vnd.wasm.content.layer.v1+wasm"

abbrev pub oci_layer_media_type_wasm_wkg : String
oci_layer_media_type_wasm_wkg = "application/wasm"

abbrev pub spin_manifest_file_path : String
spin_manifest_file_path = "/spin.toml"

abbrev pub spin_application_variable_prefix : String
spin_application_variable_prefix = "SPIN_VARIABLE"

abbrev pub spin_trigger_working_dir : String
spin_trigger_working_dir = "/"

abbrev pub spin_components_to_retain_env : String
spin_components_to_retain_env = "SPIN_COMPONENTS_TO_RETAIN"
