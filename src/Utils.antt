-- ===== src/Utils.antt =====
-- containerd-shim-spin/src/utils.rs
pub mod Variables
pub mod Archive
use containerd_shim_spin.Prelude.{
  String, ◌<>◌, Bool, false, ◌||◌, Option, none, some, List, [], ◌∷◌, if◌then◌else◌, ◌==◌,
}
use containerd_shim_spin.Text.{to_ascii_uppercase}
use containerd_shim_spin.Env.{OsString, unicode}
use containerd_shim_spin.Oci.{
  Bytes, MediaType, other, known, WasmLayer, oci_layer_media_type_wasm,
  oci_layer_media_type_wasm_wkg, spin_application_variable_prefix,
}
use containerd_shim_spin.App.{LockedApp, SocketAddr}
use containerd_shim_spin.Exec.{
  Exec, pure, fail, await, call, with_context, ◌>>=◌, ◌>>◌, get_var, set_var, text, new_cache,
  unpack_archive, resolve_address, unparsed_address, gets,
}
use containerd_shim_spin.Host.{Host, Cache}

-- Whether the media type is one of the two for Wasm content.
unfoldable pub is_wasm_type : MediaType → Bool
is_wasm_type (known _) = false
is_wasm_type (other name) =
    name == oci_layer_media_type_wasm || name == oci_layer_media_type_wasm_wkg

unfoldable pub is_wasm_content : WasmLayer → Option WasmLayer
unfolding is_wasm_type
is_wasm_content layer = if is_wasm_type layer.config.media_type then some layer else none

-- `format!("{}_{}", SPIN_APPLICATION_VARIABLE_PREFIX, variable)`
abbrev pub prefixed : String → String
prefixed variable = spin_application_variable_prefix <> "_" <> variable

-- The closure given to `for_each`, on the upper-case name.
abbrev pub copy_value : String → Option String → Exec Unit
copy_value variable none = pure tt
copy_value variable (some val) = set_var (prefixed variable) (unicode val)

unfoldable pub configure_variables : List String → Exec Unit
configure_variables [] = pure tt
configure_variables (key ∷ keys) = do
  let variable = to_ascii_uppercase key
  found ← get_var variable
  copy_value variable found
  configure_variables keys

unfoldable pub configure_application_variables_from_environment_variables : LockedApp → Exec Unit
unfolding configure_variables
configure_application_variables_from_environment_variables resolved =
    configure_variables resolved.variables

module _ (H : Host) where
  unfoldable pub initialize_cache : Exec Cache
  initialize_cache = do
    cache ←
        with_context (text "failed to create cache")
          (await (call (new_cache "/.cache") (λ w. H.new_cache w "/.cache")))
    set_var "XDG_CACHE_HOME" (unicode "/.cache")
    pure cache

  abbrev pub or_dot : Option OsString → OsString
  or_dot none = unicode "."
  or_dot (some dir) = dir

  abbrev current_dir_or_dot : Exec OsString
  current_dir_or_dot = gets (λ w. or_dot (H.current_dir w))

  -- The test on `TMPDIR` before the archive is unpacked.
  abbrev pub ensure_tmpdir : Option String → Exec Unit
  ensure_tmpdir (some _) = pure tt
  ensure_tmpdir none = do dir ← current_dir_or_dot; set_var "TMPDIR" dir

  unfoldable pub handle_archive_layer : Cache → Bytes → String → Exec Unit
  handle_archive_layer cache bytes digest = do
    found ← get_var "TMPDIR"
    ensure_tmpdir found
    await (call (unpack_archive bytes digest) (λ w. H.unpack_archive_layer w cache bytes digest))

  abbrev pub first_addr : String → List SocketAddr → Exec SocketAddr
  first_addr addr [] = fail (unparsed_address addr)
  first_addr addr (found ∷ _) = pure found

  unfoldable pub parse_addr : String → Exec SocketAddr
  parse_addr addr = do
    addrs ← call (resolve_address addr) (λ w. H.to_socket_addrs w addr)
    first_addr addr addrs
