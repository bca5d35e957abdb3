-- ===== src/UnitTests/Helpers.antt =====
-- The unit tests of containerd-shim-spin/src/utils.rs and of `SpinCompiler` in engine.rs.
use containerd_shim_spin.Prelude.{
  ℕ, String, Bool, true, false, ◌&&◌, not, Option, none, some, List, [], ◌∷◌, is_some, ◌==◌, eqb,
}
use containerd_shim_spin.Env.{Env, unicode, var}
use containerd_shim_spin.Oci.{Bytes, WasmLayer, spin_addr_default, oci_layer_media_type_wasm}
use containerd_shim_spin.App.{LockedApp, SocketAddr}
use containerd_shim_spin.Exec.{Outcome, returned, World, Result, ok, err}
use containerd_shim_spin.Host.{Host}
use containerd_shim_spin.Utils.{
  parse_addr, is_wasm_content, configure_application_variables_from_environment_variables,
}
use containerd_shim_spin.Engine.Compiler.{compile}
use containerd_shim_spin.UnitTests.{make_layer}

abbrev pub test_env : Env
test_env =
    ("SPIN_VARIABLE_DO_NOT_RESET", unicode "val1")
    ∷ ("SHOULD_BE_PREFIXED", unicode "val2")
    ∷ ("ignored_if_not_uppercased_env", unicode "val3")
    ∷ []

abbrev pub locked_app : LockedApp
locked_app = record {
  components = [];
  variables =
      "should_be_prefixed" ∷ "do_not_reset" ∷ "not_set_as_container_env"
      ∷ "ignored_if_not_uppercased_env" ∷ [];
  triggers = [];
}

abbrev holds : Env → String → String → Bool
holds env key value = elim (var env key) [ none ↦ false | some found ↦ found == value ]

-- The environment of the process is `test_env`.
abbrev pub test_configure_application_variables_from_environment_variables : Bool
test_configure_application_variables_from_environment_variables =
    let w : World = record { env = test_env; files = []; calls = []; signal = none } in
    let env = (configure_application_variables_from_environment_variables locked_app w).1.env in
    holds env "SPIN_VARIABLE_DO_NOT_RESET" "val1"
    && holds env "SPIN_VARIABLE_SHOULD_BE_PREFIXED" "val2"
    && not (is_some (var env "SPIN_VARIABLE_NOT_SET_AS_CONTAINER_ENV"))
    && not (is_some (var env "SPIN_VARIABLE_IGNORED_IF_NOT_UPPERCASED_ENV"))
    && is_some (var env "SHOULD_BE_PREFIXED")

abbrev is_addr : String → ℕ → Outcome SocketAddr → Bool
is_addr ip port (returned address) = address.ip == ip && eqb address.port port
is_addr ip port _ = false

module _ (H : Host) where
  abbrev pub can_parse_spin_address : World → Bool
  can_parse_spin_address w = is_addr "0.0.0.0" 80 (parse_addr H spin_addr_default w).0

  abbrev pub is_wasm_content_test : Bool
  is_wasm_content_test =
      is_some (is_wasm_content (make_layer oci_layer_media_type_wasm []))
      && not (is_some (is_wasm_content (make_layer H.data_mediatype [])))

  abbrev cached : WasmLayer → WasmLayer
  cached layer = record layer { precompiled = true }

  -- `plain` is a Wasm module and `component` a component that wasmtime has serialized.
  abbrev pub layers_to_precompile : Bytes → Bytes → List WasmLayer
  layers_to_precompile plain component =
      make_layer oci_layer_media_type_wasm plain
      ∷ cached (make_layer oci_layer_media_type_wasm component)
      ∷ make_layer H.data_mediatype []
      ∷ []

  abbrev same_bytes : Bytes → Bytes → Bool
  same_bytes [] [] = true
  same_bytes [] (_ ∷ _) = false
  same_bytes (_ ∷ _) [] = false
  same_bytes (a ∷ left) (b ∷ right) = eqb a b && same_bytes left right

  abbrev precompiled_as_expected : Bytes → Result (List (Option Bytes)) → Bool
  precompiled_as_expected plain (ok (some bytes ∷ none ∷ none ∷ [])) = not (same_bytes bytes plain)
  precompiled_as_expected plain _ = false

  abbrev pub precompile : Bytes → Bytes → Bool
  precompile plain component =
      precompiled_as_expected plain (compile H (layers_to_precompile plain component))

  abbrev is_refused : Result (List (Option Bytes)) → Bool
  is_refused (ok _) = false
  is_refused (err _) = true

  -- `compiled_bytes` are a serialized component, in a layer of an image.
  abbrev pub precompile_rejects_oci_layer_with_precompiled_bytes : Bytes → Bool
  precompile_rejects_oci_layer_with_precompiled_bytes compiled_bytes =
      H.detect_precompiled compiled_bytes
      && is_refused (compile H (make_layer oci_layer_media_type_wasm compiled_bytes ∷ []))
