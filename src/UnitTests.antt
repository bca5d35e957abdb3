-- ===== src/UnitTests.antt =====
-- The unit tests beside the shim's code, as tests of the definitions: containerd-shim-spin/src/source.rs,
-- utils.rs and engine.rs, `mod tests`. Each is run on a host, from a state of the process.
pub mod Sources
pub mod Loading
pub mod Helpers
pub mod Passing
use containerd_shim_spin.Prelude.{ℕ, String, Bool, false, List, [], ◌∷◌}
use containerd_shim_spin.Oci.{Bytes, MediaType, other, WasmLayer}

abbrev pub test_digest : String
test_digest = "sha256:6c3c624b58dbbcd3c0dd82b4c53f04194d1247c6eebdaab7c610cf7d66709b3b"

abbrev pub make_layer : String → Bytes → WasmLayer
make_layer media_type bytes = record {
  layer = bytes;
  precompiled = false;
  config = record { media_type = other media_type; size = 1024; digest = test_digest };
}
