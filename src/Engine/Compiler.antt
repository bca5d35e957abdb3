-- ===== src/Engine/Compiler.antt =====
-- `SpinCompiler::compile` of containerd-shim-spin/src/engine.rs.
pub mod Answers
use containerd_shim_spin.Prelude.{Option, none, some, List, [], ◌∷◌, if◌then◌else◌}
use containerd_shim_spin.Oci.{Bytes, WasmLayer}
use containerd_shim_spin.Exec.{Result, ok, err, not_a_precompiled_component}
use containerd_shim_spin.Host.{Host}
use containerd_shim_spin.Utils.{is_wasm_content}

-- `?` on the results of pure calls.
infixl 10 ◌>>=◌
abbrev pub ◌>>=◌ {ℓ κ} : {A : Type ℓ} {B : Type κ} → Result A → (A → Result B) → Result B
ok a >>= f = f a
err e >>= f = err e

module _ (H : Host) where
  -- The branch for a layer of an image, which is always compiled.
  unfoldable pub recompile : WasmLayer → Result (Option Bytes)
  recompile wasm_layer = do
    component ← H.componentize_if_necessary wasm_layer.layer
    precompiled ← H.precompile_component component
    ok (some precompiled)

  -- The closure that `compile` maps over the layers, after the test for Wasm content.
  unfoldable pub compile_wasm : Option WasmLayer → Result (Option Bytes)
  unfolding recompile
  compile_wasm none = ok none
  compile_wasm (some wasm_layer) =
      if wasm_layer.precompiled
      then (if H.detect_precompiled wasm_layer.layer
          then ok none
          else err not_a_precompiled_component)
      else recompile wasm_layer

  -- The map over the layers and its `collect`, which ends at the first error.
  unfoldable pub compile : List WasmLayer → Result (List (Option Bytes))
  unfolding compile_wasm
  compile [] = ok []
  compile (layer ∷ layers) = do
    compiled ← compile_wasm (is_wasm_content layer)
    rest ← compile layers
    ok (compiled ∷ rest)
