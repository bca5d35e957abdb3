-- ===== src/Engine/Compiler/Answers.antt =====
-- What `compile` of containerd-shim-spin/src/engine.rs returns for each layer, and when it fails.
use mathlib.Core.Path.{subst}
use containerd_shim_spin.Prelude.{
  ◌≡◌, ◌↔◌, refl, true, false, Option, none, some, List, [], ◌∷◌, ◌++◌, arith, inl, inr, Bool-cases,
}
use containerd_shim_spin.Oci.{Bytes, WasmLayer}
use containerd_shim_spin.Exec.{Error, Result, ok, err, Result-cases, not_a_precompiled_component}
use containerd_shim_spin.Host.{Host}
use containerd_shim_spin.Utils.{is_wasm_type, is_wasm_content}
use containerd_shim_spin.Engine.Compiler.{◌>>=◌, recompile, compile_wasm, compile}

module _ (H : Host) where
  -- What the framework may be handed for a layer: nothing for content that is not Wasm; nothing for
  -- bytes of the local cache, which wasmtime recognises; and for all else the output of wasmtime on
  -- a component made from the layer's bytes.
  pub data IsAnswer (layer : WasmLayer) (answer : Option Bytes) : Type 0 where
    skipped : is_wasm_type layer.config.media_type ≡ false → answer ≡ none → IsAnswer layer answer
    cached :
        is_wasm_type layer.config.media_type ≡ true
        → layer.precompiled ≡ true
        → H.detect_precompiled layer.layer ≡ true
        → answer ≡ none
        → IsAnswer layer answer
    compiled :
        {component artifact : Bytes}
        → is_wasm_type layer.config.media_type ≡ true
        → layer.precompiled ≡ false
        → H.componentize_if_necessary layer.layer ≡ ok component
        → H.precompile_component component ≡ ok artifact
        → answer ≡ some artifact
        → IsAnswer layer answer

  -- Why a layer stops the compilation.
  pub data IsRefused (layer : WasmLayer) (e : Error) : Type 0 where
    not_an_artifact :
        is_wasm_type layer.config.media_type ≡ true
        → layer.precompiled ≡ true
        → H.detect_precompiled layer.layer ≡ false
        → e ≡ not_a_precompiled_component
        → IsRefused layer e
    not_a_component :
        is_wasm_type layer.config.media_type ≡ true
        → layer.precompiled ≡ false
        → H.componentize_if_necessary layer.layer ≡ err e
        → IsRefused layer e
    not_compilable :
        {component : Bytes}
        → is_wasm_type layer.config.media_type ≡ true
        → layer.precompiled ≡ false
        → H.componentize_if_necessary layer.layer ≡ ok component
        → H.precompile_component component ≡ err e
        → IsRefused layer e

  abbrev pub compiled_layer : WasmLayer → Result (Option Bytes)
  compiled_layer layer = compile_wasm H (is_wasm_content layer)

  abbrev Judged : WasmLayer → Result (Option Bytes) → Type 0
  Judged layer (ok answer) = IsAnswer layer answer
  Judged layer (err e) = IsRefused layer e

  recompile-Judged :
      (layer : WasmLayer)
      → is_wasm_type layer.config.media_type ≡ true
      → layer.precompiled ≡ false
      → Judged layer (recompile H layer)
  unfolding recompile
  recompile-Judged layer wasm fresh =
      elim (Result-cases (H.componentize_if_necessary layer.layer)) [
        | inr (e, bad) ↦ rw bad (not_a_component wasm fresh bad)
        | inl (component, made) ↦ rw made (elim (Result-cases (H.precompile_component component)) [
          | inr (e, bad) ↦ rw bad (not_compilable wasm fresh made bad)
          | inl (artifact, good) ↦ rw good (compiled wasm fresh made good refl)
        ])
      ]

  compiled_layer-Judged : (layer : WasmLayer) → Judged layer (compiled_layer layer)
  unfolding compile_wasm is_wasm_content
  compiled_layer-Judged layer = elim (Bool-cases (is_wasm_type layer.config.media_type)) [
    | inr plain ↦ rw plain (skipped plain refl)
    | inl wasm ↦ rw wasm (elim (Bool-cases layer.precompiled) [
      | inr fresh ↦ simp fresh (recompile-Judged layer wasm fresh)
      | inl old ↦ simp old (elim (Bool-cases (H.detect_precompiled layer.layer)) [
        | inl known ↦ simp known (cached wasm old known refl)
        | inr alien ↦ simp alien (not_an_artifact wasm old alien refl)
      ])
    ])
  ]

  IsAnswer-compiled_layer :
      (layer : WasmLayer) (answer : Option Bytes)
      → IsAnswer layer answer
      → compiled_layer layer ≡ ok answer
  unfolding compile_wasm is_wasm_content
  IsAnswer-compiled_layer layer answer (skipped a b) = ground arith
  IsAnswer-compiled_layer layer answer (cached a b c d) = ground arith
  IsAnswer-compiled_layer layer answer (compiled a b c d e) = ground arith

  -- The answers of a list of layers, one for each layer and in their order.
  abbrev pub Answers : List WasmLayer → List (Option Bytes) → Type 0
  Answers [] [] = Unit
  Answers (layer ∷ layers) (answer ∷ answers) = IsAnswer layer answer × Answers layers answers
  Answers [] (_ ∷ _) = ⊥
  Answers (_ ∷ _) [] = ⊥

  -- The first layer that is refused, behind layers that all have an answer.
  pub data FirstRefused (layers : List WasmLayer) (e : Error) : Type 0 where
    first_refused :
        (front : List WasmLayer) (answers : List (Option Bytes)) (layer : WasmLayer)
        (back : List WasmLayer)
        → layers ≡ front ++ layer ∷ back
        → Answers front answers
        → IsRefused layer e
        → FirstRefused layers e

  abbrev Verdict : List WasmLayer → Result (List (Option Bytes)) → Type 0
  Verdict layers (ok answers) = Answers layers answers
  Verdict layers (err e) = FirstRefused layers e

  Verdict-cons :
      (layer : WasmLayer) (layers : List WasmLayer) (one : Result (Option Bytes))
      (rest : Result (List (Option Bytes)))
      → Judged layer one
      → Verdict layers rest
      → Verdict (layer ∷ layers) (one >>= λ answer. rest >>= λ answers. ok (answer ∷ answers))
  Verdict-cons layer layers (err e) rest j v = first_refused [] [] layer layers refl tt j
  Verdict-cons layer layers (ok answer) (ok answers) j v = (j, v)
  Verdict-cons layer layers (ok answer) (err e) j (first_refused front answers bad back whole a r) =
      first_refused (layer ∷ front) (answer ∷ answers) bad back (cc) (j, a) r

  compile-Verdict : (layers : List WasmLayer) → Verdict layers (compile H layers)
  unfolding compile
  compile-Verdict [] = tt
  compile-Verdict (layer ∷ layers) =
      Verdict-cons layer layers (compiled_layer layer) (compile H layers)
        (compiled_layer-Judged layer) (compile-Verdict layers)

  Answers-compile :
      (layers : List WasmLayer) (answers : List (Option Bytes))
      → Answers layers answers
      → compile H layers ≡ ok answers
  unfolding compile
  Answers-compile [] [] a = refl
  Answers-compile (layer ∷ layers) (answer ∷ answers) (one, rest) =
      rw (IsAnswer-compiled_layer layer answer one, Answers-compile layers answers rest)
  Answers-compile [] (_ ∷ _) a = absurd a
  Answers-compile (_ ∷ _) [] a = absurd a

  -- `compile` succeeds with a list of answers exactly when these are, one for each layer and in the
  -- order of the layers, what the framework may be handed for them.
  pub compile-eq-ok_iff :
      (layers : List WasmLayer) (answers : List (Option Bytes))
      → (compile H layers ≡ ok answers) ↔ Answers layers answers
  compile-eq-ok_iff layers answers =
      (λ h. subst (Verdict layers) h (compile-Verdict layers), Answers-compile layers answers)

  -- `compile` fails only with the error of the first layer that is refused: each layer before it has
  -- an answer.
  pub compile-eq-err :
      (layers : List WasmLayer) (e : Error) → compile H layers ≡ err e → FirstRefused layers e
  compile-eq-err layers e h = subst (Verdict layers) h (compile-Verdict layers)
