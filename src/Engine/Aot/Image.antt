-- ===== src/Engine/Aot/Image.antt =====
-- Which images may be loaded as AOT compiled components: `layers_from_precompile_cache` of
-- containerd-shim-spin/src/engine.rs and its use in `run_trigger`.
use containerd_shim_spin.Prelude.{
  ◌↔◌, refl, ◌≡◌, Bool, true, false, List, [], ◌∷◌, arith, All, inl, inr, Bool-cases, all, any,
}
use containerd_shim_spin.Oci.{WasmLayer, Entry, oci, RuntimeContext}
use containerd_shim_spin.Exec.{Call, start_trigger, Exec}
use containerd_shim_spin.Exec.Makes.{Makes}
use containerd_shim_spin.Utils.{is_wasm_type, is_wasm_content}
use containerd_shim_spin.Source.{Source}
use containerd_shim_spin.Engine.{is_empty, wasm_layers, from_precompile_cache, loader_aot}

-- Whether a source was stored from an image.
abbrev pub is_of_image : Source → Bool
is_of_image (Source.file _) = false
is_of_image Source.oci_spin = true
is_of_image (Source.oci_wkg _) = true

abbrev is_wasm : WasmLayer → Bool
is_wasm layer = is_wasm_type layer.config.media_type

-- An image of which every Wasm layer comes from the local precompile cache, and that has one.
abbrev pub IsTrusted : Entry → Type 0
IsTrusted (Entry.file _) = ⊥
IsTrusted (oci layers) =
    (any is_wasm layers ≡ true) × All (λ l. is_wasm l ≡ true → l.precompiled ≡ true) layers

all-keep :
    (layers : List WasmLayer)
    → all (λ l. l.precompiled) (wasm_layers layers) ≡ true
    → All (λ l. is_wasm l ≡ true → l.precompiled ≡ true) layers
unfolding is_wasm_content
all-keep [] h = tt
all-keep (layer ∷ layers) h = elim (Bool-cases (is_wasm layer)) [
  | inl wasm ↦ (λ _. ground arith, all-keep layers (ground arith))
  | inr plain ↦ (λ wasm. cc, all-keep layers (ground arith))
]

any-keep :
    (layers : List WasmLayer) → is_empty (wasm_layers layers) ≡ false → any is_wasm layers ≡ true
unfolding is_wasm_content
any-keep [] h = cc
any-keep (layer ∷ layers) h = ground (arith, any-keep layers)

-- `filter`, `is_empty` and `all` decide what `IsTrusted` says.
from_precompile_cache-IsTrusted :
    (entry : Entry) → from_precompile_cache entry ≡ true → IsTrusted entry
unfolding from_precompile_cache
from_precompile_cache-IsTrusted (Entry.file _) h = cc
from_precompile_cache-IsTrusted (oci layers) h =
    (any-keep layers (ground arith), all-keep layers (ground arith))

pub loader_aot-IsTrusted :
    (ctx : RuntimeContext) (source : Source)
    → loader_aot ctx source ≡ true
    → IsTrusted ctx.entrypoint
unfolding loader_aot
loader_aot-IsTrusted ctx (Source.file _) h = cc
loader_aot-IsTrusted ctx Source.oci_spin h = from_precompile_cache-IsTrusted ctx.entrypoint h
loader_aot-IsTrusted ctx (Source.oci_wkg _) h = from_precompile_cache-IsTrusted ctx.entrypoint h

keep-all :
    (layers : List WasmLayer)
    → All (λ l. is_wasm l ≡ true → l.precompiled ≡ true) layers
    → all (λ l. l.precompiled) (wasm_layers layers) ≡ true
unfolding is_wasm_content
keep-all [] h = refl
keep-all (layer ∷ layers) (here, later) = elim (Bool-cases (is_wasm layer)) [
  | inl wasm ↦ ground (arith, here wasm, keep-all layers later)
  | inr plain ↦ ground (arith, keep-all layers later)
]

keep-any :
    (layers : List WasmLayer) → any is_wasm layers ≡ true → is_empty (wasm_layers layers) ≡ false
unfolding is_wasm_content
keep-any [] h = cc
keep-any (layer ∷ layers) h = ground (arith, keep-any layers)

IsTrusted-from_precompile_cache :
    (entry : Entry) → IsTrusted entry → from_precompile_cache entry ≡ true
unfolding from_precompile_cache
IsTrusted-from_precompile_cache (Entry.file _) h = absurd h
IsTrusted-from_precompile_cache (oci layers) (some_wasm, trusted) =
    ground (arith, keep-any layers some_wasm, keep-all layers trusted)

-- AOT loading is enabled exactly when the source comes from an image, this image has a Wasm layer, and
-- each of its Wasm layers comes from the local precompile cache.
pub loader_aot-eq-true_iff :
    (ctx : RuntimeContext) (source : Source)
    → (loader_aot ctx source ≡ true) ↔ (is_of_image source ≡ true × IsTrusted ctx.entrypoint)
unfolding loader_aot
loader_aot-eq-true_iff ctx (Source.file _) = (λ h. cc, λ h. cc)
loader_aot-eq-true_iff ctx Source.oci_spin = (
  λ h. (refl, from_precompile_cache-IsTrusted ctx.entrypoint h),
  λ h. IsTrusted-from_precompile_cache ctx.entrypoint h.1,
)
loader_aot-eq-true_iff ctx (Source.oci_wkg _) = (
  λ h. (refl, from_precompile_cache-IsTrusted ctx.entrypoint h),
  λ h. IsTrusted-from_precompile_cache ctx.entrypoint h.1,
)

-- A trigger that is started with AOT loading is started for a trusted image.
abbrev pub IsGuarded : Entry → Call → Type 0
IsGuarded entry (start_trigger launched) = launched.aot ≡ true → IsTrusted entry
IsGuarded entry _ = Unit

abbrev pub Guarded : RuntimeContext → {A : Type 0} → Exec A → Type 0
Guarded ctx m = Makes (IsGuarded ctx.entrypoint) m
