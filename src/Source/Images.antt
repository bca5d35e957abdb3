-- ===== src/Source/Images.antt =====
-- `Source::from_ctx` of containerd-shim-spin/src/source.rs over whole images: the source that
-- results, and what has been stored when it does.
use containerd_shim_spin.Prelude.{
  ℕ, String, ◌≡◌, ◌≢◌, refl, sym, ap, ◌∙◌, true, false, Option, none, some, List, [], ◌∷◌, ◌++◌,
  arith, ◌⊎◌, inl, inr, append-nil, append_assoc, length, any, ◌==◌,
}
use containerd_shim_spin.Prelude.Maps.{lookup}
use containerd_shim_spin.Oci.{Bytes, WasmLayer, oci, oci_layer_media_type_wasm_wkg}
use containerd_shim_spin.Exec.{Call, World, returned, >>=-returned, pure}
use containerd_shim_spin.Host.{Host, Cache}
use containerd_shim_spin.Source.{
  Source, oci_spin, oci_wkg, handle_layer, or_continue, handle_layers, from_entry,
}
use containerd_shim_spin.Source.Layers.{
  calls_of, config_of, is_package, Stores, handle_layer-Stores, handle_layer-package,
  handle_layer-no_package,
}

module _ (H : Host) (cache : Cache) where
  -- How the loop goes on after its first layer.
  pub data LoopStep (layers : ℕ) (layer : WasmLayer) (rest : List WasmLayer) (w : World)
      (source : Source) : Type 0 where
    early :
        layers ≡ 1
        → is_package layer ≡ true
        → source ≡ oci_wkg (H.wasm_path cache layer.config.digest)
        → LoopStep layers layer rest w source
    goes_on :
        (handle_layer H cache layers layer layer.config.media_type w).0 ≡ returned none
        → (handle_layers H cache layers rest
            (handle_layer H cache layers layer layer.config.media_type w).1).0
          ≡ returned source
        → (handle_layers H cache layers (layer ∷ rest) w).1
          ≡ (handle_layers H cache layers rest
              (handle_layer H cache layers layer layer.config.media_type w).1).1
        → LoopStep layers layer rest w source

  LoopStep-or_continue :
      (layers : ℕ) (layer : WasmLayer) (rest : List WasmLayer) (w : World) (source : Source)
      (found : Option Source)
      → (handle_layer H cache layers layer layer.config.media_type w).0 ≡ returned found
      → handle_layers H cache layers (layer ∷ rest) w
        ≡ or_continue found
            (handle_layers H cache layers rest)
            (handle_layer H cache layers layer layer.config.media_type w).1
      → (handle_layers H cache layers (layer ∷ rest) w).0 ≡ returned source
      → LoopStep layers layer rest w source
  unfolding pure
  LoopStep-or_continue layers layer rest w source none head whole h = goes_on head (cc) (cc)
  LoopStep-or_continue layers layer rest w source (some found) head whole h =
      let (one, named, same) = handle_layer-package H cache layers layer _ w found head in
      let e : returned found ≡ returned source = sym (ap (λ r. r.0) whole) ∙ h in
      early one named (cc)

  handle_layers-LoopStep :
      (layers : ℕ) (layer : WasmLayer) (rest : List WasmLayer) (w : World) (source : Source)
      → (handle_layers H cache layers (layer ∷ rest) w).0 ≡ returned source
      → LoopStep layers layer rest w source
  unfolding handle_layers
  handle_layers-LoopStep layers layer rest w source h =
      let (found, head, whole) =
        >>=-returned (handle_layer H cache layers layer layer.config.media_type)
          (λ found. or_continue found (handle_layers H cache layers rest)) w h in
      LoopStep-or_continue layers layer rest w source found head whole h

  Stores-append :
      (w w' w'' : World) (now later : List Call) (config config' : Option Bytes)
      → Stores w now config w'
      → Stores w' later config' w''
      → Stores w (now ++ later) config' w''
  Stores-append w w' w'' now later config config' first second = record {
    calls_made = rw (second.calls_made, first.calls_made) (append_assoc w.calls now later);
    config_kept = second.config_kept;
  }

  handle_layers-nil :
      (layers : ℕ) (w : World)
      → Stores w [] (lookup "/spin.json" w.files) (handle_layers H cache layers [] w).1
  unfolding handle_layers pure
  handle_layers-nil layers w = record { calls_made = rw append-nil; config_kept = refl }

  handle_layers-Stores :
      (layers : ℕ) (artifacts : List WasmLayer) (w : World)
      → (handle_layers H cache layers artifacts w).0 ≡ returned oci_spin
      → Stores w
          (calls_of H artifacts)
          (config_of H (lookup "/spin.json" w.files) artifacts)
          (handle_layers H cache layers artifacts w).1
  handle_layers-Stores layers [] w h = handle_layers-nil layers w
  handle_layers-Stores layers (layer ∷ rest) w h =
      elim (handle_layers-LoopStep layers layer rest w oci_spin h) [
        | early one named same ↦ cc
        | goes_on head tail whole ↦
            let step = handle_layer-Stores H cache layers layer layer.config.media_type w head in
            let later = handle_layers-Stores layers rest _ tail in
            rw whole (Stores-append w _ _ _ _ _ _ step (rw step.config_kept at later))
      ]

  handle_layers-spin :
      (layers : ℕ) (w : World) (source : Source)
      → (handle_layers H cache layers [] w).0 ≡ returned source
      → source ≡ oci_spin
  unfolding handle_layers pure
  handle_layers-spin layers w source h = cc

  -- The loop gives no other source than these two.
  pub handle_layers-source :
      (layers : ℕ) (artifacts : List WasmLayer) (w : World) (source : Source)
      → (handle_layers H cache layers artifacts w).0 ≡ returned source
      → (source ≡ oci_spin) ⊎ ((path : String) × (source ≡ oci_wkg path))
  handle_layers-source layers [] w source h = inl (handle_layers-spin layers w source h)
  handle_layers-source layers (layer ∷ rest) w source h =
      elim (handle_layers-LoopStep layers layer rest w source h) [
        | early one named same ↦ inr (_, same)
        | goes_on head tail whole ↦ handle_layers-source layers rest _ source tail
      ]

  handle_layers-many :
      (layers : ℕ) (artifacts : List WasmLayer) (w : World) (source : Source)
      → layers ≢ 1
      → (handle_layers H cache layers artifacts w).0 ≡ returned source
      → source ≡ oci_spin
  handle_layers-many layers [] w source many h = handle_layers-spin layers w source h
  handle_layers-many layers (layer ∷ rest) w source many h =
      elim (handle_layers-LoopStep layers layer rest w source h) [
        | early one named same ↦ absurd (many one)
        | goes_on head tail whole ↦ handle_layers-many layers rest _ source many tail
      ]

  handle_layers-packages :
      (layers : ℕ) (artifacts : List WasmLayer) (w : World)
      → (H.spin_application_media_type == oci_layer_media_type_wasm_wkg) ≡ false
      → (handle_layers H cache layers artifacts w).0 ≡ returned oci_spin
      → any is_package artifacts ≡ false
  handle_layers-packages layers [] w apart h = refl
  handle_layers-packages layers (layer ∷ rest) w apart h =
      elim (handle_layers-LoopStep layers layer rest w oci_spin h) [
        | early one named same ↦ cc
        | goes_on head tail whole ↦
            rw (handle_layer-no_package H cache layers layer layer.config.media_type w apart head)
              (handle_layers-packages layers rest _ apart tail)
      ]

  -- An image that gives `OciSpin`: its layers are stored one by one, in their order and each once,
  -- and `/spin.json` holds the last configuration among them, or what it held before.
  pub from_entry-oci_spin :
      (layers : List WasmLayer) (w : World)
      → (from_entry H cache (oci layers) w).0 ≡ returned oci_spin
      → Stores w
          (calls_of H layers)
          (config_of H (lookup "/spin.json" w.files) layers)
          (from_entry H cache (oci layers) w).1
  unfolding from_entry
  from_entry-oci_spin layers w h = handle_layers-Stores (length layers) layers w h

  -- An image that gives `OciWkg` has one layer, of the type of a package, and the source is the place
  -- of this layer in the cache.
  pub from_entry-oci_wkg :
      (layers : List WasmLayer) (w : World) (path : String)
      → (from_entry H cache (oci layers) w).0 ≡ returned (oci_wkg path)
      → (layer : WasmLayer) × (layers ≡ layer ∷ [])
        × (is_package layer ≡ true)
        × (path ≡ H.wasm_path cache layer.config.digest)
  unfolding from_entry handle_layers pure
  from_entry-oci_wkg [] w path h = cc
  from_entry-oci_wkg (layer ∷ []) w path h =
      elim (handle_layers-LoopStep 1 layer [] w (oci_wkg path) h) [
        | early one named same ↦ (layer, refl, named, ground arith)
        | goes_on head tail whole ↦ cc
      ]
  from_entry-oci_wkg (layer ∷ next ∷ rest) w path h =
      let spin =
        handle_layers-many (length (layer ∷ next ∷ rest)) (layer ∷ next ∷ rest) w _ (omega arith)
          h in
      cc

  -- An image that holds a package beside other layers is refused, whatever the order of the layers:
  -- no source results. (The media type of Spin applications is not that of packages.)
  pub from_entry_mixed :
      (layers : List WasmLayer) (w : World) (source : Source)
      → (H.spin_application_media_type == oci_layer_media_type_wasm_wkg) ≡ false
      → any is_package layers ≡ true
      → length layers ≢ 1
      → ¬ ((from_entry H cache (oci layers) w).0 ≡ returned source)
  unfolding from_entry
  from_entry_mixed layers w source apart package_in many h =
      let spin = handle_layers-many (length layers) layers w source many h in
      cc (handle_layers-packages (length layers) layers w apart (rw spin at h))
