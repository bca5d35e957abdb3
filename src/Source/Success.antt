-- ===== src/Source/Success.antt =====
-- `Source::from_ctx` of containerd-shim-spin/src/source.rs on a host where no call fails.
use containerd_shim_spin.Prelude.{
  ℕ, String, ◌≡◌, refl, true, false, Option, none, some, List, [], ◌∷◌, arith, any, length, inl,
  inr,
}
use containerd_shim_spin.Env.{is_settable}
use containerd_shim_spin.Oci.{Bytes, MediaType, WasmLayer, oci}
use containerd_shim_spin.Exec.{World, ok, Exec, returned, put_file}
use containerd_shim_spin.Exec.Total.{
  Mode, Gives, Returns, Given-returned, Gives-pure, Gives-gets, Gives-call, Gives-with_context,
  Gives-await, Gives-bind_of, Gives-bind, Returns-set_var,
}
use containerd_shim_spin.Host.{Host, Cache, create_file, write_all}
use containerd_shim_spin.Utils.{or_dot, ensure_tmpdir, handle_archive_layer}
use containerd_shim_spin.Source.{
  Source, oci_spin, store_config, store_wasm, store_data, store_archive, handle_layer,
  handle_layers, from_entry, or_continue,
}
use containerd_shim_spin.Source.Arms.{handle_layer_cases}
use containerd_shim_spin.Source.Layers.{is_package_type, is_package}

-- A host on which nothing that `from_ctx` does for a layer fails.
pub record IsHealthy (H : Host) (cache : Cache) : Type 0 where
  pub creates : (w : World) (path : String) → H.create_fault w path ≡ none
  pub writes : (w : World) (path : String) (bytes : Bytes) → H.write_fault w path bytes ≡ none
  pub stores_wasm :
      (w : World) (bytes : Bytes) (digest : String) → H.write_wasm w cache bytes digest ≡ ok tt
  pub stores_data :
      (w : World) (bytes : Bytes) (digest : String) → H.write_data w cache bytes digest ≡ ok tt
  pub unpacks :
      (w : World) (bytes : Bytes) (digest : String)
      → H.unpack_archive_layer w cache bytes digest ≡ ok tt
  pub has_dir : (w : World) → is_settable "TMPDIR" (or_dot H (H.current_dir w)) ≡ true

module _ (M : Mode) (H : Host) (cache : Cache) (G : IsHealthy H cache) where
  -- The action goes on to the next layer.
  abbrev GoesOn : Exec (Option Source) → Type 0
  GoesOn m = Gives M (λ early. early ≡ none) m

  create_file-Returns : (path : String) → Returns M (create_file H path)
  unfolding create_file put_file
  create_file-Returns path = record { at = λ w q. rw (G.creates w path) (tt, q) }

  write_all-Returns : (path : String) (bytes : Bytes) → Returns M (write_all H path bytes)
  unfolding write_all put_file
  write_all-Returns path bytes = record { at = λ w q. rw (G.writes w path bytes) (tt, q) }

  store_config-GoesOn : (layer : WasmLayer) → GoesOn (store_config H cache layer)
  unfolding store_config
  store_config-GoesOn layer =
      Gives-bind _ _ (Gives-with_context _ _ (create_file-Returns _)) λ _.
        Gives-bind _ _ (Gives-with_context _ _ (write_all-Returns _ _)) λ _. Gives-pure none refl

  store_wasm-GoesOn : (layer : WasmLayer) → GoesOn (store_wasm H cache layer)
  unfolding store_wasm
  store_wasm-GoesOn layer =
      Gives-bind _ _ (Gives-await _ (Gives-call _ _ λ w. (tt, G.stores_wasm w _ _, tt)))
        λ _. Gives-pure none refl

  store_data-GoesOn : (layer : WasmLayer) → GoesOn (store_data H cache layer)
  unfolding store_data
  store_data-GoesOn layer =
      Gives-bind _ _ (Gives-await _ (Gives-call _ _ λ w. (tt, G.stores_data w _ _, tt)))
        λ _. Gives-pure none refl

  ensure_tmpdir-Returns : (found : Option String) → Returns M (ensure_tmpdir H found)
  ensure_tmpdir-Returns (some dir) = Gives-pure tt tt
  ensure_tmpdir-Returns none =
      Gives-bind_of (λ dir. is_settable "TMPDIR" dir ≡ true) _ _ (Gives-gets _ λ w q. G.has_dir w)
        λ dir settable. Returns-set_var "TMPDIR" dir settable

  store_archive-GoesOn : (layer : WasmLayer) → GoesOn (store_archive H cache layer)
  unfolding store_archive handle_archive_layer
  store_archive-GoesOn layer =
      Gives-bind _ _
        (Gives-with_context _ _ (
          Gives-await _ (
            Gives-bind _ _ (Gives-gets _ λ w q. tt) λ found.
              Gives-bind _ _ (ensure_tmpdir-Returns found)
                λ _. Gives-await _ (Gives-call _ _ λ w. (tt, G.unpacks w _ _, tt)))))
        λ _. Gives-pure none refl

  handle_layer-GoesOn :
      (layers : ℕ) (layer : WasmLayer) (type : MediaType)
      → is_package_type type ≡ false
      → GoesOn (handle_layer H cache layers layer type)
  handle_layer-GoesOn layers layer type plain =
      handle_layer_cases H cache layers layer type GoesOn (store_config-GoesOn layer)
        (store_wasm-GoesOn layer) (λ named. cc) (store_data-GoesOn layer)
        (store_archive-GoesOn layer) (Gives-pure none refl)

  abbrev GivesSpin : Exec Source → Type 0
  GivesSpin m = Gives M (λ source. source ≡ oci_spin) m

  or_continue-GivesSpin :
      (early : Option Source) (rest : Exec Source)
      → early ≡ none
      → GivesSpin rest
      → GivesSpin (or_continue early rest)
  or_continue-GivesSpin early rest same k = rw same k

  handle_layers-GivesSpin :
      (layers : ℕ) (artifacts : List WasmLayer)
      → any is_package artifacts ≡ false
      → GivesSpin (handle_layers H cache layers artifacts)
  unfolding handle_layers
  handle_layers-GivesSpin layers [] plain = Gives-pure oci_spin refl
  handle_layers-GivesSpin layers (layer ∷ artifacts) plain =
      Gives-bind_of (λ early. early ≡ none) _ _
        (handle_layer-GoesOn layers layer layer.config.media_type (ground arith))
        λ early same.
          or_continue-GivesSpin early _ same
            (handle_layers-GivesSpin layers artifacts (ground arith))

  pub from_entry-GivesSpin :
      (layers : List WasmLayer)
      → any is_package layers ≡ false
      → GivesSpin (from_entry H cache (oci layers))
  unfolding from_entry
  from_entry-GivesSpin layers plain = handle_layers-GivesSpin (length layers) layers plain

-- No signal, and any environment.
abbrev quiet_mode : Mode
quiet_mode = record { cut = ⊥; kept = λ _. Unit; kept-put_var = λ env key value h settable. tt }

-- On a host where no call fails, an image without packages gives `OciSpin`, whatever its layers.
-- (No signal comes.)
pub from_entry_succeeds :
    (H : Host) (cache : Cache)
    → IsHealthy H cache
    → (layers : List WasmLayer) (w : World) → any is_package layers ≡ false
    → w.signal ≡ none
    → (from_entry H cache (oci layers) w).0 ≡ returned oci_spin
from_entry_succeeds H cache G layers w plain quiet =
    elim (Given-returned quiet_mode (λ source. source ≡ oci_spin) _ _
      ((from_entry-GivesSpin quiet_mode H cache G layers plain).at w (inl quiet, tt))) [
        | inl (source, done, same, _) ↦ rw (done, same) refl
        | inr (dropped, never) ↦ absurd never
      ]
