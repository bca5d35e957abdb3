-- ===== src/UnitTests/Loading.antt =====
-- The unit tests of containerd-shim-spin/src/source.rs for `Source::to_locked_app` on files of the test
-- machine, and their success where `spin_loader` loads files.
use containerd_shim_spin.Prelude.{
  String, ◌<>◌, ◌≡◌, refl, Bool, true, false, Option, none, some, List, [], ◌∷◌, ◌++◌, ◌==◌,
  eq_refl,
}
use containerd_shim_spin.Prelude.Maps.{lookup, insert, lookup-insert}
use containerd_shim_spin.Oci.{Bytes}
use containerd_shim_spin.App.{Component, LockedApp}
use containerd_shim_spin.Exec.{
  Outcome, returned, World, Error, ok, err, load_manifest, load_wasm_file, await, call,
  with_context,
}
use containerd_shim_spin.Host.{Host, Cache}
use containerd_shim_spin.Source.{file, oci_wkg, to_locked_app}
use containerd_shim_spin.UnitTests.Sources.{is_failed}

-- The locked app has one component, with this source.
abbrev is_from : String → Option String → Bool
is_from uri none = false
is_from uri (some source) = source == uri

abbrev is_single : String → List Component → Bool
is_single uri (component ∷ []) = is_from uri component.content_source
is_single uri _ = false

abbrev is_loaded_from : String → Outcome LockedApp → Bool
is_loaded_from uri (returned app) = is_single uri app.components
is_loaded_from uri _ = false

module _ (H : Host) (cache : Cache) (w : World) where
  abbrev pub to_locked_app_file_not_found_returns_error : Bool
  to_locked_app_file_not_found_returns_error =
      is_failed (to_locked_app H cache (file "/nonexistent/spin.toml") w).0

  -- `wasm` is the module that `wat` parses; it is written to `wasm_path` in a new directory.
  abbrev pub to_locked_app_oci_wkg_valid_wasm_module_returns_locked_app : String → Bytes → Bool
  to_locked_app_oci_wkg_valid_wasm_module_returns_locked_app wasm_path wasm =
      let w' = record w { files = insert wasm_path wasm w.files } in
      is_loaded_from ("file://" <> wasm_path) (to_locked_app H cache (oci_wkg wasm_path) w').0

-- `spin_loader` on files: a manifest that is not there is an error, and an app that is loaded from a
-- module that is there has one component, with the module's path.
pub record LoadsFiles (H : Host) (wasm : Bytes) : Type 0 where
  pub no_manifest :
      (w : World) (path : String)
      → lookup path w.files ≡ none
      → (e : Error) × (H.from_file w path ≡ err e)
  pub of_module :
      (w : World) (path : String)
      → lookup path w.files ≡ some wasm
      → (app : LockedApp) × (H.from_wasm_file w path ≡ ok app)
        × ((component : Component) × (app.components ≡ component ∷ [])
            × (component.content_source ≡ some ("file://" <> path)))

module _ (H : Host) (cache : Cache) (wasm : Bytes) (L : LoadsFiles H wasm) (w : World)
    (quiet : w.signal ≡ none) where
  file_not_found_passes :
      lookup "/nonexistent/spin.toml" w.files ≡ none
      → to_locked_app_file_not_found_returns_error H cache w ≡ true
  unfolding to_locked_app await call
  file_not_found_passes missing =
      let w' = record w {
        calls = w.calls ++ load_manifest "/nonexistent/spin.toml" ∷ [];
        signal = none;
      } in
      let (e, refused) = L.no_manifest w' "/nonexistent/spin.toml" missing in
      simp (quiet, refused) refl

  valid_module_passes :
      (wasm_path : String)
      → to_locked_app_oci_wkg_valid_wasm_module_returns_locked_app H cache w wasm_path wasm ≡ true
  unfolding to_locked_app await call with_context
  valid_module_passes wasm_path =
      let w' = record w {
        files = insert wasm_path wasm w.files;
        calls = w.calls ++ load_wasm_file wasm_path ∷ [];
        signal = none;
      } in
      let there = rw eq_refl at (lookup-insert wasm_path wasm w.files wasm_path) in
      let (app, loaded, (component, one, from)) = L.of_module w' wasm_path there in
      simp (quiet, loaded, one, from, eq_refl) refl
