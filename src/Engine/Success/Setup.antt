-- ===== src/Engine/Success/Setup.antt =====
-- The part of a run before its triggers, on a host that is up.
use containerd_shim_spin.Prelude.{
  String, ◌≡◌, refl, true, Option, none, some, List, [], ◌∷◌, arith, all,
}
use containerd_shim_spin.Prelude.Maps.{lookup}
use containerd_shim_spin.Text.{to_ascii_uppercase, holds_char}
use containerd_shim_spin.Env.{unicode, is_settable}
use containerd_shim_spin.Oci.{Bytes}
use containerd_shim_spin.App.{Component, LockedApp}
use containerd_shim_spin.Exec.{World, ok}
use containerd_shim_spin.Exec.Total.{
  clean_mode, IsReady, IsCleanValue, Given, Gives, Returns, Gives-pure, Gives-lift, Gives-call,
  Gives-with_context, Gives-await, Gives-bind_of, Gives-bind, Returns-set_var, Gives-get_var,
  returns_rules,
}
use containerd_shim_spin.Exec.Total.States.{Given-await, Given-with_context, Given-bind}
use containerd_shim_spin.Host.{Host, Cache, read_file}
use containerd_shim_spin.Utils.{initialize_cache, prefixed, copy_value, configure_variables}
use containerd_shim_spin.Source.{oci_spin, resolve_component, resolve_components, to_locked_app}
use containerd_shim_spin.Engine.{set_envs, retain_configured}
use containerd_shim_spin.Engine.Shutdown.{entry_settable, key_value-eq-entry}
use containerd_shim_spin.Engine.Success.Up.{is_nameable, IsRunnable, IsUp}

module _ (cut : Type 0) where
  pub set_envs-Returns :
      (envs : List String)
      → all entry_settable envs ≡ true
      → Returns (clean_mode cut) (set_envs envs)
  unfolding set_envs
  set_envs-Returns [] h = search returns_rules
  set_envs-Returns (v ∷ envs) h =
      Gives-bind _ _ (Returns-set_var _ _ (rw (key_value-eq-entry v) (ground arith)))
        λ _. set_envs-Returns envs (ground arith)

  settable_value :
      (key value : String)
      → is_nameable key ≡ true
      → IsCleanValue (some value)
      → is_settable (prefixed (to_ascii_uppercase key)) (unicode value) ≡ true
  unfolding is_settable
  settable_value key value h clean = ground (arith, clean value refl)

  copy_value-Returns :
      (key : String) (found : Option String)
      → is_nameable key ≡ true
      → IsCleanValue found
      → Returns (clean_mode cut) (copy_value (to_ascii_uppercase key) found)
  copy_value-Returns key none h clean = search returns_rules
  copy_value-Returns key (some value) h clean =
      Returns-set_var _ _ (settable_value key value h clean)

  pub configure_variables-Returns :
      (keys : List String)
      → all is_nameable keys ≡ true
      → Returns (clean_mode cut) (configure_variables keys)
  unfolding configure_variables
  configure_variables-Returns [] h = search returns_rules
  configure_variables-Returns (key ∷ keys) h =
      Gives-bind_of IsCleanValue _ _ (Gives-get_var _) λ found clean.
        Gives-bind _ _ (copy_value-Returns key found (ground arith) clean)
          λ _. configure_variables-Returns keys (ground arith)

  cache_settable : is_settable "XDG_CACHE_HOME" (unicode "/.cache") ≡ true
  unfolding is_settable holds_char
  cache_settable = refl

  module _ (H : Host) (U : IsUp H) where
    pub initialize_cache-Returns : Returns (clean_mode cut) (initialize_cache H)
    unfolding initialize_cache
    initialize_cache-Returns =
        Gives-bind _ _
          (Gives-with_context _ _ (
            Gives-await _
              (Gives-call _ _ λ w. let (c, e) = U.opens_cache w "/.cache" in (c, e, tt))))
          λ cache. Gives-bind _ _ (Returns-set_var _ _ cache_settable) λ _. Gives-pure cache tt

    resolve_components-Returns :
        (cache : Cache) (components : List Component)
        → Returns (clean_mode cut) (resolve_components H cache components)
    unfolding resolve_components resolve_component
    resolve_components-Returns cache [] = search returns_rules
    resolve_components-Returns cache (component ∷ components) =
        Gives-bind _ _
          (Gives-with_context _ _ (
            Gives-await _
              (Gives-call _ _ λ w. let (c, e) = U.resolves w cache component in (c, e, tt))))
          λ resolved.
            Gives-bind _ _ (resolve_components-Returns cache components) λ rest. Gives-pure _ tt

    pub retain_configured-Gives :
        (found : Option String) (app : LockedApp)
        → IsRunnable H app
        → Gives (clean_mode cut) (IsRunnable H) (retain_configured H found app)
    unfolding retain_configured
    retain_configured-Gives none app runnable = Gives-pure app runnable
    retain_configured-Gives (some names) app runnable =
        Gives-with_context _ _ (Gives-call _ _ λ w. U.retains w app _ runnable)

    read_file-Given :
        (path : String) (bytes : Bytes) (w : World)
        → IsReady (clean_mode cut) w
        → lookup path w.files ≡ some bytes
        → Given
            (clean_mode cut)
            (λ content. content ≡ bytes)
            (read_file H path w).0
            (read_file H path w).1
    unfolding read_file
    read_file-Given path bytes w q there = rw (there, U.reads) (refl, q)

    -- An app that is loaded from the configuration can be run if the configuration says so.
    pub to_locked_app-Given :
        (cache : Cache) (bytes : Bytes) (app : LockedApp) (w : World)
        → H.from_json bytes ≡ ok app
        → IsRunnable H app
        → IsReady (clean_mode cut) w
        → lookup "/spin.json" w.files ≡ some bytes
        → Given
            (clean_mode cut)
            (IsRunnable H)
            (to_locked_app H cache oci_spin w).0
            (to_locked_app H cache oci_spin w).1
    unfolding to_locked_app
    to_locked_app-Given cache bytes app w decodes runnable q there =
        Given-bind (clean_mode cut) (λ content. content ≡ bytes) _ _ _ w
          (Given-with_context (clean_mode cut) _ _ _ w (
            Given-await (clean_mode cut) _ _ w q
              λ signal may. read_file-Given _ bytes _ (may, q.1) there))
          λ content same.
            Gives-bind_of (λ decoded. decoded ≡ app) _ _
              (Gives-with_context _ _ (Gives-lift _ (app, rw same decodes, refl)))
              λ decoded equal.
                Gives-bind _ _ (resolve_components-Returns cache decoded.components) λ components.
                  Gives-pure _ (record {
                    some_trigger = rw equal runnable.some_trigger;
                    all_supported = rw equal runnable.all_supported;
                    nameable = rw equal runnable.nameable;
                  })
