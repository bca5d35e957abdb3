-- ===== src/Conformance/Sessions/Files.antt =====
-- The files that `run_test` of conformance-tests/src/main.rs puts into the environment of a test.
use containerd_shim_spin.Prelude.{
  String, ◌≡◌, refl, sym, ap, append-nil, Option, none, some, List, [], ◌∷◌,
}
use containerd_shim_spin.Conformance.Machine.{
  Action, write_file, copy_into, act, pure, panic, Try, good, bad, Log, Machine, returned, ◌>>=◌,
  io,
}
use containerd_shim_spin.Conformance.Shim.{Test, init_env, unwrap_text, unwrap_name}
use containerd_shim_spin.Conformance.Sessions.Rules.{
  Does, Does-map, Does-panic, Only, Does-pure, Does-act, Does-bind,
}

module _ (M : Machine) where
  -- The manifest of a test is read and filled in, and written beside its component.
  abbrev pub IsStored : Test → List Action → Type 0
  IsStored test es =
      (manifest : String) × (contents : String) × (file_name : String) × ((log : Log) × (M.template
            log test.manifest
          ≡ good manifest))
      × ((log : Log) × (M.fill log manifest ≡ good contents))
      × (M.file_name test.component ≡ some file_name)
      × (es ≡ write_file "spin.toml" contents ∷ copy_into test.component file_name ∷ [])

  unwrap_text-good :
      (found : Try String) (log : Log) (text : String)
      → (unwrap_text M found log).0 ≡ returned text
      → ((unwrap_text M found log).1 ≡ log) × (found ≡ good text)
  unfolding pure panic
  unwrap_text-good (good _) log text h = (refl, cc)
  unwrap_text-good (bad e) log text h = cc

  pub unwrap_text-Does :
      (found : Log → Try String)
      → Does
          (λ text es. ((log : Log) × (found log ≡ good text)) × (es ≡ []))
          (λ log. unwrap_text M (found log) log)
  unwrap_text-Does found = record {
    at = λ log text h.
        let (same, answer) = unwrap_text-good (found log) log text h in
        ([], rw append-nil same, ((log, answer), refl));
  }

  unwrap_name-Does :
      (found : Option String)
      → Does (λ name es. (found ≡ some name) × (es ≡ [])) (unwrap_name M found)
  unwrap_name-Does none = Does-panic _
  unwrap_name-Does (some name) =
      Does-map _ _ _ (Does-pure name) λ found es (same, none_more). (ap some (sym same), none_more)

  copied-Does :
      (test : Test)
      → Does
          (λ _ es.
            (file_name : String) × (M.file_name test.component ≡ some file_name)
            × (es ≡ copy_into test.component file_name ∷ []))
          (unwrap_name M (M.file_name test.component) >>= λ file_name.
            act
              (copy_into test.component file_name)
              io
              (λ log. M.copies log test.component file_name))
  copied-Does test =
      Does-bind (λ name es. (M.file_name test.component ≡ some name) × (es ≡ []))
        (λ name _ es. es ≡ copy_into test.component name ∷ []) _ _ _
        (unwrap_name-Does (M.file_name test.component)) (λ name. Does-act _ _ _)
        λ name _ first second (named, e) f. (name, named, rw (e, f) refl)

  pub init_env-Does : (test : Test) → Does (λ _. IsStored test) (init_env M test)
  unfolding init_env
  init_env-Does test =
      Does-bind
        (λ manifest es. ((log : Log) × (M.template log test.manifest ≡ good manifest)) × (es ≡ []))
        (λ manifest _ es.
          (contents : String) × (file_name : String) × ((log : Log) × (M.fill log manifest
              ≡ good contents))
          × (M.file_name test.component ≡ some file_name)
          × (es ≡ write_file "spin.toml" contents ∷ copy_into test.component file_name ∷ []))
        _ _ _ (unwrap_text-Does _)
        (λ manifest.
          Does-bind
            (λ contents es. ((log : Log) × (M.fill log manifest ≡ good contents)) × (es ≡ []))
            (λ contents _ es.
              (file_name : String) × (M.file_name test.component ≡ some file_name)
              × (es ≡ write_file "spin.toml" contents ∷ copy_into test.component file_name ∷ []))
            _ _ _ (unwrap_text-Does _)
            (λ contents.
              Does-bind (Only (write_file "spin.toml" contents ∷ [])) _ _ _ _ (Does-act _ _ _)
                (λ _. copied-Does test)
                λ _ _ first second e (file_name, named, f). (file_name, named, rw (e, f) refl))
            λ contents _ first second (filled, e) (file_name, named, f).
              (contents, file_name, filled, named, rw (e, f) refl))
        λ manifest _ first second (read, e) (contents, file_name, filled, named, f).
          (manifest, contents, file_name, read, filled, named, rw (e, f) refl)
