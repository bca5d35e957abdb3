-- ===== src/Source/Errors/Files.antt =====
-- How the file operations of `Source` may fail.
use containerd_shim_spin.Prelude.{ℕ, String, ◌≡◌, Option, none, some, inl, inr, Option-cases}
use containerd_shim_spin.Prelude.Maps.{lookup}
use containerd_shim_spin.Oci.{Bytes}
use containerd_shim_spin.Exec.{Error, external, World, put_file}
use containerd_shim_spin.Exec.Fails.{FailsBy, fails_rules}
use containerd_shim_spin.Host.{Host, create_file, write_all, read_file}
use containerd_shim_spin.Utils.{ensure_tmpdir}

module _ (H : Host) {Q : Error → Type 0} where
  pub create_file-FailsBy :
      (path : String)
      → ((w : World) (e : Error) → H.create_fault w path ≡ some e → Q e)
      → FailsBy Q (create_file H path)
  unfolding create_file put_file
  create_file-FailsBy path h = record {
    at = λ w. elim (Option-cases (H.create_fault w path)) [
      | inl fine ↦ rw fine tt
      | inr (e, fault) ↦ rw fault (h w e fault)
    ];
  }

  pub write_all-FailsBy :
      (path : String) (bytes : Bytes)
      → ((w : World) (n : ℕ) (e : Error) → H.write_fault w path bytes ≡ some (n, e) → Q e)
      → FailsBy Q (write_all H path bytes)
  unfolding write_all put_file
  write_all-FailsBy path bytes h = record {
    at = λ w. elim (Option-cases (H.write_fault w path bytes)) [
      | inl fine ↦ rw fine tt
      | inr ((n, e), fault) ↦ rw fault (h w n e fault)
    ];
  }

  pub read_file-FailsBy :
      (path : String)
      → Q (external "No such file or directory")
      → ((w : World) (e : Error) → H.read_fault w path ≡ some e → Q e)
      → FailsBy Q (read_file H path)
  unfolding read_file
  read_file-FailsBy path missing h = record {
    at = λ w. elim (Option-cases (lookup path w.files)) [
      | inl absent ↦ rw absent missing
      | inr (bytes, there) ↦ elim (Option-cases (H.read_fault w path)) [
        | inl fine ↦ rw (there, fine) tt
        | inr (e, fault) ↦ rw (there, fault) (h w e fault)
      ]
    ];
  }

  pub ensure_tmpdir-FailsBy : (found : Option String) → FailsBy Q (ensure_tmpdir H found)
  ensure_tmpdir-FailsBy none = search fails_rules
  ensure_tmpdir-FailsBy (some _) = search fails_rules
