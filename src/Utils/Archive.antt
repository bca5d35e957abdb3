-- ===== src/Utils/Archive.antt =====
-- `handle_archive_layer` of containerd-shim-spin/src/utils.rs.
use containerd_shim_spin.Prelude.{
  String, ◌≡◌, refl, Option, none, some, [], ◌∷◌, ◌++◌, arith, ◌⊎◌, inl, inr, eq_iff, ◌==◌,
  if◌then◌else◌,
}
use containerd_shim_spin.Env.{OsString, var, to_str, var-put_var}
use containerd_shim_spin.Oci.{Bytes}
use containerd_shim_spin.Exec.{World, returned, unpack_archive, ◌>>=◌, await, call, set_var}
use containerd_shim_spin.Host.{Host, Cache}
use containerd_shim_spin.Utils.{or_dot, handle_archive_layer}

-- The temporary directory in force: the one that was set, else the current directory, else `.`.
abbrev pub temp_dir : Option String → Option OsString → Option String
temp_dir (some dir) _ = some dir
temp_dir none (some dir) = to_str (some dir)
temp_dir none none = some "."

abbrev pub archive_env : Host → World → String → Option String
archive_env H w asked =
    if "TMPDIR" == asked then temp_dir (var w.env "TMPDIR") (H.current_dir w) else var w.env asked

Option-cases : (o : Option String) → ((s : String) × (o ≡ some s)) ⊎ (o ≡ none)
Option-cases (some s) = inl (s, refl)
Option-cases none = inr refl

-- When the archive has been unpacked, that was the only call; a temporary directory was set only if
-- there was none, and no other variable has changed.
pub handle_archive_layer_lem :
    (H : Host) (cache : Cache) (bytes : Bytes) (digest : String) (w : World) (asked : String)
    → (handle_archive_layer H cache bytes digest w).0 ≡ returned tt
    → let w' = (handle_archive_layer H cache bytes digest w).1 in
      (w'.calls ≡ w.calls ++ unpack_archive bytes digest ∷ [])
      × (w'.files ≡ w.files)
      × (var w'.env asked ≡ archive_env H w asked)
unfolding handle_archive_layer ◌>>=◌ await call set_var
handle_archive_layer_lem H cache bytes digest w asked h = (
  ground arith,
  ground arith,
  elim (Option-cases (var w.env "TMPDIR")) [
    | inl (dir, found) ↦ ground (arith, eq_iff "TMPDIR" asked)
    | inr absent ↦ ground (arith, var-put_var w.env "TMPDIR" (or_dot H (H.current_dir w)) asked)
  ],
)
