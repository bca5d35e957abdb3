-- ===== src/Shim.antt =====
-- containerd-shim-spin/src/main.rs, and the functions of `SpinShim` and `SpinSandbox` in engine.rs that
-- only answer the framework.
use containerd_shim_spin.Prelude.{String}
use containerd_shim_spin.Oci.{RuntimeContext}
use containerd_shim_spin.Exec.{Exec, pure}

-- `containerd_shim_wasm::shim::Config`, by the field that the shim sets and the others.
pub record Config (Rest : Type 0) : Type 0 where
  pub default_log_level : String
  pub rest : Rest

-- `Shim::name`
abbrev pub name : String
name = "spin"

unfoldable pub can_handle : RuntimeContext → Exec Unit
can_handle _ctx = pure tt

-- `SpinShim::run` and the default configuration are the framework's.
unfoldable pub main : {Rest A : Type 0} → (Config Rest → A) → Config Rest → A
main run default = run (record default { default_log_level = "error" })
