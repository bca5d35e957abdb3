-- ===== src/Engine/Panics/Rules.antt =====
-- The panics that remain possible in a run of the shim, and the rules for proofs about them.
use containerd_shim_spin.Exec.{
  Panic, unreachable_code, index_out_of_bounds, invalid_variable, empty_select,
}
use containerd_shim_spin.Exec.Ends.{
  Ends-pure, Ends-fail, Ends-panic, Ends-lift, Ends-call, Ends-gets, Ends-if, Ends-await,
  Ends-with_context, Ends-bind, Ends-set_var, Ends-put_file,
}

-- A variable that cannot be set, and a `select_all` of nothing; not `unreachable!()`, and no index
-- out of bounds.
abbrev pub Allowed : Panic → Type 0
Allowed (invalid_variable _) = Unit
Allowed empty_select = Unit
Allowed unreachable_code = ⊥
Allowed (index_out_of_bounds _) = ⊥

pub ruleset ends_rules = (
  Ends-pure, Ends-fail, Ends-panic, Ends-lift, Ends-call, Ends-gets, Ends-if, Ends-await,
  Ends-with_context, Ends-bind, Ends-set_var, Ends-put_file,
)
