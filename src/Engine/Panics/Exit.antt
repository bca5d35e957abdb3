-- ===== src/Engine/Panics/Exit.antt =====
-- The outcomes with which `run_wasi` of containerd-shim-spin/src/engine.rs may end.
use containerd_shim_spin.Prelude.{ℕ, String, ◌≡◌, refl, List, [], ◌∷◌, ◌++◌, arith}
use containerd_shim_spin.Env.{OsString}
use containerd_shim_spin.Exec.{
  Outcome, returned, failed, panicked, aborted, Call, Result, ok, err, call, set_var, continue,
  of_result, World, Exec, ◌>>=◌,
}
use containerd_shim_spin.Exec.Ends.{Ended, Anything}
use containerd_shim_spin.Engine.{set_envs, exit_code}
use containerd_shim_spin.Engine.Panics.Rules.{Allowed}

-- An outcome that is no abort, and whose panics are allowed.
abbrev pub Exits : {A : Type 0} → (A → Type 0) → Outcome A → Type 0
Exits P (returned a) = P a
Exits P (failed _) = Unit
Exits P (panicked p) = Allowed p
Exits P aborted = ⊥

-- How `run_wasi` may end: with exit code 0, with an error, or with an allowed panic.
abbrev pub IsExit : Outcome ℕ → Type 0
IsExit = Exits (λ code. code ≡ 0)

pub Exits-continue :
    {A B : Type 0} (P : B → Type 0) (r : Outcome A) (f : A → Exec B) (w : World)
    → Exits Anything r
    → ((a : A) (w' : World) → Exits P (f a w').0)
    → Exits P (continue r f w).0
Exits-continue P (returned a) f w h k = k a w
Exits-continue P (failed e) f w h k = tt
Exits-continue P (panicked p) f w h k = h
Exits-continue P aborted f w h k = h

pub of_result-Exits : {A : Type 0} (r : Result A) → Exits Anything (of_result r)
of_result-Exits (ok a) = tt
of_result-Exits (err e) = tt

pub call-Exits :
    {A : Type 0} (c : Call) (answer : World → Result A) (w : World)
    → Exits Anything (call c answer w).0
unfolding call
call-Exits c answer w = of_result-Exits (answer (record w { calls = w.calls ++ c ∷ [] }))

pub set_var-Exits :
    (key : String) (value : OsString) (w : World) → Exits Anything (set_var key value w).0
unfolding set_var
set_var-Exits key value w = ground arith

pub set_envs-Exits : (envs : List String) (w : World) → Exits Anything (set_envs envs w).0
unfolding set_envs ◌>>=◌
set_envs-Exits [] w = tt
set_envs-Exits (v ∷ envs) w =
    Exits-continue _ _ _ _ (set_var-Exits _ _ w) λ _ w'. set_envs-Exits envs w'

pub exit_code-IsExit :
    (outcome : Outcome (Unit {0})) → Ended Anything Allowed outcome → IsExit (exit_code outcome)
exit_code-IsExit (returned _) h = refl
exit_code-IsExit (failed e) h = tt
exit_code-IsExit (panicked p) h = h
exit_code-IsExit aborted h = refl
