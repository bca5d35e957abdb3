-- ===== src/Conformance/Sessions.antt =====
-- What a conformance test that returns has done: `run_test` of conformance-tests/src/main.rs.
mod Rules
mod Files
mod Starting
use containerd_shim_spin.Prelude.{String, ◌≡◌, List, [], ◌∷◌, ◌++◌, append_assoc}
use containerd_shim_spin.Conformance.{answered}
use containerd_shim_spin.Conformance.Machine.{
  Action, good, send, kill, Log, Machine, ◌>>=◌, finally,
}
use containerd_shim_spin.Conformance.Shim.{SpinShim, Test, unwrap_text}
use containerd_shim_spin.Conformance.Sessions.Starting.{IsUp}

module _ (M : Machine) where
  -- One request for each invocation, in their order: its request in the environment, sent to the port of
  -- the shim while its process runs, and an answer that the check of the invocation accepts.
  abbrev pub AreRequests : SpinShim → List String → List Action → Type 0
  AreRequests shim [] es = es ≡ []
  AreRequests shim (invocation ∷ invocations) es =
      (request : String) × (answer : String) × (rest : List Action) × ((log : Log) × (M.substitute
            log invocation
          ≡ good request))
      × ((log : Log) × (M.answer log shim.process request ≡ answered answer))
      × (M.check invocation answer ≡ good tt)
      × (es ≡ send shim.process shim.port request ∷ rest)
      × AreRequests shim invocations rest

  -- What a test does: its files are stored and its image is run, each invocation sends its request, and
  -- the shim is killed.
  abbrev pub IsSession : Test → String → String → List Action → Type 0
  IsSession test spin_binary ctr_binary es =
      (shim : SpinShim) × (up : List Action) × (requests : List Action) × IsUp M ctr_binary
        spin_binary test shim up
      × AreRequests shim test.invocations requests
      × (es ≡ up ++ (requests ++ kill shim.process ∷ []))
