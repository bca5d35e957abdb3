-- ===== src/Conformance/Services.antt =====
-- The loop of `run_test` over the preconditions of a test: conformance-tests/src/main.rs.
use containerd_shim_spin.Prelude.{
  String, ◌≡◌, refl, ◌∙◌, Bool, true, false, List, [], ◌∷◌, ◌++◌, arith, all, ◌==◌, append_assoc,
  append-nil, Option, none, some, Bool-cases, inl, inr, if◌then◌else◌,
}
use containerd_shim_spin.Conformance.{
  Precondition, http_echo, key_value_store, tcp_echo, sqlite, redis, mqtt, Selected, selected,
  unsupported_label, push_services, services_for,
}

-- The services that one precondition needs.
abbrev pub needs : Precondition → List String
needs http_echo = "http-echo" ∷ []
needs (key_value_store _) = []
needs tcp_echo = "tcp-echo" ∷ []
needs sqlite = []
needs redis = "redis" ∷ []
needs mqtt = "mqtt" ∷ []

abbrev pub needs_all : List Precondition → List String
needs_all [] = []
needs_all (p ∷ ps) = needs p ++ needs_all ps

-- Whether the harness can meet a precondition.
abbrev pub can_meet : Precondition → Bool
can_meet (key_value_store label) = label == "default"
can_meet _ = true

push_services-one :
    (p : Precondition) (ps : List Precondition) (services : List String)
    → can_meet p ≡ true
    → push_services (p ∷ ps) services ≡ push_services ps (services ++ needs p)
unfolding push_services
push_services-one http_echo ps services h = refl
push_services-one (key_value_store label) ps services h = rw h (rw append-nil refl)
push_services-one tcp_echo ps services h = refl
push_services-one sqlite ps services h = rw append-nil refl
push_services-one redis ps services h = refl
push_services-one mqtt ps services h = refl

push_services-nil : (services : List String) → push_services [] services ≡ selected services
unfolding push_services
push_services-nil services = refl

push_services-needs_all :
    (ps qs : List Precondition) (services : List String)
    → all can_meet ps ≡ true
    → push_services (ps ++ qs) services ≡ push_services qs (services ++ needs_all ps)
push_services-needs_all [] qs services h = rw append-nil refl
push_services-needs_all (p ∷ ps) qs services h =
    rw
      (
        push_services-one p (ps ++ qs) services (ground arith),
        push_services-needs_all ps qs (services ++ needs p) (ground arith),
        append_assoc services (needs p) (needs_all ps),
      )
      refl

-- When every precondition can be met, the services are the registry and then those that the
-- preconditions need, in their order.
pub services_for-selected :
    (ps : List Precondition)
    → all can_meet ps ≡ true
    → services_for ps ≡ selected ("registry" ∷ needs_all ps)
services_for-selected ps h =
    rw append-nil at (push_services-needs_all ps [] ("registry" ∷ []) h) ∙ push_services-nil _

push_services-unsupported_label :
    (label : String) (qs : List Precondition) (services : List String)
    → (label == "default") ≡ false
    → push_services (key_value_store label ∷ qs) services ≡ unsupported_label label
unfolding push_services
push_services-unsupported_label label qs services h = rw h refl

-- The first key value store with another label than `default` stops the test with a panic that names
-- this label.
pub services_for-unsupported_label :
    (ps : List Precondition) (label : String) (qs : List Precondition)
    → all can_meet ps ≡ true
    → (label == "default") ≡ false
    → services_for (ps ++ key_value_store label ∷ qs) ≡ unsupported_label label
services_for-unsupported_label ps label qs h other =
    push_services-needs_all ps (key_value_store label ∷ qs) ("registry" ∷ []) h
    ∙ push_services-unsupported_label label qs _ other

-- The label of the first key value store that the harness does not have.
abbrev pub first_unmet : List Precondition → Option String
first_unmet [] = none
first_unmet (key_value_store label ∷ ps) =
    let rest = first_unmet ps in if label == "default" then rest else some label
first_unmet (_ ∷ ps) = first_unmet ps

-- How the selection should end, by the first precondition that cannot be met, if there is one.
abbrev pub selection : Option String → List String → Selected
selection none services = selected services
selection (some label) services = unsupported_label label

push_services-eq-selection :
    (ps : List Precondition) (services : List String)
    → push_services ps services ≡ selection (first_unmet ps) (services ++ needs_all ps)
unfolding push_services
push_services-eq-selection [] services = rw append-nil refl
push_services-eq-selection (http_echo ∷ ps) services =
    rw (push_services-eq-selection ps _, append_assoc) refl
push_services-eq-selection (key_value_store label ∷ ps) services =
    elim (Bool-cases (label == "default")) [
      | inl default ↦ rw default (push_services-eq-selection ps services)
      | inr other ↦ rw other refl
    ]
push_services-eq-selection (tcp_echo ∷ ps) services =
    rw (push_services-eq-selection ps _, append_assoc) refl
push_services-eq-selection (sqlite ∷ ps) services = push_services-eq-selection ps services
push_services-eq-selection (redis ∷ ps) services =
    rw (push_services-eq-selection ps _, append_assoc) refl
push_services-eq-selection (mqtt ∷ ps) services =
    rw (push_services-eq-selection ps _, append_assoc) refl

-- The first key value store with another label than `default` stops the test with a panic that names
-- this label. Without one, the services are the registry and then those that the preconditions need,
-- in their order.
pub services_for-eq-selection :
    (ps : List Precondition)
    → services_for ps ≡ selection (first_unmet ps) ("registry" ∷ needs_all ps)
services_for-eq-selection ps = push_services-eq-selection ps ("registry" ∷ [])
