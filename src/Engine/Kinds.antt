-- ===== src/Engine/Kinds.antt =====
-- The kinds of triggers beside the set of types in `get_supported_triggers` of
-- containerd-shim-spin/src/trigger.rs.
use mathlib.Core.Equiv.{IsEquiv, iso_to_equiv}
use mathlib.Core.HLevel.{Σ_prop_path}
use mathlib.Core.Bool.{Bool-set}
use containerd_shim_spin.Prelude.{
  String, ◌≡◌, ap, ◌∙◌, true, arith, eq_iff, eq_refl, ◌==◌, if◌then◌else◌, sym, if_cases,
  Bool-cases, inl, inr,
}
use containerd_shim_spin.App.{TriggerKind, http, redis, sqs, command, mqtt}
use containerd_shim_spin.Host.{Host}
use containerd_shim_spin.Trigger.{contains, supported_triggers}
use containerd_shim_spin.Trigger.Supported.{nodup}
use containerd_shim_spin.Engine.Arms.{known_nowhere}

-- `TYPE` of the trigger of a kind.
abbrev pub kind_type : Host → TriggerKind → String
kind_type H http = H.http_trigger_type
kind_type H redis = H.redis_trigger_type
kind_type H sqs = H.sqs_trigger_type
kind_type H command = H.command_trigger_type
kind_type H mqtt = H.mqtt_trigger_type

module _ (H : Host) where
  abbrev pub SupportedType : Type 0
  SupportedType = (type : String) × (contains (supported_triggers H) type ≡ true)

  pub kind_type-supported :
      (kind : TriggerKind) → contains (supported_triggers H) (kind_type H kind) ≡ true
  unfolding supported_triggers
  kind_type-supported http = ground (arith, eq_refl H.http_trigger_type)
  kind_type-supported redis = ground (arith, eq_refl H.redis_trigger_type)
  kind_type-supported sqs = ground (arith, eq_refl H.sqs_trigger_type)
  kind_type-supported command = ground (arith, eq_refl H.command_trigger_type)
  kind_type-supported mqtt = ground (arith, eq_refl H.mqtt_trigger_type)

  abbrev pub supported_kind : TriggerKind → SupportedType
  supported_kind kind = (kind_type H kind, kind_type-supported kind)

  abbrev kind_named : String → TriggerKind
  kind_named type =
      if type == H.http_trigger_type
      then http
      else if type == H.redis_trigger_type
      then redis
      else if type == H.sqs_trigger_type
      then sqs
      else if type == H.command_trigger_type
      then command
      else mqtt

  kind_type-kind_named :
      (type : String)
      → contains (supported_triggers H) type ≡ true
      → kind_type H (kind_named type) ≡ type
  kind_type-kind_named type known =
      let fits = λ (kind : TriggerKind). kind_type H kind ≡ type in
      if_cases fits (type == H.http_trigger_type) _ _ (λ same. sym ((eq_iff _ _).0 same))
        λ not_http.
          if_cases fits (type == H.redis_trigger_type) _ _ (λ same. sym ((eq_iff _ _).0 same))
            λ not_redis.
              if_cases fits (type == H.sqs_trigger_type) _ _ (λ same. sym ((eq_iff _ _).0 same))
                λ not_sqs.
                  if_cases fits (type == H.command_trigger_type) _ _
                    (λ same. sym ((eq_iff _ _).0 same))
                    λ not_command. elim (Bool-cases (type == H.mqtt_trigger_type)) [
                      | inl same ↦ sym ((eq_iff _ _).0 same)
                      | inr not_mqtt ↦
                          let unknown =
                            known_nowhere H type not_http not_redis not_sqs not_command not_mqtt in
                          cc
                    ]

  kind_named-kind_type :
      nodup (supported_triggers H) ≡ true
      → (kind : TriggerKind) → kind_named (kind_type H kind) ≡ kind
  unfolding supported_triggers
  kind_named-kind_type apart http = ground (arith, eq_refl H.http_trigger_type)
  kind_named-kind_type apart redis = ground (arith, eq_refl H.redis_trigger_type)
  kind_named-kind_type apart sqs = ground (arith, eq_refl H.sqs_trigger_type)
  kind_named-kind_type apart command = ground (arith, eq_refl H.command_trigger_type)
  kind_named-kind_type apart mqtt = ground (arith, eq_refl H.mqtt_trigger_type)

  pub supported_kind-IsEquiv : nodup (supported_triggers H) ≡ true → IsEquiv supported_kind
  supported_kind-IsEquiv apart =
      (iso_to_equiv (record {
        fun = supported_kind;
        inv = λ (type, known). kind_named type;
        rinv = λ (type, known). Σ_prop_path (λ _. Bool-set _ _) (kind_type-kind_named type known);
        linv = kind_named-kind_type apart;
      })).1

  pub kind_type-injective :
      nodup (supported_triggers H) ≡ true
      → (first second : TriggerKind) → kind_type H first ≡ kind_type H second
      → first ≡ second
  kind_type-injective apart first second same =
      sym (kind_named-kind_type apart first)
      ∙ ap kind_named same
      ∙ kind_named-kind_type apart second
