-- ===== src/Apps/OutboundRedis.antt =====
-- images/spin-outbound-redis/src/lib.rs
pub mod Served
use containerd_shim_spin.Prelude.{
  ℕ, String, ◌≡◌, refl, Option, some, List, [], ◌∷◌, ◌++◌, arith, ◌⊎◌, inl, inr, ◌∙◌, ap,
}
use containerd_shim_spin.Oci.{Bytes}
use containerd_shim_spin.Apps.Sdk.{
  ℤ, pos, AppError, sdk, executing_set, executing_incr, querying, no_value, Answer, done, error,
  Handler, Variables, Redis, into_bytes, ask, ask_as, present, attempt, assert_eq, ◌>>=◌, ◌>>◌,
  pure,
}
use containerd_shim_spin.Apps.Logic.{
  answer-pair, Ensures, Ensures-bind, Ensures-ask, Ensures-ask_as, Ensures-pure, Ensures-present,
  Ensures-attempt, Ensures-assert_eq, IsRedis,
}

-- `StatusCode::OK` and `StatusCode::INTERNAL_SERVER_ERROR`
abbrev pub publish_status : Answer Unit → ℕ
publish_status (done _) = 200
publish_status (error _) = 500

module _ {S C : Type 0} (V : Variables S) (R : Redis S C) where
  unfoldable pub hello_world : Handler S ℕ
  hello_world = do
    address ← ask (V.get_variable "redis_address")
    channel ← ask (V.get_variable "redis_channel")
    conn ← ask (R.open_redis address)
    ask_as executing_set (R.set conn "spin-example" (into_bytes "Eureka!"))
    ask_as executing_set (R.set conn "int-key" (into_bytes "0"))
    int_value ← ask_as executing_incr (R.incr conn "int-key")
    assert_eq int_value (pos 1)
    found ← ask_as querying (R.get conn "spin-example")
    payload ← present no_value found
    published ← attempt (R.publish conn channel payload)
    pure (publish_status published)
