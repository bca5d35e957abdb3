-- ===== src/Tests/Handlers.antt =====
-- The theorems on the sample applications at concrete inputs.
use containerd_shim_spin.Prelude.{some, [], ◌∷◌, ◌≡◌, refl}
use containerd_shim_spin.Apps.Sdk.{Redis, done, pos, assertion_failed}
use containerd_shim_spin.Apps.OutboundRedis.Served
use containerd_shim_spin.Apps.Dapr
use containerd_shim_spin.Apps.MultiTrigger
use containerd_shim_spin.Apps.Logic.{Ensures}
use containerd_shim_spin.Apps.OutboundRedis.{hello_world}
use containerd_shim_spin.Apps.OutboundRedis.Served.{IsServed, hello_world-IsServed}
use containerd_shim_spin.Apps.Dapr.{handle_spin_dapr, IsEcho, handle_spin_dapr-IsEcho}
use containerd_shim_spin.Apps.KeyValue.{handle_kv, IsWow, IsStoreError, handle_kv-IsWow}
use containerd_shim_spin.Apps.MultiTrigger.{on_message, IsHandled, on_message-IsHandled}
use containerd_shim_spin.Samples.Services.{
  Server, sample_redis, sample_redis-IsRedis, sample_variables, sample_stores,
  sample_stores-IsStores, event, empty_server,
}

hello_world-IsServed_example :
    Ensures
      (IsServed sample_variables sample_redis sample_redis-IsRedis empty_server)
      (Served.IsFault sample_variables sample_redis empty_server)
      (hello_world sample_variables sample_redis)
      empty_server
hello_world-IsServed_example =
    hello_world-IsServed sample_variables sample_redis sample_redis-IsRedis empty_server

handle_spin_dapr-IsEcho_example :
    Ensures
      (IsEcho sample_redis sample_redis-IsRedis event empty_server)
      (Dapr.IsFault sample_redis sample_redis-IsRedis event empty_server)
      (handle_spin_dapr sample_redis event)
      empty_server
handle_spin_dapr-IsEcho_example =
    handle_spin_dapr-IsEcho sample_redis sample_redis-IsRedis event empty_server

handle_kv-IsWow_example :
    Ensures
      (IsWow sample_stores sample_stores-IsStores empty_server)
      (IsStoreError sample_stores sample_stores-IsStores empty_server)
      (handle_kv sample_stores event)
      empty_server
handle_kv-IsWow_example = handle_kv-IsWow sample_stores sample_stores-IsStores event empty_server

on_message-IsHandled_example :
    Ensures
      (IsHandled sample_variables sample_redis
        (λ _. some "hi")
        sample_redis-IsRedis
        (1 ∷ [])
        empty_server)
      (MultiTrigger.IsFault sample_variables sample_redis
        (λ _. some "hi")
        sample_redis-IsRedis
        (1 ∷ [])
        empty_server)
      (on_message sample_variables sample_redis (λ _. some "hi") (1 ∷ []))
      empty_server
on_message-IsHandled_example =
    on_message-IsHandled sample_variables sample_redis (λ _. some "hi") sample_redis-IsRedis
      (1 ∷ []) empty_server

-- Another client has increased the counter between the two steps of the handler.
abbrev shared_redis : Redis Server Unit
shared_redis = record sample_redis { incr = λ c key s. (done (pos 2), s) }

hello_world-shared_test :
    (hello_world sample_variables shared_redis empty_server).0 ≡ assertion_failed
unfolding hello_world containerd_shim_spin.Apps.Sdk.◌>>=◌ containerd_shim_spin.Apps.Sdk.ask
    containerd_shim_spin.Apps.Sdk.ask_as containerd_shim_spin.Apps.Sdk.assert_eq
hello_world-shared_test = refl
