-- ===== src/Tests/Triggers.antt =====
-- The theorems on triggers and on failing runs at concrete inputs.
use mathlib.Core.List.Permᴰ
use containerd_shim_spin.Prelude.{◌≡◌, refl, true, [], ◌∷◌}
use containerd_shim_spin.Oci.{RuntimeContext}
use containerd_shim_spin.App.{LockedApp}
use containerd_shim_spin.Exec.{external, err, failed}
use containerd_shim_spin.Host.{Host}
use containerd_shim_spin.Trigger.{get_supported_triggers, supported_triggers}
use containerd_shim_spin.Trigger.Unordered.{as_set, get_supported_triggers-perm}
use containerd_shim_spin.Engine.Exhaustive.{IsExhaustive, launch-IsExhaustive}
use containerd_shim_spin.Samples.{
  context_of, cached_image, trigger_of, app_of, two_triggers, host, cached_context,
}

launch-IsExhaustive_example : IsExhaustive host cached_context "pod" two_triggers true
unfolding supported_triggers
launch-IsExhaustive_example = launch-IsExhaustive host cached_context "pod" two_triggers true refl

abbrev turned : LockedApp
turned = app_of (trigger_of "two" "redis" ∷ trigger_of "one" "http" ∷ [])

get_supported_triggers-perm_example :
    as_set (get_supported_triggers host two_triggers) ≡ as_set (get_supported_triggers host turned)
get_supported_triggers-perm_example =
    get_supported_triggers-perm host two_triggers turned ∣ Permᴰ.swap refl refl ∣₁

-- A host without a place for the cache.
abbrev full_host : Host
full_host = record host { new_cache = λ w path. err (external "no space") }

abbrev limited_context : RuntimeContext
limited_context = context_of ("SPIN_MAX_INSTANCE_MEMORY=1000" ∷ []) cached_image
