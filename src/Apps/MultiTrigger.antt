-- ===== src/Apps/MultiTrigger.antt =====
-- images/spin-multi-trigger-app: spin-http-trigger/src/lib.rs and spin-redis-trigger/src/lib.rs
use containerd_shim_spin.Prelude.{refl, ap, sym, ◌∙◌, none, String, ◌≡◌, Option, some, [], ◌∷◌}
use containerd_shim_spin.Oci.{Bytes}
use containerd_shim_spin.Apps.Sdk.{
  AppError, sdk, done, error, executing_set, invalid_utf8, Handler, Variables, Redis, Response,
  Request, into_bytes, present, ask, ask_as, ◌>>=◌, ◌>>◌,
}
use containerd_shim_spin.Apps.Logic.{
  answer-pair, Ensures, Ensures-bind, Ensures-ask, Ensures-ask_as, Ensures-present_of, IsRedis,
}

-- The handler of the HTTP trigger.
abbrev pub handle_http_trigger : Request → Response
handle_http_trigger _ = record {
  status = 200;
  headers = ("content-type", "text/plain") ∷ [];
  body = into_bytes "Hello world from multi trigger Spin!";
}

-- `from_utf8` is the one of the standard library, on the bytes of the message.
module _ {S C : Type 0} (V : Variables S) (R : Redis S C) (from_utf8 : Bytes → Option String) where
  unfoldable pub on_message : Bytes → Handler S Unit
  on_message message = do
    address ← ask (V.get_variable "redis_address")
    conn ← ask (R.open_redis address)
    present invalid_utf8 (from_utf8 message)
    ask_as executing_set (R.set conn "redis-trigger-app-key" (into_bytes "redis-trigger-app-value"))

module _ {S C : Type 0} (V : Variables S) (R : Redis S C) (from_utf8 : Bytes → Option String)
    (L : IsRedis R) where
  -- The connection that the handler opens: to the address that the variable `redis_address` gives.
  abbrev pub IsOpened : S → C → S → Type 0
  IsOpened s c s2 =
      (address : String) × (s1 : S) × (V.get_variable "redis_address" s ≡ (done address, s1))
      × (R.open_redis address s1 ≡ (done c, s2))

  -- What a handled message leaves: it was UTF-8, and Redis holds the value.
  abbrev pub IsHandled : Bytes → S → Unit {0} → S → Type 0
  IsHandled message s _ s' =
      ((text : String) × (from_utf8 message ≡ some text))
      × ((c : C) × ((s2 : S) × IsOpened s c s2)
          × (L.value s' c "redis-trigger-app-key" ≡ some (into_bytes "redis-trigger-app-value")))

  -- An operation of the run has failed, with this error and state, or the message is not UTF-8.
  pub data IsFault (message : Bytes) (s : S) (e : AppError) (s' : S) : Type 0 where
    no_address :
        (reason : String)
        → e ≡ sdk reason
        → V.get_variable "redis_address" s ≡ (error reason, s')
        → IsFault message s e s'
    unopened :
        (reason address : String) (s1 : S)
        → e ≡ sdk reason
        → V.get_variable "redis_address" s ≡ (done address, s1)
        → R.open_redis address s1 ≡ (error reason, s')
        → IsFault message s e s'
    no_text : e ≡ invalid_utf8 → from_utf8 message ≡ none → IsFault message s e s'
    unset :
        (reason : String) (c : C) (s2 : S)
        → e ≡ executing_set
        → IsOpened s c s2
        → R.set c "redis-trigger-app-key" (into_bytes "redis-trigger-app-value") s2
          ≡ (error reason, s')
        → IsFault message s e s'

  abbrev IsText : Bytes → S → String → S → Type 0
  IsText message s text s' = (from_utf8 message ≡ some text) × (s' ≡ s)

  -- The handler accepts every message that is UTF-8, unless an operation of its run fails. A message that
  -- it accepts is UTF-8, and Redis then holds `redis-trigger-app-value` under `redis-trigger-app-key`, on
  -- the server of the connection that the handler opened, to the address in `redis_address`. (Redis
  -- stores.)
  pub on_message-IsHandled :
      (message : Bytes) (s : S)
      → Ensures (IsHandled message s) (IsFault message s) (on_message V R from_utf8 message) s
  unfolding on_message
  on_message-IsHandled message s =
      Ensures-bind (λ address s1. V.get_variable "redis_address" s ≡ (done address, s1)) _ _ s
        (Ensures-ask _ s (λ _ h. answer-pair _ h) (λ e h. no_address e refl (answer-pair _ h)))
        λ address s1 given.
          Ensures-bind (IsOpened s) _ _ s1
            (Ensures-ask _ s1 (λ c h. (address, s1, given, answer-pair _ h))
              (λ e h. unopened e address s1 refl given (answer-pair _ h)))
            λ c s2 opened.
              Ensures-bind (IsText message s2) _ _ s2
                (Ensures-present_of _ _ s2 (λ text valid. (valid, refl)) (λ h. no_text refl h))
                λ text s3 (valid, same).
                  Ensures-ask_as _ _ s3
                    (λ _ h. (
                      (text, valid),
                      (c, (s2, opened), L.set_lem s3 c _ _ h "redis-trigger-app-key"),
                    ))
                    (λ e h. unset e c s2 refl opened (
                      ap (R.set c "redis-trigger-app-key" (into_bytes "redis-trigger-app-value"))
                        (sym same)
                      ∙ answer-pair
                          (R.set c "redis-trigger-app-key" (into_bytes "redis-trigger-app-value")
                            s3)
                          h))
