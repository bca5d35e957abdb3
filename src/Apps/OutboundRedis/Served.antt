-- ===== src/Apps/OutboundRedis/Served.antt =====
-- What images/spin-outbound-redis/src/lib.rs leaves in Redis, and how it fails.
use containerd_shim_spin.Prelude.{
  ℕ, String, ◌≡◌, refl, Option, some, List, [], ◌∷◌, ◌++◌, arith, ◌⊎◌, inl, inr, ◌∙◌, ap,
}
use containerd_shim_spin.Oci.{Bytes}
use containerd_shim_spin.Apps.Sdk.{
  ℤ, pos, AppError, sdk, executing_set, executing_incr, querying, no_value, Answer, done, error,
  Handler, Variables, Redis, into_bytes, ask_as, present, attempt, assert_eq, ◌>>=◌, ◌>>◌, pure,
}
use containerd_shim_spin.Apps.Logic.{
  answer-pair, Ensures, Ensures-bind, Ensures-ask, Ensures-ask_as, Ensures-pure, Ensures-present,
  Ensures-attempt, Ensures-assert_eq, IsRedis,
}
use containerd_shim_spin.Apps.OutboundRedis.{publish_status, hello_world}

module _ {S C : Type 0} (V : Variables S) (R : Redis S C) where
  -- The channel and the connection of a run: those that the variables `redis_channel` and
  -- `redis_address` name.
  pub record IsOpened (s : S) (channel : String) (c : C) (s3 : S) : Type 0 where
    pub address : String
    pub s1 : S
    pub s2 : S
    pub address_given : V.get_variable "redis_address" s ≡ (done address, s1)
    pub channel_given : V.get_variable "redis_channel" s1 ≡ (done channel, s2)
    pub opened : R.open_redis address s2 ≡ (done c, s3)

  -- What the handler has left on the server of the connection that it opened.
  pub record IsServed (L : IsRedis R) (s : S) (status : ℕ) (s' : S) : Type 0 where
    pub conn : C
    pub channel : String
    pub opened : (s3 : S) × IsOpened s channel conn s3
    pub example : L.value s' conn "spin-example" ≡ some (into_bytes "Eureka!")
    pub counter : L.value s' conn "int-key" ≡ some (into_bytes "1")
    pub status_code : (status ≡ 200) ⊎ (status ≡ 500)
    pub message :
        status ≡ 200
        → (earlier : List (String × Bytes)) × (L.sent s' conn
            ≡ earlier ++ (channel, into_bytes "Eureka!") ∷ [])

  -- An operation of the run has failed, with this error and state; of those on Redis after it is
  -- opened, one with these arguments on this connection.
  pub data IsFault (s : S) (e : AppError) (s' : S) : Type 0 where
    no_address :
        (reason : String)
        → e ≡ sdk reason
        → V.get_variable "redis_address" s ≡ (error reason, s')
        → IsFault s e s'
    no_channel :
        (reason address : String) (s1 : S)
        → e ≡ sdk reason
        → V.get_variable "redis_address" s ≡ (done address, s1)
        → V.get_variable "redis_channel" s1 ≡ (error reason, s')
        → IsFault s e s'
    unopened :
        (reason address channel : String) (s1 s2 : S)
        → e ≡ sdk reason
        → V.get_variable "redis_address" s ≡ (done address, s1)
        → V.get_variable "redis_channel" s1 ≡ (done channel, s2)
        → R.open_redis address s2 ≡ (error reason, s')
        → IsFault s e s'
    unset :
        (reason channel : String) (c : C) (s3 : S)
        → e ≡ executing_set
        → IsOpened s channel c s3
        → R.set c "spin-example" (into_bytes "Eureka!") s3 ≡ (error reason, s')
        → IsFault s e s'
    uncounted :
        (reason channel : String) (c : C) (s3 s4 : S)
        → e ≡ executing_set
        → IsOpened s channel c s3
        → R.set c "spin-example" (into_bytes "Eureka!") s3 ≡ (done tt, s4)
        → R.set c "int-key" (into_bytes "0") s4 ≡ (error reason, s')
        → IsFault s e s'
    unincreased :
        (reason channel : String) (c : C) (s3 before : S)
        → e ≡ executing_incr
        → IsOpened s channel c s3
        → R.incr c "int-key" before ≡ (error reason, s')
        → IsFault s e s'
    unread :
        (reason channel : String) (c : C) (s3 before : S)
        → e ≡ querying
        → IsOpened s channel c s3
        → R.get c "spin-example" before ≡ (error reason, s')
        → IsFault s e s'

module _ {S C : Type 0} (V : Variables S) (R : Redis S C) (L : IsRedis R) where
  publish_status-cases :
      (answer : Answer Unit) → (publish_status answer ≡ 200) ⊎ (publish_status answer ≡ 500)
  publish_status-cases (done _) = inl refl
  publish_status-cases (error _) = inr refl

  status_done : (answer : Answer Unit) → publish_status answer ≡ 200 → answer ≡ done tt
  status_done (done _) h = refl
  status_done (error e) h = absurd (omega arith)

  publish-IsServed :
      (s : S) (c : C) (channel : String) (s3 before : S) (payload : Bytes)
      → IsOpened V R s channel c s3
      → payload ≡ into_bytes "Eureka!"
      → L.value before c "spin-example" ≡ some (into_bytes "Eureka!")
      → L.value before c "int-key" ≡ some (into_bytes "1")
      → IsServed V R L s
          (publish_status (R.publish c channel payload before).0)
          (R.publish c channel payload before).1
  publish-IsServed s c channel s3 before payload opened same first second = record {
    conn = c;
    channel = channel;
    opened = (s3, opened);
    example = L.publish_lem before c channel payload "spin-example" ∙ first;
    counter = L.publish_lem before c channel payload "int-key" ∙ second;
    status_code = publish_status-cases _;
    message = λ served. (
      L.sent before c,
      L.publish_sent before c channel payload (status_done _ served)
          ∙ ap (λ bytes. L.sent before c ++ (channel, bytes) ∷ []) same,
    );
  }

  -- What Redis holds between the steps.
  abbrev HasExample : C → Unit {0} → S → Type 0
  HasExample c _ s = L.value s c "spin-example" ≡ some (into_bytes "Eureka!")

  abbrev Holds : C → String → S → Type 0
  Holds c counter s =
      (L.value s c "spin-example" ≡ some (into_bytes "Eureka!"))
      × (L.value s c "int-key" ≡ some (into_bytes counter))

  abbrev HasFound : C → Option Bytes → S → Type 0
  HasFound c found s = (found ≡ some (into_bytes "Eureka!")) × Holds c "1" s

  set_example :
      (c : C) (s : S)
      → (R.set c "spin-example" (into_bytes "Eureka!") s).0 ≡ done tt
      → HasExample c tt (R.set c "spin-example" (into_bytes "Eureka!") s).1
  set_example c s stored = L.set_lem s c "spin-example" _ stored "spin-example"

  set_counter :
      (c : C) (s : S)
      → HasExample c tt s
      → (R.set c "int-key" (into_bytes "0") s).0 ≡ done tt
      → Holds c "0" (R.set c "int-key" (into_bytes "0") s).1
  set_counter c s example stored = (
    L.set_lem s c "int-key" _ stored "spin-example" ∙ example,
    L.set_lem s c "int-key" _ stored "int-key",
  )

  incr_counter :
      (c : C) (s : S) {m : ℤ}
      → Holds c "0" s
      → (R.incr c "int-key" s).0 ≡ done m
      → (m ≡ pos 1) × Holds c "1" (R.incr c "int-key" s).1
  incr_counter c s (example, zeroed) added =
      let (one, after) = L.incr_lem s c "int-key" 0 (rw L.digits_zero zeroed) added in
      (one, (after "spin-example" ∙ example, rw L.digits_one at (after "int-key")))

  get_example :
      (c : C) (s : S) {found : Option Bytes}
      → Holds c "1" s
      → (R.get c "spin-example" s).0 ≡ done found
      → (found ≡ some (into_bytes "Eureka!")) × Holds c "1" (R.get c "spin-example" s).1
  get_example c s (example, counter) read =
      let (same, kept) = L.get_lem s c "spin-example" read in
      (same ∙ example, (kept "spin-example" ∙ example, kept "int-key" ∙ counter))

  -- The part of the handler after the connection is opened.
  abbrev served : C → String → Handler S ℕ
  served conn channel = do
    ask_as executing_set (R.set conn "spin-example" (into_bytes "Eureka!"))
    ask_as executing_set (R.set conn "int-key" (into_bytes "0"))
    int_value ← ask_as executing_incr (R.incr conn "int-key")
    assert_eq int_value (pos 1)
    found ← ask_as querying (R.get conn "spin-example")
    payload ← present no_value found
    published ← attempt (R.publish conn channel payload)
    pure (publish_status published)

  served-IsServed :
      (s : S) (c : C) (channel : String) (s3 : S)
      → IsOpened V R s channel c s3
      → Ensures (IsServed V R L s) (IsFault V R s) (served c channel) s3
  served-IsServed s c channel s3 opened =
      Ensures-bind
        (λ _ s4.
          (R.set c "spin-example" (into_bytes "Eureka!") s3 ≡ (done tt, s4)) × HasExample c tt s4)
        _ _ s3
        (Ensures-ask_as _ _ s3 (λ _ h. (answer-pair _ h, set_example c s3 h))
          (λ e h. unset e channel c s3 refl opened (answer-pair _ h)))
        λ _ s4 (set, example).
          Ensures-bind (λ _. Holds c "0") _ _ s4
            (Ensures-ask_as _ _ s4 (λ _ h. set_counter c s4 example h)
              (λ e h. uncounted e channel c s3 s4 refl opened set (answer-pair _ h)))
            λ _ s5 zeroed.
              Ensures-bind (λ m s. (m ≡ pos 1) × Holds c "1" s) _ _ s5
                (Ensures-ask_as _ _ s5 (λ m h. incr_counter c s5 zeroed h)
                  (λ e h. unincreased e channel c s3 s5 refl opened (answer-pair _ h)))
                λ m s6 (one, both).
                  Ensures-bind (λ _. Holds c "1") _ _ s6 (Ensures-assert_eq m (pos 1) s6 one both)
                    λ _ s7 both.
                      Ensures-bind (HasFound c) _ _ s7
                        (Ensures-ask_as _ _ s7 (λ found h. get_example c s7 both h)
                          (λ e h. unread e channel c s3 s7 refl opened (answer-pair _ h)))
                        λ found s8 (there, kept).
                          Ensures-bind
                            (λ payload s. (payload ≡ into_bytes "Eureka!") × Holds c "1" s) _ _ s8
                            (Ensures-present _ found (into_bytes "Eureka!") s8 there (refl, kept))
                            λ payload s9 (same, kept).
                              Ensures-bind (λ answer. IsServed V R L s (publish_status answer)) _ _
                                s9
                                (Ensures-attempt _ s9 (
                                  publish-IsServed s c channel s3 s9 payload opened same kept.0
                                    kept.1))
                                λ answer s' sent. Ensures-pure _ s' sent

  -- When no other client uses the Redis server meanwhile: the handler returns unless an operation of its
  -- run fails; whatever Redis held before, its assertion does not fail and the value is not missing. Then
  -- Redis, on the connection that the handler opened to the address in `redis_address`, holds `Eureka!`
  -- under `spin-example` and `1` under `int-key`; the status is 200 or 500, and if it is 200 then
  -- `Eureka!` is the last message, on the channel in `redis_channel`. (Redis stores, reads, increments
  -- and publishes, and what it holds changes by the operations of this handler only.)
  pub hello_world-IsServed :
      (s : S) → Ensures (IsServed V R L s) (IsFault V R s) (hello_world V R) s
  unfolding hello_world
  hello_world-IsServed s =
      Ensures-bind (λ address s1. V.get_variable "redis_address" s ≡ (done address, s1)) _ _ s
        (Ensures-ask _ s (λ _ h. answer-pair _ h) (λ e h. no_address e refl (answer-pair _ h)))
        λ address s1 to.
          Ensures-bind (λ channel s2. V.get_variable "redis_channel" s1 ≡ (done channel, s2)) _ _ s1
            (Ensures-ask _ s1 (λ _ h. answer-pair _ h)
              (λ e h. no_channel e address s1 refl to (answer-pair _ h)))
            λ channel s2 on.
              Ensures-bind (IsOpened V R s channel) _ _ s2
                (Ensures-ask _ s2
                  (λ c h. record {
                    address = address;
                    s1 = s1;
                    s2 = s2;
                    address_given = to;
                    channel_given = on;
                    opened = answer-pair _ h;
                  })
                  (λ e h. unopened e address channel s1 s2 refl to on (answer-pair _ h)))
                λ c s3 opened. served-IsServed s c channel s3 opened
