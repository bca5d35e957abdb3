-- ===== src/Apps/Dapr.antt =====
-- images/spin-dapr/src/lib.rs
use containerd_shim_spin.Prelude.{
  refl, String, ◌≡◌, Bool, true, Option, some, none, [], ◌∷◌, ◌∙◌, ap, sym, if◌then◌else◌, inl, inr,
  Bool-cases,
}
use containerd_shim_spin.Text.{ends_with}
use containerd_shim_spin.Oci.{Bytes}
use containerd_shim_spin.Apps.Sdk.{
  error, AppError, sdk, executing_set, executing_get, done, Handler, Redis, Response, Request,
  or_empty, ask, ask_as, ◌>>=◌, ◌>>◌, pure,
}
use containerd_shim_spin.Apps.Logic.{
  answer-pair, Ensures, Ensures-bind, Ensures-ask, Ensures-ask_as, Ensures-pure, IsRedis,
}

abbrev pub address : String
address = "redis://localhost:6379"

abbrev pub last_event : String
last_event = "lastEvent"

abbrev pub event_response : Bytes → Response
event_response body = record { status = 200; headers = ("foo", "bar") ∷ []; body = body }

abbrev pub is_event : Request → Bool
is_event request = ends_with request.path "kevents"

module _ {S C : Type 0} (R : Redis S C) where
  -- The branch for a request of Dapr.
  unfoldable pub store_event : C → Request → Handler S Unit
  store_event conn request =
      if is_event request
      then (ask (λ s. (request.body, s)) >>= λ value.
          ask_as executing_set (R.set conn last_event value))
      else pure tt

  unfoldable pub handle_spin_dapr : Request → Handler S Response
  handle_spin_dapr request = do
    conn ← ask (R.open_redis address)
    store_event conn request
    value ← ask_as executing_get (R.get conn last_event)
    pure (event_response (or_empty value))

module _ {S C : Type 0} (R : Redis S C) (L : IsRedis R) where
  -- The connection that the handler opens at the start of the run.
  abbrev pub IsOpened : S → C → S → Type 0
  IsOpened s c s' = R.open_redis "redis://localhost:6379" s ≡ (done c, s')

  -- A request of Dapr with an event.
  abbrev pub IsEvent : Request → Type 0
  IsEvent request = ends_with request.path "kevents" ≡ true

  -- The body of the request could be read, and Redis holds it.
  abbrev pub HoldsBody : Request → C → S → Type 0
  HoldsBody request c s =
      (value : Bytes) × (request.body ≡ done value) × (L.value s c "lastEvent" ≡ some value)

  -- The answer shows what Redis holds; after an event this is the event's body.
  pub record IsEcho (request : Request) (s : S) (response : Response) (s' : S) : Type 0 where
    pub conn : C
    pub opened : (s1 : S) × IsOpened s conn s1
    pub status : response.status ≡ 200
    pub headers : response.headers ≡ ("foo", "bar") ∷ []
    pub shown : (value : Bytes) → L.value s' conn "lastEvent" ≡ some value → response.body ≡ value
    pub empty : L.value s' conn "lastEvent" ≡ none → response.body ≡ []
    pub stored : IsEvent request → HoldsBody request conn s'

  abbrev IsStored : Request → C → Unit {0} → S → Type 0
  IsStored request c _ s = IsEvent request → HoldsBody request c s

  abbrev IsBody : Request → S → Bytes → S → Type 0
  IsBody request s value s' = (request.body ≡ done value) × (s' ≡ s)

  abbrev IsRead : Request → C → Option Bytes → S → Type 0
  IsRead request c found s = (found ≡ L.value s c "lastEvent") × IsStored request c tt s

  -- The body of an event could not be read, or an operation of the run on Redis has failed, with this
  -- error and state.
  pub data IsFault (request : Request) (s : S) (e : AppError) (s' : S) : Type 0 where
    unopened :
        (reason : String)
        → e ≡ sdk reason
        → R.open_redis "redis://localhost:6379" s ≡ (error reason, s')
        → IsFault request s e s'
    unreadable :
        (reason : String)
        → e ≡ sdk reason
        → IsEvent request
        → request.body ≡ error reason
        → IsFault request s e s'
    unset :
        (reason : String) (c : C) (s1 : S) (value : Bytes)
        → e ≡ executing_set
        → IsEvent request
        → IsOpened s c s1
        → request.body ≡ done value
        → R.set c "lastEvent" value s1 ≡ (error reason, s')
        → IsFault request s e s'
    unread :
        (reason : String) (c : C) (s1 s2 : S)
        → e ≡ executing_get
        → IsOpened s c s1
        → IsStored request c tt s2
        → R.get c "lastEvent" s2 ≡ (error reason, s')
        → IsFault request s e s'

  store_event-IsStored :
      (c : C) (request : Request) (s s1 : S)
      → IsOpened s c s1
      → Ensures (IsStored request c) (IsFault request s) (store_event R c request) s1
  unfolding store_event
  store_event-IsStored c request s s1 opened = elim (Bool-cases (is_event request)) [
    | inl event ↦ rw event (
        Ensures-bind (IsBody request s1) _ _ s1
          (Ensures-ask _ s1 (λ value read. (read, refl)) (λ e h. unreadable e refl event h))
          λ value s2 (read, same).
            Ensures-ask_as _ _ s2
              (λ _ h _. (value, read, L.set_lem s2 c "lastEvent" _ h "lastEvent"))
              (λ e h. unset e c s1 value refl event opened read (
                ap (R.set c "lastEvent" value) (sym same)
                ∙ answer-pair (R.set c "lastEvent" value s2) h)))
    | inr other ↦ rw other (Ensures-pure tt s1 (λ event. cc))
  ]

  get_event :
      (c : C) (request : Request) (s : S) {found : Option Bytes}
      → IsStored request c tt s
      → (R.get c "lastEvent" s).0 ≡ done found
      → IsRead request c found (R.get c "lastEvent" s).1
  get_event c request s stored read =
      let (same, kept) = L.get_lem s c "lastEvent" read in
      (
        same ∙ sym (kept "lastEvent"),
        λ event. let (value, body, there) = stored event in (value, body, kept "lastEvent" ∙ there),
      )

  -- The handler returns unless an operation of its run on Redis fails or the body of an event cannot be
  -- read. Then the status is 200, the one header is `foo: bar`, and the body is what Redis, on the
  -- connection that the handler opened, holds under `lastEvent`, or empty if it holds nothing; after a
  -- request to a path that ends with `kevents`, Redis holds the body of the request, which could be read.
  -- (Redis stores and reads, and no other client writes meanwhile.)
  pub handle_spin_dapr-IsEcho :
      (request : Request) (s : S)
      → Ensures (IsEcho request s) (IsFault request s) (handle_spin_dapr R request) s
  unfolding handle_spin_dapr
  handle_spin_dapr-IsEcho request s =
      Ensures-bind (IsOpened s) _ _ s
        (Ensures-ask _ s (λ c h. answer-pair _ h) (λ e h. unopened e refl (answer-pair _ h)))
        λ c s1 opened.
          Ensures-bind (IsStored request c) _ _ s1 (store_event-IsStored c request s s1 opened)
            λ _ s2 stored.
              Ensures-bind (IsRead request c) _ _ s2
                (Ensures-ask_as _ _ s2 (λ found h. get_event c request s2 stored h)
                  (λ e h. unread e c s1 s2 refl opened stored (answer-pair _ h)))
                λ found s3 (there, kept). Ensures-pure _ s3 (record {
                  conn = c;
                  opened = (s1, opened);
                  status = refl;
                  headers = refl;
                  shown = λ value held. ap or_empty (there ∙ held);
                  empty = λ missing. ap or_empty (there ∙ missing);
                  stored = kept;
                })
