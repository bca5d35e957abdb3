-- ===== src/Apps/KeyValue.antt =====
-- images/spin-keyvalue/src/lib.rs
use containerd_shim_spin.Prelude.{String, ◌≡◌, refl, Option, some, [], ◌∙◌, ap}
use containerd_shim_spin.Oci.{Bytes}
use containerd_shim_spin.Apps.Sdk.{
  AppError, sdk, Answer, done, error, Handler, Stores, Response, Request, into_bytes, or_empty, ask,
  ◌>>=◌, ◌>>◌, pure,
}
use containerd_shim_spin.Apps.Logic.{
  answer-pair, Ensures, Ensures-bind, Ensures-ask, Ensures-pure, IsStores,
}

abbrev pub plain_response : Bytes → Response
plain_response body = record { status = 200; headers = []; body = body }

module _ {S C : Type 0} (K : Stores S C) where
  unfoldable pub handle_kv : Request → Handler S Response
  handle_kv _ = do
    store ← ask (K.open_store "foo")
    ask (K.set_key store "mykey" (into_bytes "wow"))
    value ← ask (K.get_key store "mykey")
    pure (plain_response (or_empty value))

module _ {S C : Type 0} (K : Stores S C) (L : IsStores K) where
  -- The store `foo` is opened at the start of the run.
  abbrev pub IsOpened : S → C → S → Type 0
  IsOpened s c s' = K.open_store "foo" s ≡ (done c, s')

  abbrev pub IsWritten : C → S → Answer Unit → S → Type 0
  IsWritten c s answer s' = K.set_key c "mykey" (into_bytes "wow") s ≡ (answer, s')

  pub record IsWow (s : S) (response : Response) (s' : S) : Type 0 where
    pub status : response.status ≡ 200
    pub headers : response.headers ≡ []
    pub body : response.body ≡ into_bytes "wow"
    pub store : C
    pub opened : (s1 : S) × IsOpened s store s1
    pub kept : L.held s' store "mykey" ≡ some (into_bytes "wow")

  -- An operation of the run on the store has failed, with this error and state.
  pub data IsStoreError (s : S) (e : AppError) (s' : S) : Type 0 where
    unopened :
        (reason : String)
        → e ≡ sdk reason
        → K.open_store "foo" s ≡ (error reason, s')
        → IsStoreError s e s'
    unset :
        (reason : String) (c : C) (s1 : S)
        → e ≡ sdk reason
        → IsOpened s c s1
        → IsWritten c s1 (error reason) s'
        → IsStoreError s e s'
    unread :
        (reason : String) (c : C) (s1 s2 : S)
        → e ≡ sdk reason
        → IsOpened s c s1
        → IsWritten c s1 (done tt) s2
        → K.get_key c "mykey" s2 ≡ (error reason, s')
        → IsStoreError s e s'

  abbrev IsStored : C → Unit {0} → S → Type 0
  IsStored c _ s = L.held s c "mykey" ≡ some (into_bytes "wow")

  abbrev IsRead : C → Option Bytes → S → Type 0
  IsRead c found s = (found ≡ some (into_bytes "wow")) × IsStored c tt s

  get_wow :
      (c : C) (s : S) {found : Option Bytes}
      → IsStored c tt s
      → (K.get_key c "mykey" s).0 ≡ done found
      → IsRead c found (K.get_key c "mykey" s).1
  get_wow c s stored read =
      let (same, kept) = L.get_held s c "mykey" read in (same ∙ stored, kept "mykey" ∙ stored)

  -- The handler answers every request, whatever the store held before, with the status 200, no headers
  -- and the body `wow`, and leaves `wow` under `mykey` in the store `foo` that it has opened, unless one
  -- of its operations on the store fails; then the error is that operation's. (The store stores and
  -- reads, and nobody else writes to it meanwhile.)
  pub handle_kv-IsWow :
      (request : Request) (s : S) → Ensures (IsWow s) (IsStoreError s) (handle_kv K request) s
  unfolding handle_kv
  handle_kv-IsWow request s =
      Ensures-bind (IsOpened s) _ _ s
        (Ensures-ask _ s (λ c h. answer-pair _ h) (λ e h. unopened e refl (answer-pair _ h)))
        λ c s1 opened.
          Ensures-bind (λ _ s2. IsWritten c s1 (done tt) s2 × IsStored c tt s2) _ _ s1
            (Ensures-ask _ s1 (λ _ h. (answer-pair _ h, L.set_held s1 c "mykey" _ h "mykey"))
              (λ e h. unset e c s1 refl opened (answer-pair _ h)))
            λ _ s2 (set, stored).
              Ensures-bind (IsRead c) _ _ s2
                (Ensures-ask _ s2 (λ found h. get_wow c s2 stored h)
                  (λ e h. unread e c s1 s2 refl opened set (answer-pair _ h)))
                λ found s3 (there, kept). Ensures-pure _ s3 (record {
                  status = refl;
                  headers = refl;
                  body = ap or_empty there;
                  store = c;
                  opened = (s1, opened);
                  kept = kept;
                })
