-- ===== src/PublishSubscribe/Subscriptions.antt =====
-- PublishSubscribeService.cpp: the replies, and the subscriptions after any requests.
use snet_gateway.Prelude.{
  ℕ, sym, ◌⊎◌, ◌≡◌, ◌∙◌, refl, ap, Bool, true, false, ◌||◌, ◌&&◌, Option, none, some, List, [], ◌∷◌,
  Bytes, length, arith, ◌==◌, if◌then◌else◌, inl, inr, Bool-cases,
}
use snet_gateway.Prelude.Result.{Result, ok, ◌>>=◌}
use snet_gateway.External.Message.{SnetServiceMessage, MessageLaws}
use snet_gateway.AddressPool.{AddressLease, get_address}
use snet_gateway.PublishSubscribe.{
  PublishSubscribeService, add_subscription, remove_subscription, is_service_id_for_me,
  process_request, is_for_service,
}

-- Does a request for the service `i` speak of the service `j`?
abbrev pub covers : ℕ → ℕ → Bool
covers i j = i == 0xFF || i == j

is_service_id_for_me-add :
    (i j : ℕ) (s : PublishSubscribeService)
    → is_service_id_for_me (add_subscription i s) j
      ≡ (if covers i j then true else is_service_id_for_me s j)
unfolding is_service_id_for_me add_subscription
is_service_id_for_me-add i j s = ground arith

is_service_id_for_me-remove :
    (i j : ℕ) (s : PublishSubscribeService)
    → is_service_id_for_me (remove_subscription i s) j
      ≡ (if covers i j then false else is_service_id_for_me s j)
unfolding is_service_id_for_me remove_subscription
is_service_id_for_me-remove i j s = ground arith

-- The service that a payload of one byte names.
abbrev pub only_byte : Bytes → Option ℕ
only_byte (i ∷ []) = some i
only_byte _ = none

only_byte_some : (p : Bytes) → (length p == 1) ≡ true → (i : ℕ) × (p ≡ i ∷ [])
only_byte_some [] h = cc
only_byte_some (i ∷ []) h = (i, refl)
only_byte_some (i ∷ j ∷ p) h = absurd (ground arith)

pub only_byte-payload : (p : Bytes) (i : ℕ) → only_byte p ≡ some i → p ≡ i ∷ []
only_byte-payload [] i e = cc
only_byte-payload (j ∷ []) i e = ground arith
only_byte-payload (j ∷ k ∷ p) i e = cc

only_byte-none : (p : Bytes) → (length p == 1) ≡ false → only_byte p ≡ none
only_byte-none [] h = refl
only_byte-none (i ∷ []) h = cc
only_byte-none (i ∷ j ∷ p) h = refl

-- The tokens of a request to subscribe or to unsubscribe, and of their confirmations.
abbrev pub request_token : Bool → ℕ
request_token true = 0x10
request_token false = 0x20

abbrev pub reply_token : Bool → ℕ
reply_token true = 0x11
reply_token false = 0x21

module _ (m : SnetServiceMessage) where
  -- A request that speaks of the service `i`, whatever its token.
  pub record IsRequest (x : m.Message) (i : ℕ) : Type 0 where
    pub dst_ssa : m.dst_ssa x ≡ 0x4000
    pub dst_service_id : m.dst_service_id x ≡ 0xB0
    pub payload : m.payload x ≡ i ∷ []

  -- The confirmation of doc/protocol.md.
  pub record IsConfirmation (y : m.Message) (t i a : ℕ) : Type 0 where
    pub src_ssa : m.src_ssa y ≡ 0x4000
    pub dst_ssa : m.dst_ssa y ≡ a
    pub src_service_id : m.src_service_id y ≡ 0xB0
    pub dst_service_id : m.dst_service_id y ≡ 0xB0
    pub token : m.token y ≡ t
    pub payload : m.payload y ≡ i ∷ 0 ∷ []

  -- The reply that confirms a request with a token.
  unfoldable pub confirmation : ℕ → ℕ → ℕ → m.Message
  confirmation token i a = m.set_payload (i ∷ 0 ∷ []) (m.create 0xB0 0xB0 token 0x4000 a false)

  module _ (laws : MessageLaws m) where
    confirmation-IsConfirmation : (t i a : ℕ) → IsConfirmation (confirmation t i a) t i a
    unfolding confirmation
    confirmation-IsConfirmation t i a = record {
      src_ssa = laws.src_ssa-set_payload _ _ ∙ laws.src_ssa-create _ _ _ _ _ _;
      dst_ssa = laws.dst_ssa-set_payload _ _ ∙ laws.dst_ssa-create _ _ _ _ _ _;
      src_service_id = laws.src_service_id-set_payload _ _ ∙ laws.src_service_id-create _ _ _ _ _ _;
      dst_service_id = laws.dst_service_id-set_payload _ _ ∙ laws.dst_service_id-create _ _ _ _ _ _;
      token = laws.token-set_payload _ _ ∙ laws.token-create _ _ _ _ _ _;
      payload = laws.payload-set_payload _ _;
    }

    -- A request to subscribe or to unsubscribe is confirmed to the client's own address, and
    -- afterwards the client is subscribed to the service, or to all services for 0xFF, or is not, and
    -- otherwise as before.
    pub request_confirmed :
        (x : m.Message) (i : ℕ) (l : AddressLease) (s : PublishSubscribeService) (subscribes : Bool)
        → IsRequest x i
        → m.token x ≡ request_token subscribes
        → (y : m.Message) × (s' : PublishSubscribeService) × (process_request m x (some l) s
            ≡ ok (y, s'))
          × IsConfirmation y (reply_token subscribes) i (get_address l)
          × ((j : ℕ)
              → is_service_id_for_me s' j
                ≡ (if covers i j then subscribes else is_service_id_for_me s j))
    unfolding process_request confirmation
    request_confirmed x i l s true q t = (
      confirmation 0x11 i (get_address l),
      add_subscription i s,
      ground (arith, q.dst_ssa, q.dst_service_id, q.payload),
      confirmation-IsConfirmation 0x11 i (get_address l),
      (λ j. is_service_id_for_me-add i j s),
    )
    request_confirmed x i l s false q t = (
      confirmation 0x21 i (get_address l),
      remove_subscription i s,
      ground (arith, q.dst_ssa, q.dst_service_id, q.payload),
      confirmation-IsConfirmation 0x21 i (get_address l),
      (λ j. is_service_id_for_me-remove i j s),
    )

  -- Whether the client wants the service `j` after a request, if `b` says so before it.
  abbrev pub wants_after : m.Message → ℕ → Bool → Bool
  wants_after x j b = elim (only_byte (m.payload x)) [
    | none ↦ b
    | some i ↦
        if m.dst_ssa x == 0x4000 && m.dst_service_id x == 0xB0 && covers i j
        then if m.token x == 0x10 then true else if m.token x == 0x20 then false else b
        else b
  ]

  abbrev pub wants : List m.Message → ℕ → Bool → Bool
  wants [] j b = b
  wants (x ∷ xs) j b = wants xs j (wants_after x j b)

  -- The requests of one client, one after the other.
  pub serve :
      List m.Message
      → Option AddressLease
      → PublishSubscribeService
      → Result PublishSubscribeService
  serve [] l s = ok s
  serve (x ∷ xs) l s = do (y, s') ← process_request m x l s; serve xs l s'

  -- A request is served without a fault: what the client wants afterwards, and the reply.
  unfoldable pub Served : m.Message → AddressLease → PublishSubscribeService → Type 0
  Served x l s =
      (y : m.Message) × (s' : PublishSubscribeService) × (process_request m x (some l) s
        ≡ ok (y, s'))
      × ((j : ℕ) → is_service_id_for_me s' j ≡ wants_after x j (is_service_id_for_me s j))
      × ((y ≡ m.empty) ⊎ ((t i : ℕ) × (y ≡ confirmation t i (get_address l))))

  Served-request :
      (x : m.Message) (i : ℕ) (l : AddressLease) (s : PublishSubscribeService)
      → is_for_service m x ≡ true
      → m.payload x ≡ i ∷ []
      → Served x l s
  unfolding Served process_request confirmation
  Served-request x i l s h e = elim (Bool-cases (m.token x == 0x10)) [
    | inl subscribes ↦ (
      confirmation 0x11 i (get_address l),
      add_subscription i s,
      ground arith,
      (λ j. ground (arith, is_service_id_for_me-add i j s)),
      inr (0x11, i, refl),
    )
    | inr other ↦ elim (Bool-cases (m.token x == 0x20)) [
      | inl unsubscribes ↦ (
        confirmation 0x21 i (get_address l),
        remove_subscription i s,
        ground arith,
        (λ j. ground (arith, is_service_id_for_me-remove i j s)),
        inr (0x21, i, refl),
      )
      | inr unknown ↦ (m.empty, s, ground arith, (λ j. ground arith), inl refl)
    ]
  ]

  unserved :
      (x : m.Message) (l : AddressLease) (s : PublishSubscribeService)
      → is_for_service m x ≡ false
      → Served x l s
  unfolding Served process_request
  unserved x l s h =
      (m.empty, s, ground arith, (λ j. ground (arith, only_byte-none (m.payload x))), inl refl)

  pub served : (x : m.Message) (l : AddressLease) (s : PublishSubscribeService) → Served x l s
  unfolding is_for_service
  served x l s = elim (Bool-cases (is_for_service m x)) [
    | inl h ↦ let (i, e) = only_byte_some (m.payload x) (ground arith) in Served-request x i l s h e
    | inr h ↦ unserved x l s h
  ]

  -- Whatever messages a client sends to the gateway's address, the service never faults, and in the
  -- end the client is subscribed to a service exactly when the last request that names the service,
  -- or all services, is a subscribe request, or when there is none and it was subscribed before.
  pub serve-wants :
      (xs : List m.Message) (l : AddressLease) (s : PublishSubscribeService)
      → (s' : PublishSubscribeService) × (serve xs (some l) s ≡ ok s')
        × ((j : ℕ) → is_service_id_for_me s' j ≡ wants xs j (is_service_id_for_me s j))
  unfolding serve Served
  serve-wants [] l s = (s, refl, (λ j. refl))
  serve-wants (x ∷ xs) l s =
      let (y, s1, e, h, reply) = served x l s in
      let (s2, e', h') = serve-wants xs l s1 in (s2, rw e e', (λ j. h' j ∙ ap (wants xs j) (h j)))

  module _ (laws : MessageLaws m) where
    -- Whatever a client sends, an answer is made without a fault, and a confirmation has two bytes.
    pub process_request-IsOk :
        (x : m.Message) (l : AddressLease) (s : PublishSubscribeService)
        → (y : m.Message) × (s' : PublishSubscribeService) × (process_request m x (some l) s
            ≡ ok (y, s'))
          × (m.src_service_id y ≡ 0xB0 → length (m.payload y) ≡ 2)
    unfolding Served confirmation
    process_request-IsOk x l s =
        let (y, s', e, h, reply) = served x l s in
        (
          y,
          s',
          e,
          (λ k. elim reply [
            | inl nothing ↦
                absurd (laws.empty_ne_subscription (ap m.src_service_id (sym nothing) ∙ k))
            | inr (t, i, confirmed) ↦
                ap length (ap m.payload confirmed ∙ laws.payload-set_payload _ _)
          ]),
        )
