-- ===== src/AddressService/Replies.antt =====
-- AddressService.cpp: what is answered, and what faults.
use snet_gateway.Prelude.{
  refl, Bool-cases, inl, inr, length-drop, length-append, ℕ, ◌-◌, ◌≤◌, ◌<◌, ◌≡◌, true, false, some,
  ◌∷◌, ◌++◌, [], ◌/◌, ◌%◌, ◌^◌, length, drop, arith, Option, ◌↔◌, ◌∙◌,
}
use snet_gateway.Prelude.Result.{ok, fault, out_of_range}
use snet_gateway.External.Message.{SnetServiceMessage, MessageLaws}
use snet_gateway.AddressPool.{AddressLease, get_address}
use snet_gateway.AddressService.{address_bytes, process_request, is_assignment_request}

module _ (m : SnetServiceMessage) (laws : MessageLaws m) where
  -- A request for an address, as doc/protocol.md describes it.
  pub record IsRequest (x : m.Message) : Type 0 where
    pub src_ssa : m.src_ssa x ≡ 0x3FFF
    pub dst_ssa : m.dst_ssa x ≡ 0x3FFC
    pub src_service_id : m.src_service_id x ≡ 0xAF
    pub dst_service_id : m.dst_service_id x ≡ 0xAE
    pub token : m.token x ≡ 0x10

  -- The reply of doc/protocol.md to `x`, for the address `a`.
  pub record IsReply (x : m.Message) (a : ℕ) (y : m.Message) : Type 0 where
    pub src_ssa : m.src_ssa y ≡ 0x4000
    pub dst_ssa : m.dst_ssa y ≡ 0x3FF8
    pub src_service_id : m.src_service_id y ≡ 0xAE
    pub dst_service_id : m.dst_service_id y ≡ 0xAF
    pub token : m.token y ≡ 0x20
    pub payload :
        m.payload y
        ≡ 0x05
          ∷ (drop (length (m.payload x) - 6) (m.payload x)
              ++ 0x00 ∷ (a / 2 ^ 8 % 2 ^ 8) ∷ (a % 2 ^ 8) ∷ [])

  reply : m.Message → ℕ → m.Message
  reply x a =
      m.set_payload
        (0x05 ∷ (drop (length (m.payload x) - 6) (m.payload x) ++ 0x00 ∷ address_bytes a))
        (m.create 0xAE 0xAF 0x20 0x4000 0x3FF8 false)

  reply-IsReply : (x : m.Message) (a : ℕ) → IsReply x a (reply x a)
  unfolding reply
  reply-IsReply x a = record {
    src_ssa = laws.src_ssa-set_payload _ _ ∙ laws.src_ssa-create _ _ _ _ _ _;
    dst_ssa = laws.dst_ssa-set_payload _ _ ∙ laws.dst_ssa-create _ _ _ _ _ _;
    src_service_id = laws.src_service_id-set_payload _ _ ∙ laws.src_service_id-create _ _ _ _ _ _;
    dst_service_id = laws.dst_service_id-set_payload _ _ ∙ laws.dst_service_id-create _ _ _ _ _ _;
    token = laws.token-set_payload _ _ ∙ laws.token-create _ _ _ _ _ _;
    payload = laws.payload-set_payload _ _;
  }

  is_assignment_request_iff : (x : m.Message) → (is_assignment_request m x ≡ true) ↔ IsRequest x
  unfolding is_assignment_request
  is_assignment_request_iff x = ((λ h. ground arith), (λ q. ground arith))

  -- A request with at least the six bytes of a UUID is answered by the reply that doc/protocol.md
  -- describes: the last six bytes of the request, the status 0, and the address that was leased.
  pub request_answered :
      (x : m.Message) (l : AddressLease)
      → IsRequest x
      → 6 ≤ length (m.payload x)
      → (y : m.Message) × (process_request m x (some l) ≡ ok y) × IsReply x (get_address l) y
  unfolding process_request reply
  request_answered x l q long = (
    reply x (get_address l),
    ground (arith, (is_assignment_request_iff x).1 q),
    reply-IsReply x _,
  )

  pub IsReply-length :
      (x : m.Message) (a : ℕ) (y : m.Message)
      → 6 ≤ length (m.payload x)
      → IsReply x a y
      → length (m.payload y) ≡ 10
  IsReply-length x a y long r = ground (
    arith,
    r.payload,
    length-drop (length (m.payload x) - 6) (m.payload x),
    length-append (drop (length (m.payload x) - 6) (m.payload x))
        (0x00 ∷ (a / 2 ^ 8 % 2 ^ 8) ∷ (a % 2 ^ 8) ∷ []),
  )

  -- A request that is shorter reads outside of its payload, with or without a lease.
  pub short_request :
      (x : m.Message) (l : Option AddressLease)
      → IsRequest x
      → length (m.payload x) < 6
      → process_request m x l ≡ fault out_of_range
  unfolding process_request
  short_request x l q short = ground (arith, (is_assignment_request_iff x).1 q)

  -- Whoever asks, an answer is made without a fault and has ten bytes, if a request has its UUID.
  pub process_request-IsOk :
      (x : m.Message) (l : AddressLease)
      → (IsRequest x → 6 ≤ length (m.payload x))
      → (y : m.Message) × (process_request m x (some l) ≡ ok y)
        × (m.src_service_id y ≡ 0xAE → length (m.payload y) ≡ 10)
  unfolding process_request
  process_request-IsOk x l long = elim (Bool-cases (is_assignment_request m x)) [
    | inl asked ↦
        let q = (is_assignment_request_iff x).0 asked in
        let (y, answered, is_reply) = request_answered x l q (long q) in
        (y, answered, (λ e. IsReply-length x (get_address l) y (long q) is_reply))
    | inr other ↦ (m.empty, rw other refl, (λ e. absurd (laws.empty_ne_assignment e)))
  ]

  -- The caller recognizes a reply by its source service: only requests are answered.
  pub answered_iff :
      (x : m.Message) (l : AddressLease) (y : m.Message)
      → process_request m x (some l) ≡ ok y
      → (m.src_service_id y ≡ 0xAE) ↔ IsRequest x
  unfolding process_request reply
  answered_iff x l y h = (
    (λ e. (is_assignment_request_iff x).0 (ground (arith, laws.empty_ne_assignment))),
    (λ q. ground (
      arith,
      (is_assignment_request_iff x).1 q,
      (reply-IsReply x (get_address l)).src_service_id,
    )),
  )
