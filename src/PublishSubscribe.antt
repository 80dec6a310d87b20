-- ===== src/PublishSubscribe.antt =====
-- PublishSubscribeService.cpp, over any `SnetServiceMessage`.
pub mod Subscriptions
use snet_gateway.Prelude.{
  ℕ, Bool, true, false, ◌&&◌, Option, some, [], ◌∷◌, Bytes, length, get_elem?, ◌==◌, if◌then◌else◌,
}
use snet_gateway.Prelude.Result.{Result, ok, out_of_range, null_pointer, ◌>>=◌, or_fault}
use snet_gateway.External.Message.{SnetServiceMessage}
use snet_gateway.AddressPool.{AddressLease, get_address}

-- `E_PS_TOKEN`
abbrev pub subscribe_request : ℕ
subscribe_request = 0x10

abbrev pub subscribe_reply : ℕ
subscribe_reply = 0x11

abbrev pub unsubscribe_request : ℕ
unsubscribe_request = 0x20

abbrev pub unsubscribe_reply : ℕ
unsubscribe_reply = 0x21

-- `std::bitset<256>`: its bit at each position; a position is an `uint8_t`.
abbrev pub Bitset : Type 0
Bitset = ℕ → Bool

abbrev all_bits : Bool → Bitset
all_bits b = λ i. b

abbrev with_bit : ℕ → Bool → Bitset → Bitset
with_bit i b s = λ j. if i == j then b else s j

pub record PublishSubscribeService : Type 0 where
  pub subscribed_service_ids : Bitset

unfoldable pub construct : PublishSubscribeService
construct = record { subscribed_service_ids = λ i. false }

-- The change of the bitset: 0xFF stands for all services.
unfoldable pub add_subscription : ℕ → PublishSubscribeService → PublishSubscribeService
add_subscription i s =
    if i == 0xFF
    then record { subscribed_service_ids = all_bits true }
    else record { subscribed_service_ids = with_bit i true s.subscribed_service_ids }

unfoldable pub remove_subscription : ℕ → PublishSubscribeService → PublishSubscribeService
remove_subscription i s =
    if i == 0xFF
    then record { subscribed_service_ids = all_bits false }
    else record { subscribed_service_ids = with_bit i false s.subscribed_service_ids }

-- `IsServiceIdForMe`
unfoldable pub is_service_id_for_me : PublishSubscribeService → ℕ → Bool
is_service_id_for_me s i = s.subscribed_service_ids i

module _ (m : SnetServiceMessage) where
  open m use {Message, empty, create, dst_ssa, dst_service_id, token, payload, set_payload}

  is_for_service : Message → Bool
  is_for_service x = dst_ssa x == 0x4000 && dst_service_id x == 0xB0 && length (payload x) == 1

  reply : ℕ → ℕ → Option AddressLease → Result Message
  reply token i address_lease = do
    lease ← or_fault null_pointer address_lease
    ok (set_payload (i ∷ 0 ∷ []) (create 0xB0 0xB0 token 0x4000 (get_address lease) false))

  by_token :
      Message
      → ℕ
      → Option AddressLease
      → PublishSubscribeService
      → Result (Message × PublishSubscribeService)
  unfolding reply
  by_token x i address_lease s =
      if token x == subscribe_request
      then (do y ← reply subscribe_reply i address_lease; ok (y, add_subscription i s))
      else if token x == unsubscribe_request
      then (do y ← reply unsubscribe_reply i address_lease; ok (y, remove_subscription i s))
      else ok (empty, s)

  -- `ProcessRequest`
  unfoldable pub process_request :
      Message
      → Option AddressLease
      → PublishSubscribeService
      → Result (Message × PublishSubscribeService)
  unfolding is_for_service by_token
  process_request x address_lease s =
      if is_for_service x
      then (do i ← or_fault out_of_range (get_elem? (payload x) 0); by_token x i address_lease s)
      else ok (empty, s)
