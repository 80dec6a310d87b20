-- ===== src/AddressService.antt =====
-- AddressService.cpp: the address assignment service, over any `SnetServiceMessage`.
pub mod Replies
use snet_gateway.Prelude.{
  ℕ, suc, ◌+◌, ◌-◌, ◌/◌, ◌%◌, ◌^◌, Bool, true, false, ◌&&◌, Option, none, some, [], ◌∷◌, ◌++◌,
  Bytes, length, drop, leb, ◌==◌, if◌then◌else◌,
}
use snet_gateway.Prelude.Result.{Result, ok, fault, out_of_range, null_pointer, ◌>>=◌, or_fault}
use snet_gateway.External.Message.{SnetServiceMessage}
use snet_gateway.AddressPool.{AddressLease, get_address}

-- The range from `end() - 6` needs six bytes.
last_six : Bytes → Result Bytes
last_six bytes =
    if leb 6 (length bytes) then ok (drop (length bytes - 6) bytes) else fault out_of_range

-- The two bytes of an address.
abbrev pub address_bytes : ℕ → Bytes
address_bytes a = (a / 2 ^ 8 % 2 ^ 8) ∷ (a % 2 ^ 8) ∷ []

module _ (m : SnetServiceMessage) where
  open m use {
    Message, empty, create, src_ssa, dst_ssa, src_service_id, dst_service_id, token, payload,
    set_payload,
  }

  is_assignment_request : Message → Bool
  is_assignment_request x =
      src_ssa x == 0x3FFF
      && dst_ssa x == 0x3FFC
      && src_service_id x == 0xAF
      && dst_service_id x == 0xAE
      && token x == 0x10

  assignment_reply : Message → Option AddressLease → Result Message
  unfolding last_six
  assignment_reply x address_lease = do
    uuid ← last_six (payload x)
    lease ← or_fault null_pointer address_lease
    ok (
        set_payload (0x05 ∷ (uuid ++ 0x00 ∷ address_bytes (get_address lease)))
          (create 0xAE 0xAF 0x20 0x4000 0x3FF8 false))

  -- `ProcessRequest`
  unfoldable pub process_request : Message → Option AddressLease → Result Message
  unfolding is_assignment_request assignment_reply
  process_request x address_lease =
      if is_assignment_request x then assignment_reply x address_lease else ok empty
