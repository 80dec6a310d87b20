-- ===== src/AddressPool.antt =====
-- AddressPool.cpp and AddressLease.cpp: the short addresses (SSA) of the gateway clients.
pub mod Leases
pub mod Exhaustion
use snet_gateway.Prelude.{ℕ, ◌+◌, ◌%◌, ◌^◌, Bool, List, [], ◌∷◌, ◌++◌}

-- `m_NextFreeAddress` is a `uint16_t`; the front of the deque is the head of the list.
pub record AddressPool : Type 0 where
  pub next_free_address : ℕ
  pub released_addresses : List ℕ

pub record AddressLease : Type 0 where
  pub gateway_client_address : ℕ

abbrev pub get_address : AddressLease → ℕ
get_address l = l.gateway_client_address

unfoldable pub construct : AddressPool
construct = record { next_free_address = 0x4001; released_addresses = [] }

obtain_from : List ℕ → AddressPool → ℕ × AddressPool
obtain_from [] p =
    (p.next_free_address, record p { next_free_address = (p.next_free_address + 1) % 2 ^ 16 })
obtain_from (a ∷ rest) p = (a, record p { released_addresses = rest })

-- `ObtainAddressLease`
unfoldable pub obtain_address_lease : AddressPool → AddressLease × AddressPool
unfolding obtain_from
obtain_address_lease p =
    let (address, p') = obtain_from p.released_addresses p in
    (record { gateway_client_address = address }, p')

-- `ReleaseAddressLease`
unfoldable pub release_address_lease : ℕ → AddressPool → AddressPool
release_address_lease a p = record p { released_addresses = p.released_addresses ++ a ∷ [] }

-- The destructor of a lease, which runs when its last owner drops it.
unfoldable pub destroy_lease : AddressLease → AddressPool → AddressPool
unfolding release_address_lease
destroy_lease l p = release_address_lease l.gateway_client_address p
