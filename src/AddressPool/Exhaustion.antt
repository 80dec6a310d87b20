-- ===== src/AddressPool/Exhaustion.antt =====
-- AddressPool.cpp: what happens when more clients are connected than there are addresses.
use snet_gateway.Prelude.{ℕ, zero, suc, ◌+◌, ◌≤◌, ◌<◌, ◌%◌, ◌^◌, ◌≡◌, refl, [], arith, ◌-◌}
use snet_gateway.AddressPool.{AddressPool, get_address, construct, obtain_address_lease}
use snet_gateway.AddressPool.Leases.{first_address, end_address, max_clients}

-- The pool after `n` leases of which none is given back, and the address of the next lease.
pub after_leases : ℕ → AddressPool
after_leases zero = construct
after_leases (suc n) = (obtain_address_lease (after_leases n)).1

pub nth_address : ℕ → ℕ
nth_address n = get_address (obtain_address_lease (after_leases n)).0

after_leases_lem :
    (n : ℕ)
    → (after_leases n).released_addresses ≡ []
      × ((after_leases n).next_free_address ≡ (first_address + n) % 2 ^ 16)
unfolding after_leases construct obtain_address_lease
after_leases_lem zero = (refl, refl)
after_leases_lem (suc n) = ground (arith, after_leases_lem n)

nth_address_lem : (n : ℕ) → nth_address n ≡ (first_address + n) % 2 ^ 16
unfolding nth_address obtain_address_lease
nth_address_lem n = ground (arith, after_leases_lem n)

-- While no address is given back, the first 49135 clients get client addresses of their own. The
-- next 16 clients get the wildcard addresses, and those from there to the 65536th get the addresses
-- from 0 on, up to that of the gateway. Then the addresses repeat: the 65537th client gets that of the
-- first, and each later one that of the client 65536 places before it.
pub nth_address_exhaustion :
    (n : ℕ)
    → (n < max_clients → nth_address n ≡ first_address + n)
      × (max_clients ≤ n → n < max_clients + 16 → nth_address n ≡ end_address + (n - max_clients))
      × (max_clients + 16 ≤ n → n < 2 ^ 16 → nth_address n ≡ n - (max_clients + 16))
      × (nth_address (n + 2 ^ 16) ≡ nth_address n)
nth_address_exhaustion n = omega (arith, nth_address_lem n, nth_address_lem (n + 2 ^ 16))
