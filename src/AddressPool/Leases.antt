-- ===== src/AddressPool/Leases.antt =====
-- AddressPool.cpp: no two clients hold one address.
use snet_gateway.Prelude.{
  ℕ, ◌+◌, ◌≤◌, ◌<◌, ◌≡◌, refl, List, [], ◌∷◌, ◌++◌, length, length_snoc, length-append, arith, ltb,
  leb, ◌==◌, ◌&&◌, if◌then◌else◌,
}
use snet_gateway.AddressPool.{
  AddressPool, get_address, construct, obtain_address_lease, release_address_lease,
}

-- How often an address stands in a list.
abbrev pub occurrences : ℕ → List ℕ → ℕ
occurrences a [] = 0
occurrences a (b ∷ rest) = (if b == a then 1 else 0) + occurrences a rest

pub occurrences-append :
    (b : ℕ) (l m : List ℕ) → occurrences b (l ++ m) ≡ occurrences b l + occurrences b m
occurrences-append b [] m = omega arith
occurrences-append b (c ∷ l) m = omega (occurrences-append b l m, arith)

abbrev pub first_address : ℕ
first_address = 0x4001

abbrev pub end_address : ℕ
end_address = 0xFFF0

-- So many clients can be served at a time.
abbrev pub max_clients : ℕ
max_clients = 0xBFEF

-- 1 for an address that was handed out before, 0 for any other.
abbrev pub handed_out : AddressPool → ℕ → ℕ
handed_out p a = if leb first_address a && ltb a p.next_free_address then 1 else 0

-- A pool beside the addresses that are in use. Every address that was ever handed out is in use or
-- released, once.
pub record IsValid (p : AddressPool) (used : List ℕ) : Type 0 where
  pub size : p.next_free_address ≡ first_address + (length used + length p.released_addresses)
  pub bound : p.next_free_address ≤ end_address
  pub exact : (a : ℕ) → occurrences a used + occurrences a p.released_addresses ≡ handed_out p a

pub construct-IsValid : IsValid construct []
unfolding construct
construct-IsValid = record { size = refl; bound = omega arith; exact = λ a. ground arith }

obtain_from-IsValid :
    (released : List ℕ) (p : AddressPool) (used : List ℕ)
    → p.released_addresses ≡ released
    → length used < max_clients
    → IsValid p used
    → let (l, p') = obtain_address_lease p in IsValid p' (used ++ get_address l ∷ [])
unfolding obtain_address_lease
obtain_from-IsValid [] p used e few v =
    let a = p.next_free_address in
    record {
      size = ground (arith, length_snoc used a);
      bound = ground arith;
      exact = λ b. ground (arith, v.exact b, occurrences-append b used (a ∷ []));
    }
obtain_from-IsValid (x ∷ rest) p used e few v = record {
  size = ground (arith, length_snoc used x);
  bound = ground arith;
  exact = λ b. ground (arith, v.exact b, occurrences-append b used (x ∷ []));
}

pub obtain-IsValid :
    (p : AddressPool) (used : List ℕ)
    → length used < max_clients
    → IsValid p used
    → let (l, p') = obtain_address_lease p in IsValid p' (used ++ get_address l ∷ [])
obtain-IsValid p used few v = obtain_from-IsValid p.released_addresses p used refl few v

pub release-IsValid :
    (p : AddressPool) (xs ys : List ℕ) (a : ℕ)
    → IsValid p (xs ++ a ∷ ys)
    → IsValid (release_address_lease a p) (xs ++ ys)
unfolding release_address_lease
release-IsValid p xs ys a v = record {
  size = omega (
    arith,
    length_snoc p.released_addresses a,
    length-append xs (a ∷ ys),
    length-append xs ys,
    v.size,
  );
  bound = v.bound;
  exact = λ b. ground (
    arith,
    v.exact b,
    occurrences-append b xs (a ∷ ys),
    occurrences-append b xs ys,
    occurrences-append b p.released_addresses (a ∷ []),
  );
}

-- A valid pool never has an address in use twice, and all addresses in use are client addresses.
pub IsValid-unique :
    (p : AddressPool) (used : List ℕ) (a : ℕ)
    → IsValid p used
    → (occurrences a used ≤ 1) × (0 < occurrences a used → (first_address ≤ a) × (a < end_address))
IsValid-unique p used a v = ground (arith, v.exact a, v.bound)

-- A pool and the addresses in use after any sequence of leases and releases, in which no more than
-- `max_clients` are in use at a time.
pub data Uses : AddressPool → List ℕ → Type 0 where
  fresh : Uses construct []
  obtain :
      {p : AddressPool} {used : List ℕ}
      → length used < max_clients
      → Uses p used
      → Uses (obtain_address_lease p).1 (used ++ get_address (obtain_address_lease p).0 ∷ [])
  release :
      {p : AddressPool} {used : List ℕ} (xs ys : List ℕ) (a : ℕ)
      → used ≡ xs ++ a ∷ ys
      → Uses p used
      → Uses (release_address_lease a p) (xs ++ ys)

pub Uses-IsValid : {p : AddressPool} {used : List ℕ} → Uses p used → IsValid p used
Uses-IsValid fresh = construct-IsValid
Uses-IsValid (obtain {p} {used} few u) = obtain-IsValid p used few (Uses-IsValid u)
Uses-IsValid (release {p} xs ys a e u) = release-IsValid p xs ys a (rw e at (Uses-IsValid u))

-- After any sequence of leases and releases with at most 49135 clients at a time, no address is in
-- use twice, and every address in use lies between 0x4001 and 0xFFEF.
pub Uses-unique :
    {p : AddressPool} {used : List ℕ} (a : ℕ)
    → Uses p used
    → (occurrences a used ≤ 1) × (0 < occurrences a used → (first_address ≤ a) × (a < end_address))
Uses-unique {p} {used} a u = IsValid-unique p used a (Uses-IsValid u)
