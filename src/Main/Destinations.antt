-- ===== src/Main/Destinations.antt =====
-- main-snet-gateway.cpp: the strings that name a destination.
use snet_gateway.Prelude.{
  ℕ, ◌≡◌, ◌≢◌, ◌↔◌, some, [], ◌∷◌, ◌++◌, Bytes, arith, All, Option-cases, Bool-cases, inl, inr,
  ◌==◌, ==→eq,
}
use snet_gateway.Main.{group_before, second_group, match_destination}

abbrev pub Lacks : ℕ → Bytes → Type 0
Lacks c = All (λ x. x ≢ c)

group_before_sound :
    (c : ℕ) (s before after : Bytes)
    → group_before c s ≡ some (before, after)
    → (s ≡ before ++ c ∷ after) × Lacks c before
unfolding group_before
group_before_sound c [] before after e = absurd (ground arith)
group_before_sound c (x ∷ s) before after e = elim (Bool-cases (x == c)) [
  | inl here ↦ let same : x ≡ c = ==→eq _ _ here in ground (arith, here, same)
  | inr later ↦ elim (Option-cases (group_before c s)) [
    | inl gone ↦ absurd (ground (arith, later, gone))
    | inr ((b, t), found) ↦
        let rest = group_before_sound c s b t found in ground (arith, rest, later, found)
  ]
]

group_before_complete :
    (c : ℕ) (before after : Bytes)
    → Lacks c before
    → group_before c (before ++ c ∷ after) ≡ some (before, after)
unfolding group_before
group_before_complete c [] after l = ground arith
group_before_complete c (x ∷ before) after l =
    ground (arith, l.0, group_before_complete c before after l.1)

match_destination_complete :
    (s serial_port_name host tcp_port : Bytes)
    → s ≡ serial_port_name ++ 0x40 ∷ (host ++ 0x3A ∷ tcp_port)
    → Lacks 0x40 serial_port_name
    → Lacks 0x3A host
    → match_destination s ≡ some (serial_port_name, host, tcp_port)
unfolding match_destination second_group
match_destination_complete s serial_port_name host tcp_port e l k = ground (
  arith,
  e,
  group_before_complete 0x40 serial_port_name (host ++ 0x3A ∷ tcp_port) l,
  group_before_complete 0x3A host tcp_port k,
)

match_destination_sound :
    (s serial_port_name host tcp_port : Bytes)
    → match_destination s ≡ some (serial_port_name, host, tcp_port)
    → (s ≡ serial_port_name ++ 0x40 ∷ (host ++ 0x3A ∷ tcp_port))
      × Lacks 0x40 serial_port_name
      × Lacks 0x3A host
unfolding match_destination second_group
match_destination_sound s serial_port_name host tcp_port e =
    elim (Option-cases (group_before 0x40 s)) [
      | inl gone ↦ absurd (ground (arith, gone))
      | inr ((b, t), found) ↦
          let rest : second_group b t ≡ some (serial_port_name, host, tcp_port) =
            rw (found, match_destination) at e in
          elim (Option-cases (group_before 0x3A t)) [
            | inl gone ↦ absurd (ground (arith, gone))
            | inr ((b', t'), found') ↦
                let same : some (b, b', t') ≡ some (serial_port_name, host, tcp_port) =
                  rw (found', second_group) at rest in
                let (joined, lacks) = group_before_sound 0x40 s b t found in
                let (joined', lacks') = group_before_sound 0x3A t b' t' found' in
                ground (arith, joined, lacks, joined', lacks', same)
          ]
    ]

-- A destination names a serial port, a host and a TCP port exactly when it is these three, with an
-- `@` and a `:` between them, and neither the serial port has an `@` nor the host a `:`.
pub match_destination_iff :
    (s serial_port_name host tcp_port : Bytes)
    → (match_destination s ≡ some (serial_port_name, host, tcp_port)) ↔ (
        (s ≡ serial_port_name ++ 0x40 ∷ (host ++ 0x3A ∷ tcp_port))
        × Lacks 0x40 serial_port_name
        × Lacks 0x3A host)
match_destination_iff s serial_port_name host tcp_port = (
  match_destination_sound s serial_port_name host tcp_port,
  (λ k. match_destination_complete s serial_port_name host tcp_port k.0 k.1 k.2),
)
