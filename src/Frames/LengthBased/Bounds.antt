-- ===== src/Frames/LengthBased/Bounds.antt =====
-- GatewayAccessFrameLength.h: no stream of bytes makes `Deserialize` fault or outgrow the limit.
use snet_gateway.Prelude.{
  ℕ, ◌+◌, ◌<◌, ◌≡◌, ◌⊎◌, inl, inr, Bool, true, false, [], ◌∷◌, Bytes, IsBytes, arith, length,
  length_snoc,
}
use snet_gateway.Prelude.Result.{Result, ok, fault}
use snet_gateway.External.FrameReader.{
  FrameReader, Reading, complete, incomplete, violation, crashed, proceed, on_byte,
}
use snet_gateway.Frames.LengthBased.{
  Deserialization, error, header, awaiting_data, full, GatewayAccessFrameLength, mtu, deserialize,
  length_class,
}

-- What a frame under construction holds, and what it still requests.
abbrev pub IsOpen : Deserialization → ℕ → Bytes → Type 0
IsOpen header n buf = (n + length buf ≡ 2) × IsBytes buf
IsOpen awaiting_data n buf = n + length buf < mtu
IsOpen error n buf = ⊥
IsOpen full n buf = ⊥

pub record IsLive (f : GatewayAccessFrameLength) : Type 0 where
  pub requests : 0 < f.bytes_remaining
  pub is_open : IsOpen f.state f.bytes_remaining f.buffer

pub record IsDone (f : GatewayAccessFrameLength) : Type 0 where
  pub is_full : f.state ≡ full
  pub requests : f.bytes_remaining ≡ 0
  pub fits : length f.buffer < mtu

abbrev pub IsSafe : Reading GatewayAccessFrameLength → Type 0
IsSafe (complete f bs) = IsDone f
IsSafe (incomplete f) = IsLive f
IsSafe violation = Unit
IsSafe (crashed e) = ⊥

abbrev GoesOn : Result (Bool × GatewayAccessFrameLength) → Type 0
GoesOn (ok (true, f)) = IsLive f ⊎ IsDone f
GoesOn (ok (false, f)) = Unit
GoesOn (fault e) = ⊥

on_header-GoesOn :
    (n : ℕ) (buf : Bytes) (b : ℕ)
    → 0 < n
    → b < 256
    → n + length buf ≡ 2
    → IsBytes buf
    → GoesOn (on_byte length_class (record { state = header; bytes_remaining = n; buffer = buf }) b)
unfolding deserialize
on_header-GoesOn n [] b more small size bytes = ground arith
on_header-GoesOn n (b0 ∷ []) b more small size bytes = ground arith
on_header-GoesOn n (b0 ∷ b1 ∷ bs) b more small size bytes = absurd (omega arith)

on_byte-GoesOn :
    (s : Deserialization) (n : ℕ) (buf : Bytes) (b : ℕ)
    → 0 < n
    → b < 256
    → IsOpen s n buf
    → GoesOn (on_byte length_class (record { state = s; bytes_remaining = n; buffer = buf }) b)
on_byte-GoesOn header n buf b more small o = on_header-GoesOn n buf b more small o.0 o.1
on_byte-GoesOn awaiting_data n buf b more small fits =
    unfold deserialize in ground (arith, length_snoc buf b)
on_byte-GoesOn error n buf b more small o = elim o [ ]
on_byte-GoesOn full n buf b more small o = elim o [ ]

module _ (r : FrameReader length_class) where
  proceed-IsSafe :
      (bs : Bytes) (m : Result (Bool × GatewayAccessFrameLength))
      → ((f : GatewayAccessFrameLength) → IsLive f → IsSafe (r.read f bs))
      → GoesOn m
      → IsSafe (proceed (λ g. r.read g bs) m)
  proceed-IsSafe bs (ok (true, f)) later (inl live) = later f live
  proceed-IsSafe bs (ok (true, f)) later (inr done) = rw (r.read_complete f bs done.requests) done
  proceed-IsSafe bs (ok (false, f)) later g = tt
  proceed-IsSafe bs (fault e) later g = g

  -- Whatever bytes come, in however many pieces: a frame under construction becomes complete, stays
  -- under construction, or refuses its bytes. No assertion fails, no access leaves the buffer, and
  -- the payload stays below the limit, also the part that is announced and not there yet.
  pub length_read-IsSafe :
      (bs : Bytes) (f : GatewayAccessFrameLength) → IsBytes bs → IsLive f → IsSafe (r.read f bs)
  length_read-IsSafe [] f small live = rw (r.read_starved f (omega (arith, live.requests))) live
  length_read-IsSafe (b ∷ bs) f small live =
      rw (r.read_byte f b bs (omega (arith, live.requests))) (
        proceed-IsSafe bs _ (λ g. length_read-IsSafe bs g small.1)
          (on_byte-GoesOn f.state f.bytes_remaining f.buffer b live.requests small.0 live.is_open))
