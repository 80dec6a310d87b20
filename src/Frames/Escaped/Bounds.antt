-- ===== src/Frames/Escaped/Bounds.antt =====
-- GatewayAccessFrameEscaped.h: no stream of bytes makes `Deserialize` fault or outgrow its buffer.
use snet_gateway.Prelude.{
  ℕ, ◌<◌, ◌≡◌, ap, ◌∙◌, ◌⊎◌, inl, inr, Bool, true, false, [], ◌∷◌, Bytes, arith, length,
  length_snoc,
}
use snet_gateway.Prelude.Result.{Result, ok, fault}
use snet_gateway.External.FrameReader.{
  FrameReader, Reading, complete, incomplete, violation, crashed, proceed,
}
use snet_gateway.Frames.Escaped.{
  Deserialization, error, framestart, unescaped, escaped, full, GatewayAccessFrameEscaped, mtu,
  dispatch, escaped_class,
}
use snet_gateway.Frames.Escaped.Steps.{waiting, arrived, read-waiting}

abbrev pub IsOpen : Deserialization → Type 0
IsOpen framestart = Unit
IsOpen unescaped = Unit
IsOpen escaped = Unit
IsOpen error = ⊥
IsOpen full = ⊥

-- A frame under construction: it requests one byte and holds less than the limit.
pub record IsLive (f : GatewayAccessFrameEscaped) : Type 0 where
  pub is_open : IsOpen f.state
  pub requests : f.bytes_remaining ≡ 1
  pub fits : length f.buffer < mtu

pub record IsDone (f : GatewayAccessFrameEscaped) : Type 0 where
  pub is_full : f.state ≡ full
  pub requests : f.bytes_remaining ≡ 0
  pub fits : length f.buffer < mtu

abbrev pub IsSafe : Reading GatewayAccessFrameEscaped → Type 0
IsSafe (complete f bs) = IsDone f
IsSafe (incomplete f) = IsLive f
IsSafe violation = Unit
IsSafe (crashed e) = ⊥

abbrev GoesOn : Result (Bool × GatewayAccessFrameEscaped) → Type 0
GoesOn (ok (true, f)) = IsLive f ⊎ IsDone f
GoesOn (ok (false, f)) = Unit
GoesOn (fault e) = ⊥

dispatch-GoesOn :
    (s : Deserialization) (buf : Bytes) (b : ℕ)
    → IsOpen s
    → length buf < mtu
    → GoesOn (dispatch s (arrived s buf b) (buf, b))
unfolding dispatch
dispatch-GoesOn framestart buf b o fits = ground arith
dispatch-GoesOn unescaped buf b o fits = ground (arith, length_snoc buf b)
dispatch-GoesOn escaped buf b o fits = ground (arith, length_snoc buf 0x7E, length_snoc buf 0x7D)
dispatch-GoesOn error buf b o fits = elim o [ ]
dispatch-GoesOn full buf b o fits = elim o [ ]

module _ (r : FrameReader escaped_class) where
  proceed-IsSafe :
      (bs : Bytes) (m : Result (Bool × GatewayAccessFrameEscaped))
      → ((f : GatewayAccessFrameEscaped) → IsLive f → IsSafe (r.read f bs))
      → GoesOn m
      → IsSafe (proceed (λ g. r.read g bs) m)
  proceed-IsSafe bs (ok (true, f)) later (inl live) = later f live
  proceed-IsSafe bs (ok (true, f)) later (inr done) = rw (r.read_complete f bs done.requests) done
  proceed-IsSafe bs (ok (false, f)) later g = tt
  proceed-IsSafe bs (fault e) later g = g

  read-live :
      (f : GatewayAccessFrameEscaped) (b : ℕ) (bs : Bytes)
      → f.bytes_remaining ≡ 1
      → r.read f (b ∷ bs)
        ≡ proceed (λ g. r.read g bs) (dispatch f.state (arrived f.state f.buffer b) (f.buffer, b))
  read-live f b bs one =
      ap (λ (g : GatewayAccessFrameEscaped). r.read g (b ∷ bs)) opened
      ∙ read-waiting r f.state f.buffer b bs
    where
      opened : f ≡ waiting f.state f.buffer
      opened = λ i. record { state = f.state; bytes_remaining = one i; buffer = f.buffer }

  -- Whatever bytes come, in however many pieces: a frame under construction becomes complete, stays
  -- under construction, or refuses its bytes. No assertion fails, no access leaves the buffer, and
  -- the buffer stays below the limit.
  pub escaped_read-IsSafe :
      (bs : Bytes) (f : GatewayAccessFrameEscaped) → IsLive f → IsSafe (r.read f bs)
  escaped_read-IsSafe [] f live = rw (r.read_starved f (omega arith)) live
  escaped_read-IsSafe (b ∷ bs) f live = rw (read-live f b bs live.requests) (
      proceed-IsSafe bs _ (escaped_read-IsSafe bs)
        (dispatch-GoesOn f.state f.buffer b live.is_open live.fits))
