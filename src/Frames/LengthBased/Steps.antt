-- ===== src/Frames/LengthBased/Steps.antt =====
-- GatewayAccessFrameLength.h: how a frame under construction goes on with the bytes that come.
use snet_gateway.Prelude.{ℕ, suc, ◌-◌, ◌≡◌, ◌≢◌, refl, ◌∙◌, [], ◌∷◌, ◌++◌, Bytes, arith}
use snet_gateway.External.FrameReader.{FrameReader, complete, incomplete, violation, proceed}
use snet_gateway.Frames.LengthBased.{
  header, awaiting_data, full, GatewayAccessFrameLength, masked, announced,
  create_deserialized_frame, deserialize, on_header, length_class,
}

-- A frame that waits for payload, and one that is complete.
abbrev pub awaiting : ℕ → Bytes → GatewayAccessFrameLength
awaiting n buf = record { state = awaiting_data; bytes_remaining = n; buffer = buf }

abbrev pub finished : Bytes → GatewayAccessFrameLength
finished buf = record { state = full; bytes_remaining = 0; buffer = buf }

-- A frame with the first byte of its header.
abbrev pub half_header : ℕ → GatewayAccessFrameLength
half_header b = record { state = header; bytes_remaining = 1; buffer = b ∷ [] }

module _ (r : FrameReader length_class) where
  pub read-finished : (buf bs : Bytes) → r.read (finished buf) bs ≡ complete (finished buf) bs
  read-finished buf bs = r.read_complete (finished buf) bs refl

  pub read-awaiting_nil :
      (n : ℕ) (buf : Bytes) → r.read (awaiting (suc n) buf) [] ≡ incomplete (awaiting (suc n) buf)
  read-awaiting_nil n buf = r.read_starved (awaiting (suc n) buf) (omega arith)

  -- The last byte of the payload completes the frame.
  pub read-awaiting_last :
      (buf : Bytes) (b : ℕ) (bs : Bytes)
      → r.read (awaiting 1 buf) (b ∷ bs) ≡ complete (finished (buf ++ b ∷ [])) bs
  unfolding deserialize
  read-awaiting_last buf b bs =
      rw (r.read_byte (awaiting 1 buf) b bs (omega arith)) (read-finished (buf ++ b ∷ []) bs)

  pub read-awaiting_more :
      (n : ℕ) (buf : Bytes) (b : ℕ) (bs : Bytes)
      → r.read (awaiting (suc (suc n)) buf) (b ∷ bs) ≡ r.read (awaiting (suc n) (buf ++ b ∷ [])) bs
  read-awaiting_more n buf b bs =
      rw (r.read_byte (awaiting (suc (suc n)) buf) b bs (omega arith)) (rw one_less (ground arith))
    where
      one_less : suc (suc n) - 1 ≡ suc n
      one_less = omega arith

  -- The two bytes of the header.
  pub read-header :
      (b0 b1 : ℕ) (bs : Bytes)
      → r.read create_deserialized_frame (b0 ∷ b1 ∷ bs)
        ≡ proceed
            (λ g. r.read g bs)
            (on_header
              (record { state = header; bytes_remaining = 0; buffer = b0 ∷ b1 ∷ [] })
              b0
              b1)
  unfolding create_deserialized_frame deserialize
  read-header b0 b1 bs = rw (r.read_byte create_deserialized_frame b0 (b1 ∷ bs) (omega arith)) (
      r.read_byte (record { state = header; bytes_remaining = 1; buffer = b0 ∷ [] }) b1 bs
        (omega arith))

  pub read-announced :
      (b0 b1 n : ℕ) (bs : Bytes)
      → masked b0 ≡ 0x80
      → announced b0 b1 ≡ suc n
      → r.read create_deserialized_frame (b0 ∷ b1 ∷ bs) ≡ r.read (awaiting (suc n) []) bs
  unfolding on_header
  read-announced b0 b1 n bs h k = read-header b0 b1 bs ∙ ground arith

  pub read-announced_zero :
      (b0 b1 : ℕ) (bs : Bytes)
      → masked b0 ≡ 0x80
      → announced b0 b1 ≡ 0
      → r.read create_deserialized_frame (b0 ∷ b1 ∷ bs) ≡ complete (finished []) bs
  unfolding on_header
  read-announced_zero b0 b1 bs h k = read-header b0 b1 bs ∙ ground (arith, read-finished [] bs)

  pub read-mask_ne :
      (b0 b1 : ℕ) (bs : Bytes)
      → masked b0 ≢ 0x80
      → r.read create_deserialized_frame (b0 ∷ b1 ∷ bs) ≡ violation
  unfolding on_header
  read-mask_ne b0 b1 bs h = read-header b0 b1 bs ∙ ground arith

  pub read-start_nil : r.read create_deserialized_frame [] ≡ incomplete create_deserialized_frame
  unfolding create_deserialized_frame
  read-start_nil =
      r.read_starved (record { state = header; bytes_remaining = 2; buffer = [] }) (omega arith)

  pub read-start_one :
      (b : ℕ) → r.read create_deserialized_frame (b ∷ []) ≡ incomplete (half_header b)
  unfolding create_deserialized_frame
  read-start_one b =
      rw (r.read_byte create_deserialized_frame b [] (omega arith))
        (r.read_starved (half_header b) (omega arith))
