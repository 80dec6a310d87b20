-- ===== src/Frames/LengthBased/Soundness.antt =====
-- GatewayAccessFrameLength.h: a frame that is read was written by `Serialize`, but for the reserved
-- bits.
use snet_gateway.Prelude.{
  ℕ, suc, zero, ◌+◌, ◌%◌, ◌<◌, ◌≡◌, refl, sym, ap, ◌∙◌, ◌⊎◌, inl, inr, [], ◌∷◌, ◌++◌, append_assoc,
  Bytes, IsBytes, arith, length,
}
use native.Mathlib.Decide.{ℕ_discrete}
use snet_gateway.Prelude.Result.{ok, ◌>>=◌}
use snet_gateway.External.FrameReader.{FrameReader, complete}
use snet_gateway.Frames.LengthBased.{
  GatewayAccessFrameLength, mtu, masked, announced, create, create_deserialized_frame, serialize,
  get_payload, length_class,
}
use snet_gateway.Frames.LengthBased.Steps.{
  awaiting, finished, read-awaiting_nil, read-awaiting_last, read-awaiting_more, read-announced,
  read-announced_zero, read-mask_ne, read-start_nil, read-start_one,
}
use snet_gateway.Frames.LengthBased.RoundTrip.{upper, lower, serialize-create}

-- The header of a payload, from a header that announced its size.
header-announced :
    (b0 b1 n : ℕ)
    → b0 < 256
    → b1 < 256
    → announced b0 b1 ≡ n
    → (upper n ≡ 0x80 + b0 % 16) × (lower n ≡ b1) × (n < mtu)
header-announced b0 b1 n h k e = omega arith

zero-or-suc : (n : ℕ) → (n ≡ 0) ⊎ ((m : ℕ) × (n ≡ suc m))
zero-or-suc zero = inl refl
zero-or-suc (suc n) = inr (n, refl)

module _ (r : FrameReader length_class) (f : GatewayAccessFrameLength) (rest : Bytes) where
  abbrev Collected : ℕ → Bytes → Bytes → Type 0
  Collected n buf bs =
      (q : Bytes) × (f ≡ finished (buf ++ q)) × (length q ≡ suc n) × (bs ≡ q ++ rest)

  collect :
      (bs : Bytes) (n : ℕ) (buf : Bytes)
      → r.read (awaiting (suc n) buf) bs ≡ complete f rest
      → Collected n buf bs
  collect [] n buf h = cc (read-awaiting_nil r n buf)
  collect (b ∷ bs) zero buf h =
      (b ∷ [], cc (read-awaiting_last r buf b bs), refl, cc (read-awaiting_last r buf b bs))
  collect (b ∷ bs) (suc n) buf h =
      let (q, e, size, shape) =
        collect bs n (buf ++ b ∷ []) (sym (read-awaiting_more r n buf b bs) ∙ h) in
      (b ∷ q, e ∙ ap finished (append_assoc buf (b ∷ []) q), ap suc size, ap (◌∷◌ b) shape)

  -- A whole frame: the header and as much payload as it announces.
  abbrev Framed : Bytes → Type 0
  Framed bs =
      (b0 b1 : ℕ) × (p : Bytes) × (bs ≡ b0 ∷ b1 ∷ (p ++ rest))
      × (masked b0 ≡ 0x80)
      × (announced b0 b1 ≡ length p)
      × (f ≡ finished p)

  framed :
      (b0 b1 : ℕ) (bs : Bytes)
      → r.read create_deserialized_frame (b0 ∷ b1 ∷ bs) ≡ complete f rest
      → masked b0 ≡ 0x80
      → Framed (b0 ∷ b1 ∷ bs)
  framed b0 b1 bs h m = elim (zero-or-suc (announced b0 b1)) [
    | inl e ↦
        let empty = read-announced_zero r b0 b1 bs m e in (b0, b1, [], cc empty, m, e, cc empty)
    | inr (n, e) ↦
        let (q, done, size, shape) = collect bs n [] (sym (read-announced r b0 b1 n bs m e) ∙ h) in
        (b0, b1, q, ap (λ (t : Bytes). b0 ∷ b1 ∷ t) shape, m, e ∙ sym size, done)
  ]

  read_inversion : (bs : Bytes) → r.read create_deserialized_frame bs ≡ complete f rest → Framed bs
  read_inversion [] h = cc (read-start_nil r)
  read_inversion (b ∷ []) h = cc (read-start_one r b)
  read_inversion (b0 ∷ b1 ∷ bs) h = elim (ℕ_discrete (masked b0) 0x80) [
    | yes m ↦ framed b0 b1 bs h m
    | no m ↦ cc (read-mask_ne r b0 b1 bs m)
  ]

-- When the peer has read a frame from a stream of bytes, the stream began with the two bytes of a
-- header and the payload of that frame, and the rest is left unread. The payload is below the
-- limit, and those first bytes are what `Serialize` writes for it, but for the three reserved bits
-- of the first byte, which are not looked at.
pub length_soundness :
    (r : FrameReader length_class) (bs rest : Bytes) (f : GatewayAccessFrameLength)
    → IsBytes bs
    → r.read create_deserialized_frame bs ≡ complete f rest
    → (b0 b1 : ℕ) × (p : Bytes) × (bs ≡ b0 ∷ b1 ∷ (p ++ rest))
      × (get_payload f ≡ ok p)
      × (length p < mtu)
      × ((create p >>= serialize) ≡ ok ((0x80 + b0 % 16) ∷ b1 ∷ p))
unfolding get_payload
length_soundness r bs rest f small h =
    let (b0, b1, p, shape, m, size, done) = read_inversion r f rest bs h in
    let bytes : IsBytes (b0 ∷ b1 ∷ (p ++ rest)) = rw shape at small in
    let (up, low, fits) = header-announced b0 b1 (length p) bytes.0 bytes.1.0 size in
    (b0, b1, p, shape, rw done refl, fits, rw (serialize-create p fits, up, low))
