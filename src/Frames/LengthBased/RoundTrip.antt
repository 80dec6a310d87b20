-- ===== src/Frames/LengthBased/RoundTrip.antt =====
-- GatewayAccessFrameLength.h: what `Serialize` writes, `Deserialize` reads.
use snet_gateway.Prelude.{
  ℕ, suc, ◌+◌, ◌/◌, ◌%◌, ◌^◌, ◌<◌, ◌≡◌, refl, ◌∙◌, [], ◌∷◌, ◌++◌, append_assoc, Bytes, arith,
  length, lt→ltb,
}
use snet_gateway.Prelude.Result.{ok, ◌>>=◌}
use snet_gateway.External.FrameReader.{FrameReader, complete}
use snet_gateway.Frames.LengthBased.{
  mtu, masked, announced, create, create_deserialized_frame, serialize, get_payload, length_class,
}
use snet_gateway.Frames.LengthBased.Steps.{
  awaiting, finished, read-awaiting_last, read-awaiting_more, read-announced, read-announced_zero,
}

-- The two bytes before a payload of `n` bytes.
abbrev pub upper : ℕ → ℕ
upper n = (0x80 + n % 2 ^ 16 / 2 ^ 8 % 2 ^ 4) % 2 ^ 8

abbrev pub lower : ℕ → ℕ
lower n = n % 2 ^ 16 % 2 ^ 8

abbrev pub wire : Bytes → Bytes
wire p = upper (length p) ∷ lower (length p) ∷ p

pub serialize-create : (p : Bytes) → length p < mtu → (create p >>= serialize) ≡ ok (wire p)
unfolding create serialize
serialize-create p h = rw (lt→ltb _ _ h)

pub serialize-finished : (p : Bytes) → serialize (finished p) ≡ ok (wire p)
unfolding serialize
serialize-finished p = refl

masked-upper : (n : ℕ) → masked (upper n) ≡ 0x80
masked-upper n = omega arith

announced-upper : (n : ℕ) → n < mtu → announced (upper n) (lower n) ≡ n
announced-upper n h = omega arith

module _ (r : FrameReader length_class) where
  pub read-payload :
      (b : ℕ) (p buf rest : Bytes)
      → r.read (awaiting (suc (length p)) buf) (b ∷ (p ++ rest))
        ≡ complete (finished (buf ++ b ∷ p)) rest
  read-payload b [] buf rest = read-awaiting_last r buf b rest
  read-payload b (c ∷ p) buf rest =
      rw (read-awaiting_more r (length p) buf b (c ∷ (p ++ rest)))
        (rw (read-payload c p (buf ++ b ∷ []) rest, append_assoc))

  pub read-wire :
      (p rest : Bytes)
      → length p < mtu
      → r.read create_deserialized_frame (wire p ++ rest) ≡ complete (finished p) rest
  read-wire [] rest h = read-announced_zero r 0x80 0 rest refl refl
  read-wire (b ∷ p) rest h =
      let n = suc (length p) in
      read-announced r (upper n) (lower n) (length p) (b ∷ (p ++ rest)) (masked-upper n)
        (announced-upper n h)
      ∙ read-payload b p [] rest

  -- Every payload below the limit can be serialized, and whatever follows on the stream, the peer
  -- reads the frame, its payload is the one that was sent, and the rest is left unread.
  pub length_round_trip :
      (p rest : Bytes)
      → length p < mtu
      → (bs : Bytes) × ((create p >>= serialize) ≡ ok bs)
        × (r.read create_deserialized_frame (bs ++ rest) ≡ complete (finished p) rest)
        × (get_payload (finished p) ≡ ok p)
  unfolding get_payload
  length_round_trip p rest h = (wire p, serialize-create p h, read-wire p rest h, refl)
