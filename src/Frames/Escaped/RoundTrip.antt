-- ===== src/Frames/Escaped/RoundTrip.antt =====
-- GatewayAccessFrameEscaped.h: what `Serialize` writes, `Deserialize` reads.
use snet_gateway.Prelude.{
  ℕ, ◌+◌, ◌<◌, ◌≡◌, ◌≢◌, refl, ◌∙◌, ◌⊎◌, inl, inr, [], ◌∷◌, ◌++◌, append_assoc, append-nil, Bytes,
  arith, length, length_snoc,
}
use snet_gateway.Prelude.Result.{ok, ◌>>=◌}
use snet_gateway.External.FrameReader.{FrameReader, complete}
use snet_gateway.Frames.Escaped.{
  mtu, create, create_deserialized_frame, serialize, get_payload, escape, escaped_class, unescaped,
}
use snet_gateway.Frames.Escaped.Wire.{escape_all, wire, serialize-create}
use snet_gateway.Frames.Escaped.Steps.{
  waiting, finished, read-start, read-delimiter, read-escape, read-plain, read-revealed,
}

-- A byte is the delimiter, the escape character, or plain.
pub byte_cases : (b : ℕ) → (b ≡ 0x7E) ⊎ (b ≡ 0x7D) ⊎ ((b ≢ 0x7D) × (b ≢ 0x7E))
byte_cases b = ground arith

module _ (r : FrameReader escaped_class) where
  read-escaped_byte :
      (buf : Bytes) (b : ℕ) (bs : Bytes)
      → length buf + 1 < mtu
      → r.read (waiting unescaped buf) (escape b ++ bs)
        ≡ r.read (waiting unescaped (buf ++ b ∷ [])) bs
  unfolding escape
  read-escaped_byte buf b bs fits = elim (byte_cases b) [
    | inl e ↦ rw e (read-escape r buf (0x5E ∷ bs) ∙ read-revealed r buf 0x5E 0x7E bs refl fits)
    | inr (inl e) ↦
        rw e (read-escape r buf (0x5D ∷ bs) ∙ read-revealed r buf 0x5D 0x7D bs refl fits)
    | inr (inr (h, k)) ↦ ground (arith, read-plain r buf b bs h k fits)
  ]

  read-escape_all :
      (buf p bs : Bytes)
      → length buf + length p < mtu
      → r.read (waiting unescaped buf) (escape_all p ++ bs)
        ≡ r.read (waiting unescaped (buf ++ p)) bs
  unfolding escape_all
  read-escape_all buf [] bs fits = rw append-nil
  read-escape_all buf (b ∷ p) bs fits =
      rw (append_assoc (escape b), read-escaped_byte buf b (escape_all p ++ bs) (omega arith))
        (rw (read-escape_all (buf ++ b ∷ []) p bs (omega (arith, length_snoc buf b)), append_assoc))

  pub read-wire :
      (p rest : Bytes)
      → length p < mtu
      → r.read create_deserialized_frame (wire p ++ rest) ≡ complete (finished p) rest
  read-wire p rest h =
      rw (read-start r, append_assoc, read-escape_all [] p (0x7E ∷ rest) (omega arith))
        (read-delimiter r p rest)

  -- Every payload below the limit can be serialized, and whatever follows on the stream, the peer
  -- reads the frame, its payload is the one that was sent, and the rest is left unread.
  pub escaped_round_trip :
      (p rest : Bytes)
      → length p < mtu
      → (bs : Bytes) × ((create p >>= serialize) ≡ ok bs)
        × (r.read create_deserialized_frame (bs ++ rest) ≡ complete (finished p) rest)
        × (get_payload (finished p) ≡ ok p)
  unfolding get_payload
  escaped_round_trip p rest h = (wire p, serialize-create p h, read-wire p rest h, refl)
