-- ===== src/Frames/Escaped/Steps.antt =====
-- GatewayAccessFrameEscaped.h: how a frame that waits for its next byte goes on, byte by byte.
use snet_gateway.Prelude.{
  ℕ, ◌+◌, ◌≤◌, ◌<◌, ◌≡◌, ◌≢◌, refl, Option, none, some, [], ◌∷◌, ◌++◌, Bytes, arith, length,
  length_snoc, ◌==◌, if◌then◌else◌,
}
use snet_gateway.External.FrameReader.{FrameReader, complete, incomplete, violation, proceed}
use snet_gateway.Frames.Escaped.{
  Deserialization, framestart, unescaped, escaped, full, GatewayAccessFrameEscaped, mtu,
  create_deserialized_frame, split_from, split_last, dispatch, deserialize, escaped_class,
}

split_from_snoc : (b : ℕ) (xs : Bytes) (y : ℕ) → split_from b (xs ++ y ∷ []) ≡ (b ∷ xs, y)
unfolding split_from
split_from_snoc b [] y = refl
split_from_snoc b (x ∷ xs) y = rw (split_from_snoc x xs y)

split_last_snoc : (xs : Bytes) (y : ℕ) → split_last (xs ++ y ∷ []) ≡ some (xs, y)
unfolding split_last
split_last_snoc [] y = refl
split_last_snoc (x ∷ xs) y = rw (split_from_snoc x xs y)

-- A frame that requests one byte, and the same frame when the byte has come.
abbrev pub waiting : Deserialization → Bytes → GatewayAccessFrameEscaped
waiting s buf = record { state = s; bytes_remaining = 1; buffer = buf }

abbrev pub arrived : Deserialization → Bytes → ℕ → GatewayAccessFrameEscaped
arrived s buf b = record { state = s; bytes_remaining = 0; buffer = buf ++ b ∷ [] }

-- A frame that is complete.
abbrev pub finished : Bytes → GatewayAccessFrameEscaped
finished buf = record { state = full; bytes_remaining = 0; buffer = buf }

deserialize-arrived :
    (s : Deserialization) (buf : Bytes) (b : ℕ)
    → deserialize (arrived s buf b) ≡ dispatch s (arrived s buf b) (buf, b)
unfolding deserialize
deserialize-arrived s buf b = rw (split_last_snoc buf b)

-- The byte that an escaped byte stands for.
abbrev pub revealed : ℕ → Option ℕ
revealed c = if c == 0x5E then some 0x7E else if c == 0x5D then some 0x7D else none

module _ (r : FrameReader escaped_class) where
  pub read-waiting :
      (s : Deserialization) (buf : Bytes) (b : ℕ) (bs : Bytes)
      → r.read (waiting s buf) (b ∷ bs)
        ≡ proceed (λ g. r.read g bs) (dispatch s (arrived s buf b) (buf, b))
  read-waiting s buf b bs =
      rw (r.read_byte (waiting s buf) b bs (omega arith), deserialize-arrived s buf b)

  pub read-waiting_nil :
      (s : Deserialization) (buf : Bytes) → r.read (waiting s buf) [] ≡ incomplete (waiting s buf)
  read-waiting_nil s buf = r.read_starved (waiting s buf) (omega arith)

  pub read-finished : (buf bs : Bytes) → r.read (finished buf) bs ≡ complete (finished buf) bs
  read-finished buf bs = r.read_complete (finished buf) bs refl

  pub read-start :
      (bs : Bytes) → r.read create_deserialized_frame (0x7E ∷ bs) ≡ r.read (waiting unescaped []) bs
  unfolding create_deserialized_frame dispatch
  read-start bs = rw (read-waiting framestart [] 0x7E bs)

  pub read-start_nil : r.read create_deserialized_frame [] ≡ incomplete create_deserialized_frame
  unfolding create_deserialized_frame
  read-start_nil = read-waiting_nil framestart []

  pub read-start_ne :
      (b : ℕ) (bs : Bytes) → b ≢ 0x7E → r.read create_deserialized_frame (b ∷ bs) ≡ violation
  unfolding create_deserialized_frame dispatch
  read-start_ne b bs h = rw (read-waiting framestart [] b bs) (ground arith)

  -- The delimiter ends the frame.
  pub read-delimiter :
      (buf bs : Bytes) → r.read (waiting unescaped buf) (0x7E ∷ bs) ≡ complete (finished buf) bs
  unfolding dispatch
  read-delimiter buf bs = rw (read-waiting unescaped buf 0x7E bs) (read-finished buf bs)

  -- The escape character is dropped.
  pub read-escape :
      (buf bs : Bytes)
      → r.read (waiting unescaped buf) (0x7D ∷ bs) ≡ r.read (waiting escaped buf) bs
  unfolding dispatch
  read-escape buf bs = rw (read-waiting unescaped buf 0x7D bs)

  -- Any other byte is kept while the payload fits.
  pub read-plain :
      (buf : Bytes) (b : ℕ) (bs : Bytes)
      → b ≢ 0x7D
      → b ≢ 0x7E
      → length buf + 1 < mtu
      → r.read (waiting unescaped buf) (b ∷ bs) ≡ r.read (waiting unescaped (buf ++ b ∷ [])) bs
  unfolding dispatch
  read-plain buf b bs h k fits =
      rw (read-waiting unescaped buf b bs) (ground (arith, length_snoc buf b))

  pub read-plain_full :
      (buf : Bytes) (b : ℕ) (bs : Bytes)
      → b ≢ 0x7D
      → b ≢ 0x7E
      → mtu ≤ length buf + 1
      → r.read (waiting unescaped buf) (b ∷ bs) ≡ violation
  unfolding dispatch
  read-plain_full buf b bs h k over =
      rw (read-waiting unescaped buf b bs) (ground (arith, length_snoc buf b))

  -- The byte after the escape character is replaced, and counts like any other.
  pub read-revealed :
      (buf : Bytes) (c b : ℕ) (bs : Bytes)
      → revealed c ≡ some b
      → length buf + 1 < mtu
      → r.read (waiting escaped buf) (c ∷ bs) ≡ r.read (waiting unescaped (buf ++ b ∷ [])) bs
  unfolding dispatch
  read-revealed buf c b bs h fits =
      rw (read-waiting escaped buf c bs)
        (ground (arith, length_snoc buf 0x7E, length_snoc buf 0x7D))

  pub read-revealed_full :
      (buf : Bytes) (c b : ℕ) (bs : Bytes)
      → revealed c ≡ some b
      → mtu ≤ length buf + 1
      → r.read (waiting escaped buf) (c ∷ bs) ≡ violation
  unfolding dispatch
  read-revealed_full buf c b bs h over =
      rw (read-waiting escaped buf c bs)
        (ground (arith, length_snoc buf 0x7E, length_snoc buf 0x7D))

  pub read-revealed-none :
      (buf : Bytes) (c : ℕ) (bs : Bytes)
      → revealed c ≡ none
      → r.read (waiting escaped buf) (c ∷ bs) ≡ violation
  unfolding dispatch
  read-revealed-none buf c bs h = rw (read-waiting escaped buf c bs) (ground arith)
