-- ===== src/External/FrameReader.antt =====
-- `Frame` and the reading half of `FrameEndpoint` (libs/framing, a git submodule). The endpoint
-- appends each received byte to a frame's `m_Buffer`, lowers `m_BytesRemaining`, and calls
-- `Deserialize` when all requested bytes are there. A frame that requests no more is complete.
use snet_gateway.Prelude.{
  ℕ, ◌-◌, ◌++◌, ◌≡◌, ◌≢◌, Bool, true, false, [], ◌∷◌, Bytes, ◌==◌, if◌then◌else◌, arith,
}
use snet_gateway.Prelude.Result.{Result, ok, fault, Fault}

-- What the endpoint sees of a frame under construction: the members `m_BytesRemaining` and `m_Buffer`
-- that it reads and sets, and the virtual `Deserialize`.
pub record FrameClass (F : Type 0) : Type 0 where
  pub bytes_remaining : F → ℕ
  pub buffer : F → Bytes
  pub set_members : ℕ → Bytes → F → F
  pub deserialize : F → Result (Bool × F)

-- A complete frame with the unread bytes; a frame that waits for more; a frame that refused its
-- bytes; a fault in `Deserialize`.
pub data Reading (F : Type 0) : Type 0 where
  complete : F → Bytes → Reading F
  incomplete : F → Reading F
  violation : Reading F
  crashed : Fault → Reading F

module _ {F : Type 0} where
  -- One received byte, as the law `read_byte` describes it.
  abbrev pub on_byte : FrameClass F → F → ℕ → Result (Bool × F)
  on_byte c f b =
      let g = c.set_members (c.bytes_remaining f - 1) (c.buffer f ++ b ∷ []) f in
      if c.bytes_remaining g == 0 then c.deserialize g else ok (true, g)

  abbrev pub proceed : (F → Reading F) → Result (Bool × F) → Reading F
  proceed next (ok (true, f)) = next f
  proceed next (ok (false, f)) = violation
  proceed next (fault e) = crashed e

-- The loop over the received bytes, with what the frames rely on.
pub record FrameReader {F : Type 0} (c : FrameClass F) : Type 0 where
  pub read : F → Bytes → Reading F
  pub read_complete : (f : F) (bs : Bytes) → c.bytes_remaining f ≡ 0 → read f bs ≡ complete f bs
  pub read_starved : (f : F) → c.bytes_remaining f ≢ 0 → read f [] ≡ incomplete f
  pub read_byte :
      (f : F) (b : ℕ) (bs : Bytes)
      → c.bytes_remaining f ≢ 0
      → read f (b ∷ bs) ≡ proceed (λ g. read g bs) (on_byte c f b)

-- A loop that meets the description.
module _ {F : Type 0} (c : FrameClass F) where
  unfoldable pub read_all : F → Bytes → Reading F
  read_all f [] = if c.bytes_remaining f == 0 then complete f [] else incomplete f
  read_all f (b ∷ bs) =
      if c.bytes_remaining f == 0
      then complete f (b ∷ bs)
      else proceed (λ g. read_all g bs) (on_byte c f b)

  pub read_all-complete :
      (f : F) (bs : Bytes) → c.bytes_remaining f ≡ 0 → read_all f bs ≡ complete f bs
  unfolding read_all
  read_all-complete f [] h = ground arith
  read_all-complete f (b ∷ bs) h = ground arith

  pub read_all_starved : (f : F) → c.bytes_remaining f ≢ 0 → read_all f [] ≡ incomplete f
  unfolding read_all
  read_all_starved f h = ground arith

  pub read_all_byte :
      (f : F) (b : ℕ) (bs : Bytes)
      → c.bytes_remaining f ≢ 0
      → read_all f (b ∷ bs) ≡ proceed (λ g. read_all g bs) (on_byte c f b)
  unfolding read_all
  read_all_byte f b bs h = ground arith

  unfoldable pub plain_reader : FrameReader c
  unfolding read_all
  plain_reader = record {
    read = read_all;
    read_complete = read_all-complete;
    read_starved = read_all_starved;
    read_byte = read_all_byte;
  }
