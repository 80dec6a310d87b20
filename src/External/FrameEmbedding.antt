-- ===== src/External/FrameEmbedding.antt =====
-- Frames of one kind among the frames of several kinds are read as they are read alone.
use snet_gateway.Prelude.{
  ℕ, ◌∙◌, sym, ◌≡◌, ◌≢◌, refl, Bool, true, false, [], ◌∷◌, Bytes, arith, ◌==◌, Bool-cases, inl, inr,
  ==→eq,
}
use snet_gateway.Prelude.Result.{Result, ok, fault}
use snet_gateway.External.FrameReader.{
  FrameClass, FrameReader, Reading, complete, incomplete, violation, crashed, proceed, on_byte,
}

module _ {F G : Type 0} (embed : F → G) where
  abbrev pub embed_result : Result (Bool × F) → Result (Bool × G)
  embed_result (fault e) = fault e
  embed_result (ok (valid, f)) = ok (valid, embed f)

  abbrev pub embed_reading : Reading F → Reading G
  embed_reading (complete f bs) = complete (embed f) bs
  embed_reading (incomplete f) = incomplete (embed f)
  embed_reading violation = violation
  embed_reading (crashed e) = crashed e

  module _ (c : FrameClass F) (d : FrameClass G) where
    pub record IsEmbedding : Type 0 where
      pub remaining : (f : F) → d.bytes_remaining (embed f) ≡ c.bytes_remaining f
      pub byte : (f : F) (b : ℕ) → on_byte d (embed f) b ≡ embed_result (on_byte c f b)

    module _ (q : FrameReader c) (r : FrameReader d) (i : IsEmbedding) where
      proceed-embed :
          (bs : Bytes) (s : Result (Bool × F))
          → ((f : F) → r.read (embed f) bs ≡ embed_reading (q.read f bs))
          → proceed (λ g. r.read g bs) (embed_result s)
            ≡ embed_reading (proceed (λ g. q.read g bs) s)
      proceed-embed bs (fault e) same = refl
      proceed-embed bs (ok (true, f)) same = same f
      proceed-embed bs (ok (false, f)) same = refl

      pub read-embed : (bs : Bytes) (f : F) → r.read (embed f) bs ≡ embed_reading (q.read f bs)
      read-embed [] f = elim (Bool-cases (c.bytes_remaining f == 0)) [
        | inl none_left ↦
            let done = ==→eq _ _ none_left in
            rw (r.read_complete (embed f) [] (i.remaining f ∙ done), q.read_complete f [] done) refl
        | inr some_left ↦
            let waits : c.bytes_remaining f ≢ 0 = λ k. ground arith in
            rw
              (
                r.read_starved (embed f) (λ k. waits (sym (i.remaining f) ∙ k)),
                q.read_starved f waits,
              )
              refl
      ]
      read-embed (b ∷ bs) f = elim (Bool-cases (c.bytes_remaining f == 0)) [
        | inl none_left ↦
            let done = ==→eq _ _ none_left in
            rw
              (
                r.read_complete (embed f) (b ∷ bs) (i.remaining f ∙ done),
                q.read_complete f (b ∷ bs) done,
              )
              refl
        | inr some_left ↦
            let waits : c.bytes_remaining f ≢ 0 = λ k. ground arith in
            rw
              (
                r.read_byte (embed f) b bs (λ k. waits (sym (i.remaining f) ∙ k)),
                i.byte f b,
                q.read_byte f b bs waits,
              )
              (proceed-embed bs (on_byte c f b) (read-embed bs))
      ]
