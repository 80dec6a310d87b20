-- ===== src/External/FrameStream.antt =====
-- How `FrameEndpoint` (libs/framing, a git submodule) cuts its stream into frames, as far as the
-- gateway relies on it. The first byte of a frame, masked, selects one of the registered factories;
-- a frame that is complete is handed over, and the next byte begins the next frame.
use snet_gateway.Prelude.{
  ℕ, sym, ◌∙◌, refl, Bool, true, false, Bool-cases, inl, inr, ==→eq, arith, ◌≢◌, ◌≡◌, Option, none,
  some, List, [], ◌∷◌, Bytes, ◌==◌, if◌then◌else◌,
}
use snet_gateway.External.FrameReader.{
  FrameClass, FrameReader, complete, incomplete, proceed, on_byte, read_all, read_all-complete,
  read_all_starved, read_all_byte, plain_reader,
}
use snet_gateway.Prelude.Result.{Result, ok, fault}

-- `RegisterFrameFactory`: the identifier of a kind of frames, and what its factory makes.
pub record FrameFactory (F : Type 0) : Type 0 where
  pub identifier : ℕ
  pub create : F

abbrev pub select : {F : Type 0} → (ℕ → ℕ) → List (FrameFactory F) → ℕ → Option F
select mask [] b = none
select mask (f ∷ fs) b = if mask f.identifier == mask b then some f.create else select mask fs b

pub record FrameStream {F : Type 0} (c : FrameClass F) (mask : ℕ → ℕ)
    (factories : List (FrameFactory F)) : Type 0 where
  pub reader : FrameReader c
  -- The frames that a stream of bytes delivers, in order.
  pub frames : Bytes → List F
  pub frames_end : frames [] ≡ []
  pub frames_complete :
      (b : ℕ) (bs rest : Bytes) (f g : F)
      → select mask factories b ≡ some f
      → c.bytes_remaining f ≢ 0
      → reader.read f (b ∷ bs) ≡ complete g rest
      → frames (b ∷ bs) ≡ g ∷ frames rest

-- A stream that meets the description: it keeps the frame that is being read, if there is one.
module _ {F : Type 0} (c : FrameClass F) (mask : ℕ → ℕ) (factories : List (FrameFactory F)) where
  current : Option F → ℕ → Option F
  current none b = select mask factories b
  current (some f) b = some f

  -- The frames behind a byte, where `next` goes on with a frame that waits or with none.
  after_byte : (Option F → List F) → Result (Bool × F) → List F
  after_byte next (ok (true, f)) = if c.bytes_remaining f == 0 then f ∷ next none else next (some f)
  after_byte next (ok (false, f)) = []
  after_byte next (fault e) = []

  begin_byte : (Option F → List F) → ℕ → Option F → List F
  begin_byte next b none = []
  begin_byte next b (some f) = after_byte next (on_byte c f b)

  pub frames_from : Option F → Bytes → List F
  unfolding current after_byte begin_byte
  frames_from o [] = []
  frames_from o (b ∷ bs) = begin_byte (λ o'. frames_from o' bs) b (current o b)

  after_byte-complete :
      (bs rest : Bytes) (g : F) (s : Result (Bool × F))
      → proceed (λ f. read_all c f bs) s ≡ complete g rest
      → ((f : F)
          → c.bytes_remaining f ≢ 0
          → read_all c f bs ≡ complete g rest
          → frames_from (some f) bs ≡ g ∷ frames_from none rest)
      → after_byte (λ o. frames_from o bs) s ≡ g ∷ frames_from none rest
  unfolding after_byte
  after_byte-complete bs rest g (fault e) k ih = absurd (ground arith)
  after_byte-complete bs rest g (ok (false, f)) k ih = absurd (ground arith)
  after_byte-complete bs rest g (ok (true, f)) k ih = elim (Bool-cases (c.bytes_remaining f == 0)) [
    | inl done ↦
        let whole : complete f bs ≡ complete g rest =
          sym (read_all-complete c f bs (==→eq _ _ done)) ∙ k in
        ground (arith, whole)
    | inr waits ↦ rw waits (ih f (λ z. ground arith) k)
  ]

  pub frames_from-complete :
      (bs rest : Bytes) (f g : F)
      → c.bytes_remaining f ≢ 0
      → read_all c f bs ≡ complete g rest
      → frames_from (some f) bs ≡ g ∷ frames_from none rest
  unfolding frames_from
  frames_from-complete [] rest f g waits k =
      let starved : incomplete f ≡ complete g rest = sym (read_all_starved c f waits) ∙ k in
      absurd (ground arith)
  frames_from-complete (b ∷ bs) rest f g waits k =
      after_byte-complete bs rest g (on_byte c f b) (sym (read_all_byte c f b bs waits) ∙ k)
        (λ f'. frames_from-complete bs rest f' g)

  unfoldable pub plain_stream : FrameStream c mask factories
  unfolding frames_from plain_reader
  plain_stream = record {
    reader = plain_reader c;
    frames = frames_from none;
    frames_end = refl;
    frames_complete =
        λ b bs rest f g chosen waits k. rw chosen (frames_from-complete (b ∷ bs) rest f g waits k);
  }
