-- ===== src/Frames/Escaped/Soundness.antt =====
-- GatewayAccessFrameEscaped.h: a frame that is read was written by `Serialize`.
use snet_gateway.Prelude.{
  ℕ, ◌+◌, ◌<◌, ◌≡◌, ◌≢◌, refl, sym, ap, ◌∙◌, inl, inr, [], ◌∷◌, ◌++◌, append_assoc, append-nil,
  Bytes, some, arith, length, length_snoc, Option-cases,
}
use native.Mathlib.Decide.{dec_lt, ℕ_discrete}
use snet_gateway.Prelude.Result.{ok, ◌>>=◌}
use snet_gateway.External.FrameReader.{FrameReader, complete}
use snet_gateway.Frames.Escaped.{
  GatewayAccessFrameEscaped, mtu, create, create_deserialized_frame, serialize, get_payload, escape,
  escaped_class, unescaped, escaped,
}
use snet_gateway.Frames.Escaped.Wire.{escape_all, wire, serialize-create}
use snet_gateway.Frames.Escaped.Steps.{
  waiting, finished, revealed, read-start, read-start_ne, read-delimiter, read-escape, read-plain,
  read-plain_full, read-revealed, read-revealed_full, read-revealed-none, read-waiting_nil,
  read-start_nil,
}
use snet_gateway.Frames.Escaped.RoundTrip.{byte_cases}

escape-revealed : (c b : ℕ) (bs : Bytes) → revealed c ≡ some b → escape b ++ bs ≡ 0x7D ∷ c ∷ bs
unfolding escape
escape-revealed c b bs h = ground arith

escape_plain : (b : ℕ) (bs : Bytes) → b ≢ 0x7D → b ≢ 0x7E → escape b ++ bs ≡ b ∷ bs
unfolding escape
escape_plain b bs h k = ground arith

module _ (r : FrameReader escaped_class) (f : GatewayAccessFrameEscaped) (rest : Bytes) where
  -- What was read behind `buf` when the frame `f` is complete.
  abbrev Collected : Bytes → Bytes → Type 0
  Collected buf bs =
      (q : Bytes) × (f ≡ finished (buf ++ q))
      × (length (buf ++ q) < mtu)
      × (bs ≡ escape_all q ++ 0x7E ∷ rest)

  abbrev CollectedEscaped : Bytes → Bytes → Type 0
  CollectedEscaped buf bs =
      (c b : ℕ) × (bs' : Bytes) × (revealed c ≡ some b)
      × (bs ≡ c ∷ bs')
      × Collected (buf ++ b ∷ []) bs'

  extend :
      (buf : Bytes) (b : ℕ) (bs : Bytes)
      → Collected (buf ++ b ∷ []) bs
      → Collected buf (escape b ++ bs)
  unfolding escape_all
  extend buf b bs (q, e, fits, shape) = (
    b ∷ q,
    e ∙ ap finished (append_assoc buf (b ∷ []) q),
    rw append_assoc at fits,
    ap (◌++◌ (escape b)) shape ∙ sym (append_assoc (escape b) (escape_all q) (0x7E ∷ rest)),
  )

  -- The frame is read from `bs` behind any buffer, in either state.
  abbrev Reads : Bytes → Type 0
  Reads bs =
      (buf : Bytes)
      → length buf < mtu
      → (r.read (waiting unescaped buf) bs ≡ complete f rest → Collected buf bs)
        × (r.read (waiting escaped buf) bs ≡ complete f rest → CollectedEscaped buf bs)

  collect_delimiter :
      (bs buf : Bytes)
      → length buf < mtu
      → r.read (waiting unescaped buf) (0x7E ∷ bs) ≡ complete f rest
      → Collected buf (0x7E ∷ bs)
  unfolding escape_all
  collect_delimiter bs buf fits h = (
    [],
    rw append-nil (cc (read-delimiter r buf bs)),
    rw append-nil fits,
    cc (read-delimiter r buf bs),
  )

  collect_escape : (bs buf : Bytes) → CollectedEscaped buf bs → Collected buf (0x7D ∷ bs)
  collect_escape bs buf (c, b, bs', known, shape, tail) =
      rw shape (rw (escape-revealed c b bs' known) at (extend buf b bs' tail))

  collect_plain :
      (b : ℕ) (bs buf : Bytes)
      → b ≢ 0x7D
      → b ≢ 0x7E
      → Reads bs
      → r.read (waiting unescaped buf) (b ∷ bs) ≡ complete f rest
      → Collected buf (b ∷ bs)
  collect_plain b bs buf h k later e = elim (dec_lt (length buf + 1) mtu) [
    | yes fits ↦ rw (escape_plain b bs h k) at (
        extend buf b bs (
          (later (buf ++ b ∷ []) (omega (arith, length_snoc buf b))).0
            (sym (read-plain r buf b bs h k fits) ∙ e)))
    | no over ↦ cc (read-plain_full r buf b bs h k (omega arith))
  ]

  collect_unescaped :
      (b : ℕ) (bs buf : Bytes)
      → length buf < mtu
      → Reads bs
      → r.read (waiting unescaped buf) (b ∷ bs) ≡ complete f rest
      → Collected buf (b ∷ bs)
  collect_unescaped b bs buf fits later h = elim (byte_cases b) [
    | inl e ↦ rw e (collect_delimiter bs buf fits (rw e at h))
    | inr (inl e) ↦
        rw e (collect_escape bs buf ((later buf fits).1 (sym (read-escape r buf bs) ∙ (rw e at h))))
    | inr (inr (p, q)) ↦ collect_plain b bs buf p q later h
  ]

  collect_escaped :
      (b : ℕ) (bs buf : Bytes)
      → Reads bs
      → r.read (waiting escaped buf) (b ∷ bs) ≡ complete f rest
      → CollectedEscaped buf (b ∷ bs)
  collect_escaped c bs buf later h = elim (Option-cases (revealed c)) [
    | inl unknown ↦ cc (read-revealed-none r buf c bs unknown)
    | inr (b, known) ↦ elim (dec_lt (length buf + 1) mtu) [
      | yes fits ↦ (
        c,
        b,
        bs,
        known,
        refl,
        (later (buf ++ b ∷ []) (omega (arith, length_snoc buf b))).0
            (sym (read-revealed r buf c b bs known fits) ∙ h),
      )
      | no over ↦ cc (read-revealed_full r buf c b bs known (omega arith))
    ]
  ]

  collect : (bs : Bytes) → Reads bs
  collect [] buf fits =
      ((λ h. cc (read-waiting_nil r unescaped buf)), (λ h. cc (read-waiting_nil r escaped buf)))
  collect (b ∷ bs) buf fits =
      (collect_unescaped b bs buf fits (collect bs), collect_escaped b bs buf (collect bs))

  read_inversion :
      (bs : Bytes)
      → r.read create_deserialized_frame bs ≡ complete f rest
      → (tail : Bytes) × (bs ≡ 0x7E ∷ tail) × Collected [] tail
  read_inversion [] h = cc (read-start_nil r)
  read_inversion (b ∷ bs) h = elim (ℕ_discrete b 0x7E) [
    | yes e ↦ (
      bs,
      ap (λ (x : ℕ). x ∷ bs) e,
      (collect bs [] (omega arith)).0 (sym (read-start r bs) ∙ (rw e at h)),
    )
    | no ne ↦ cc (read-start_ne r b bs ne)
  ]

-- When the peer has read a frame, the stream began with exactly the bytes that `Serialize` writes
-- for the payload of that frame, the payload is below the limit, and the rest is left unread.
pub escaped_soundness :
    (r : FrameReader escaped_class) (bs rest : Bytes) (f : GatewayAccessFrameEscaped)
    → r.read create_deserialized_frame bs ≡ complete f rest
    → (p : Bytes) × (written : Bytes) × (get_payload f ≡ ok p)
      × (length p < mtu)
      × ((create p >>= serialize) ≡ ok written)
      × (bs ≡ written ++ rest)
unfolding get_payload
escaped_soundness r bs rest f h =
    let (tail, head, collected) = read_inversion r f rest bs h in
    let (q, e, fits, shape) = collected in
    (
      q,
      wire q,
      rw e refl,
      fits,
      serialize-create q fits,
      head ∙ ap (◌∷◌ 0x7E) (shape ∙ sym (append_assoc (escape_all q) (0x7E ∷ []) rest)),
    )
