-- ===== src/Live/Messages/RoundTrip/Attached.antt =====
-- Attach acknowledgements of live/codec.ts. The encoder does not check the history boundary.
use floeterm.Common.{ℕ, ◌+◌, ◌<◌, ◌^◌, ◌≡◌, refl, ap, ◌∙◌, subst, false, List, [], ◌∷◌, arith}
use floeterm.Common.Fallible.{ok, guard, >>=-eq-ok, guard-not-eq-ok}
use floeterm.Common.Number.{pos, whole}
use floeterm.Live.Failure.{history_start_exceeds}
use floeterm.Live.Bytes.{Bytes}
use floeterm.Live.Fields.{
  positive_uint32, positive_uint64, positive_uint32-eq-ok, positive_uint32_of,
  positive_uint64-eq-ok, positive_uint64_of, layout, get_uint-layout, length-layout, Fits32, Fits64,
  big_uint64, big_uint64_lem,
}
use floeterm.Live.Frame.{FrameType, frame}
use floeterm.Live.Frame.Written.{Carries, push-frame}
use floeterm.Live.Messages.{Attached, encode_attached, decode_attached, exceeds_next}

abbrev attached_of : (b hg hs gg c r : ℕ) → Attached
attached_of b hg hs gg c r = record {
  history_boundary_sequence = pos b;
  history_generation = pos hg;
  history_start_sequence = pos hs;
  geometry_generation = pos gg;
  cols = whole c;
  rows = whole r;
}

abbrev fields_of : (b hg hs gg c r : ℕ) → List (ℕ × ℕ)
fields_of b hg hs gg c r = (8, b) ∷ (8, hg) ∷ (8, hs) ∷ (8, gg) ∷ (4, c) ∷ (4, r) ∷ []

decode_attached_lem :
    (b hg hs gg c r : ℕ)
    → b < 2 ^ 64
    → Fits64 hg
    → Fits64 hs
    → Fits64 gg
    → Fits32 c
    → Fits32 r
    → exceeds_next hs (pos b) ≡ false
    → decode_attached (record {
      type = FrameType.attached;
      flags = 0;
      payload = layout (fields_of b hg hs gg c r) [];
    })
      ≡ ok (attached_of b hg hs gg c r)
unfolding decode_attached
decode_attached_lem b hg hs gg c r fb fhg fhs fgg fc fr near =
    let fields = fields_of b hg hs gg c r in
    rw (
      length-layout fields [],
      get_uint-layout 0 fields [] refl fb,
      get_uint-layout 1 fields [] refl fhg.1,
      get_uint-layout 2 fields [] refl fhs.1,
      get_uint-layout 3 fields [] refl fgg.1,
      get_uint-layout 4 fields [] refl fc.1,
      get_uint-layout 5 fields [] refl fr.1,
      positive_uint64_of hg fhg,
      positive_uint64_of hs fhs,
      positive_uint64_of gg fgg,
      positive_uint32_of c fc,
      positive_uint32_of r fr,
      near,
    )

Attached-eq :
    (value : Attached) (b hg hs gg c r : ℕ)
    → value.history_boundary_sequence ≡ pos b
    → value.history_generation ≡ pos hg
    → value.history_start_sequence ≡ pos hs
    → value.geometry_generation ≡ pos gg
    → value.cols ≡ whole c
    → value.rows ≡ whole r
    → attached_of b hg hs gg c r ≡ value
Attached-eq value b hg hs gg c r pb phg phs pgg pc pr = cc

encode_attached-eq-ok :
    (value : Attached) (b : ℕ) (bytes : Bytes)
    → value.history_boundary_sequence ≡ pos b
    → encode_attached value ≡ ok bytes
    → (hg : ℕ) × (hs : ℕ) × (gg : ℕ) × (c : ℕ) × (r : ℕ) × Fits64 hg
      × Fits64 hs
      × Fits64 gg
      × Fits32 c
      × Fits32 r
      × (exceeds_next hs (pos b) ≡ false)
      × (attached_of b hg hs gg c r ≡ value)
      × (frame FrameType.attached (layout (fields_of (big_uint64 (pos b)) hg hs gg c r) [])
          ≡ ok bytes)
unfolding encode_attached
encode_attached-eq-ok value b bytes pb h =
    let (hg, ehg, h1) = >>=-eq-ok (positive_uint64 value.history_generation) _ h in
    let (hs, ehs, h2) = >>=-eq-ok (positive_uint64 value.history_start_sequence) _ h1 in
    let (gg, egg, h3) = >>=-eq-ok (positive_uint64 value.geometry_generation) _ h2 in
    let (c, ec, h4) = >>=-eq-ok (positive_uint32 value.cols) _ h3 in
    let (r, er, h5) = >>=-eq-ok (positive_uint32 value.rows) _ h4 in
    let (u, eu, h6) = >>=-eq-ok (guard _ _) _ h5 in
    let (phg, fhg) = positive_uint64-eq-ok value.history_generation ehg in
    let (phs, fhs) = positive_uint64-eq-ok value.history_start_sequence ehs in
    let (pgg, fgg) = positive_uint64-eq-ok value.geometry_generation egg in
    let (pc, fc) = positive_uint32-eq-ok value.cols ec in
    let (pr, fr) = positive_uint32-eq-ok value.rows er in
    (
      hg,
      hs,
      gg,
      c,
      r,
      fhg,
      fhs,
      fgg,
      fc,
      fr,
      subst (λ z. exceeds_next hs z ≡ false) pb (guard-not-eq-ok _ history_start_exceeds eu),
      Attached-eq value b hg hs gg c r pb phg phs pgg pc pr,
      subst
          (λ z.
            frame FrameType.attached (layout (fields_of (big_uint64 z) hg hs gg c r) []) ≡ ok bytes)
          pb h6,
    )

-- Whatever acknowledgement the encoder accepts, if its history boundary fits in 64 bits, the bytes
-- are one frame for the decoder, and that frame is read back as the same acknowledgement.
pub encode_attached-decode :
    (value : Attached) (b : ℕ) (bytes : Bytes)
    → value.history_boundary_sequence ≡ pos b
    → b < 2 ^ 64
    → encode_attached value ≡ ok bytes
    → Carries decode_attached bytes value
encode_attached-decode value b bytes pb fb h =
    let (hg, hs, gg, c, r, fhg, fhs, fgg, fc, fr, near, same, sent) =
      encode_attached-eq-ok value b bytes pb h in
    (
      _,
      push-frame FrameType.attached (layout (fields_of b hg hs gg c r) []) (
          subst (λ n. frame FrameType.attached (layout (fields_of n hg hs gg c r) []) ≡ ok bytes)
            (big_uint64_lem b fb) sent),
      decode_attached_lem b hg hs gg c r fb fhg fhs fgg fc fr near ∙ ap ok same,
    )

big_uint64_wraps : (b : ℕ) → big_uint64 (pos (b + 2 ^ 64)) ≡ big_uint64 (pos b)
unfolding big_uint64
big_uint64_wraps b = omega arith

exceeds_next_mono :
    (hs b k : ℕ) → exceeds_next hs (pos b) ≡ false → exceeds_next hs (pos (b + k)) ≡ false
unfolding exceeds_next
exceeds_next_mono hs b k h = ground arith

-- The encoder accepts a history boundary that does not fit in 64 bits and writes it modulo 2 ^ 64:
-- an accepted acknowledgement and the one with its boundary raised by 2 ^ 64 have the same bytes.
pub encode_attached_wraps :
    (value : Attached) (b : ℕ) (bytes : Bytes)
    → value.history_boundary_sequence ≡ pos b
    → encode_attached value ≡ ok bytes
    → encode_attached (record value { history_boundary_sequence = pos (b + 2 ^ 64) }) ≡ ok bytes
unfolding encode_attached
encode_attached_wraps value b bytes pb h =
    let (hg, hs, gg, c, r, fhg, fhs, fgg, fc, fr, near, same, sent) =
      encode_attached-eq-ok value b bytes pb h in
    subst
      (λ (v : Attached).
        encode_attached (record v { history_boundary_sequence = pos (b + 2 ^ 64) }) ≡ ok bytes)
      same
      (rw
        (
          positive_uint64_of hg fhg,
          positive_uint64_of hs fhs,
          positive_uint64_of gg fgg,
          positive_uint32_of c fc,
          positive_uint32_of r fr,
          exceeds_next_mono hs b (2 ^ 64) near,
          big_uint64_wraps b,
        )
        sent)
