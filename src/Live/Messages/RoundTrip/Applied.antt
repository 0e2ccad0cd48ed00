-- ===== src/Live/Messages/RoundTrip/Applied.antt =====
-- Acknowledged resizes of live/codec.ts.
use floeterm.Common.{ℕ, ◌<◌, ◌^◌, ◌≡◌, refl, ap, ◌∙◌, List, [], ◌∷◌}
use floeterm.Common.Fallible.{ok, >>=-eq-ok}
use floeterm.Common.Number.{pos, whole}
use floeterm.Live.Bytes.{Bytes}
use floeterm.Live.Fields.{
  positive_uint32, positive_uint64, uint64, positive_uint32-eq-ok, positive_uint32_of,
  positive_uint64-eq-ok, positive_uint64_of, uint64-eq-ok, uint64_of, layout, get_uint-layout,
  length-layout, Fits32, Fits64,
}
use floeterm.Live.Frame.{FrameType, frame}
use floeterm.Live.Frame.Written.{Carries, push-frame}
use floeterm.Live.Messages.{ResizeApplied, encode_resize_applied, decode_resize_applied}

decode_resize_applied_lem :
    (s g b c r : ℕ)
    → Fits64 s
    → Fits64 g
    → b < 2 ^ 64
    → Fits32 c
    → Fits32 r
    → decode_resize_applied (record {
      type = FrameType.resize_applied;
      flags = 0;
      payload = layout ((8, s) ∷ (8, g) ∷ (8, b) ∷ (4, c) ∷ (4, r) ∷ []) [];
    })
      ≡ ok (record {
        sequence = pos s;
        geometry_generation = pos g;
        output_sequence_boundary = pos b;
        cols = whole c;
        rows = whole r;
      })
unfolding decode_resize_applied
decode_resize_applied_lem s g b c r fs fg fb fc fr =
    let fields : List (ℕ × ℕ) = ((8, s) ∷ (8, g) ∷ (8, b) ∷ (4, c) ∷ (4, r) ∷ []) in
    rw (
      length-layout fields [],
      get_uint-layout 0 fields [] refl fs.1,
      get_uint-layout 1 fields [] refl fg.1,
      get_uint-layout 2 fields [] refl fb,
      get_uint-layout 3 fields [] refl fc.1,
      get_uint-layout 4 fields [] refl fr.1,
      positive_uint64_of s fs,
      positive_uint64_of g fg,
      uint64_of b fb,
      positive_uint32_of c fc,
      positive_uint32_of r fr,
    )

ResizeApplied-eq :
    (value : ResizeApplied) (s g b c r : ℕ)
    → value.sequence ≡ pos s
    → value.geometry_generation ≡ pos g
    → value.output_sequence_boundary ≡ pos b
    → value.cols ≡ whole c
    → value.rows ≡ whole r
    → record {
      sequence = pos s;
      geometry_generation = pos g;
      output_sequence_boundary = pos b;
      cols = whole c;
      rows = whole r;
    }
      ≡ value
ResizeApplied-eq value s g b c r ps pg pb pc pr = cc

encode_resize_applied-eq-ok :
    (value : ResizeApplied) (bytes : Bytes)
    → encode_resize_applied value ≡ ok bytes
    → (s : ℕ) × (g : ℕ) × (b : ℕ) × (c : ℕ) × (r : ℕ) × Fits64 s
      × Fits64 g
      × (b < 2 ^ 64)
      × Fits32 c
      × Fits32 r
      × (record {
        sequence = pos s;
        geometry_generation = pos g;
        output_sequence_boundary = pos b;
        cols = whole c;
        rows = whole r;
      }
          ≡ value)
      × (frame FrameType.resize_applied
            (layout ((8, s) ∷ (8, g) ∷ (8, b) ∷ (4, c) ∷ (4, r) ∷ []) [])
          ≡ ok bytes)
unfolding encode_resize_applied
encode_resize_applied-eq-ok value bytes h =
    let (s, es, h1) = >>=-eq-ok (positive_uint64 value.sequence) _ h in
    let (g, eg, h2) = >>=-eq-ok (positive_uint64 value.geometry_generation) _ h1 in
    let (b, eb, h3) = >>=-eq-ok (uint64 value.output_sequence_boundary) _ h2 in
    let (c, ec, h4) = >>=-eq-ok (positive_uint32 value.cols) _ h3 in
    let (r, er, h5) = >>=-eq-ok (positive_uint32 value.rows) _ h4 in
    let (ps, fs) = positive_uint64-eq-ok value.sequence es in
    let (pg, fg) = positive_uint64-eq-ok value.geometry_generation eg in
    let (pb, fb) = uint64-eq-ok value.output_sequence_boundary eb in
    let (pc, fc) = positive_uint32-eq-ok value.cols ec in
    let (pr, fr) = positive_uint32-eq-ok value.rows er in
    (s, g, b, c, r, fs, fg, fb, fc, fr, ResizeApplied-eq value s g b c r ps pg pb pc pr, h5)

-- Whatever resize acknowledgement the encoder accepts, the bytes are one frame for the decoder, and
-- that frame is read back as the same acknowledgement.
pub encode_resize_applied-decode :
    (value : ResizeApplied) (bytes : Bytes)
    → encode_resize_applied value ≡ ok bytes
    → Carries decode_resize_applied bytes value
encode_resize_applied-decode value bytes h =
    let (s, g, b, c, r, fs, fg, fb, fc, fr, same, sent) =
      encode_resize_applied-eq-ok value bytes h in
    (
      _,
      push-frame FrameType.resize_applied _ sent,
      decode_resize_applied_lem s g b c r fs fg fb fc fr ∙ ap ok same,
    )
