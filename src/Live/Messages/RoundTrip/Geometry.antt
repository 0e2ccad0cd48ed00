-- ===== src/Live/Messages/RoundTrip/Geometry.antt =====
-- Geometry announcements of live/codec.ts.
use floeterm.Common.{ℕ, ◌<◌, ◌^◌, ◌≡◌, refl, ap, ◌∙◌, List, [], ◌∷◌}
use floeterm.Common.Fallible.{ok, >>=-eq-ok}
use floeterm.Common.Number.{pos, whole}
use floeterm.Live.Bytes.{Bytes}
use floeterm.Live.Fields.{
  positive_uint32, positive_uint64, uint64, positive_uint32-eq-ok, positive_uint32_of,
  positive_uint64-eq-ok, positive_uint64_of, uint64-eq-ok, uint64_of, layout, get_uint-layout,
  length-layout, Fits32, Fits64,
}
use floeterm.Live.Frame.{FrameType, frame}
use floeterm.Live.Frame.Written.{Carries, push-frame}
use floeterm.Live.Messages.{GeometryChanged, encode_geometry_changed, decode_geometry_changed}

decode_geometry_changed_lem :
    (g b c r : ℕ)
    → Fits64 g
    → b < 2 ^ 64
    → Fits32 c
    → Fits32 r
    → decode_geometry_changed (record {
      type = FrameType.geometry_changed;
      flags = 0;
      payload = layout ((8, g) ∷ (8, b) ∷ (4, c) ∷ (4, r) ∷ []) [];
    })
      ≡ ok (record {
        generation = pos g;
        output_sequence_boundary = pos b;
        cols = whole c;
        rows = whole r;
      })
unfolding decode_geometry_changed
decode_geometry_changed_lem g b c r fg fb fc fr =
    let fields : List (ℕ × ℕ) = ((8, g) ∷ (8, b) ∷ (4, c) ∷ (4, r) ∷ []) in
    rw (
      length-layout fields [],
      get_uint-layout 0 fields [] refl fg.1,
      get_uint-layout 1 fields [] refl fb,
      get_uint-layout 2 fields [] refl fc.1,
      get_uint-layout 3 fields [] refl fr.1,
      positive_uint64_of g fg,
      uint64_of b fb,
      positive_uint32_of c fc,
      positive_uint32_of r fr,
    )

GeometryChanged-eq :
    (value : GeometryChanged) (g b c r : ℕ)
    → value.generation ≡ pos g
    → value.output_sequence_boundary ≡ pos b
    → value.cols ≡ whole c
    → value.rows ≡ whole r
    → record {
      generation = pos g;
      output_sequence_boundary = pos b;
      cols = whole c;
      rows = whole r;
    }
      ≡ value
GeometryChanged-eq value g b c r pg pb pc pr = cc

encode_geometry_changed-eq-ok :
    (value : GeometryChanged) (bytes : Bytes)
    → encode_geometry_changed value ≡ ok bytes
    → (g : ℕ) × (b : ℕ) × (c : ℕ) × (r : ℕ) × Fits64 g
      × (b < 2 ^ 64)
      × Fits32 c
      × Fits32 r
      × (record {
        generation = pos g;
        output_sequence_boundary = pos b;
        cols = whole c;
        rows = whole r;
      }
          ≡ value)
      × (frame FrameType.geometry_changed (layout ((8, g) ∷ (8, b) ∷ (4, c) ∷ (4, r) ∷ []) [])
          ≡ ok bytes)
unfolding encode_geometry_changed
encode_geometry_changed-eq-ok value bytes h =
    let (g, eg, h1) = >>=-eq-ok (positive_uint64 value.generation) _ h in
    let (b, eb, h2) = >>=-eq-ok (uint64 value.output_sequence_boundary) _ h1 in
    let (c, ec, h3) = >>=-eq-ok (positive_uint32 value.cols) _ h2 in
    let (r, er, h4) = >>=-eq-ok (positive_uint32 value.rows) _ h3 in
    let (pg, fg) = positive_uint64-eq-ok value.generation eg in
    let (pb, fb) = uint64-eq-ok value.output_sequence_boundary eb in
    let (pc, fc) = positive_uint32-eq-ok value.cols ec in
    let (pr, fr) = positive_uint32-eq-ok value.rows er in
    (g, b, c, r, fg, fb, fc, fr, GeometryChanged-eq value g b c r pg pb pc pr, h4)

-- Whatever geometry announcement the encoder accepts, the bytes are one frame for the decoder, and
-- that frame is read back as the same announcement.
pub encode_geometry_changed-decode :
    (value : GeometryChanged) (bytes : Bytes)
    → encode_geometry_changed value ≡ ok bytes
    → Carries decode_geometry_changed bytes value
encode_geometry_changed-decode value bytes h =
    let (g, b, c, r, fg, fb, fc, fr, same, sent) = encode_geometry_changed-eq-ok value bytes h in
    (
      _,
      push-frame FrameType.geometry_changed _ sent,
      decode_geometry_changed_lem g b c r fg fb fc fr ∙ ap ok same,
    )
