-- ===== src/Live/Messages/RoundTrip/Resize.antt =====
-- Resize requests of live/codec.ts.
use floeterm.Common.{ℕ, ◌≡◌, refl, ap, ◌∙◌, List, [], ◌∷◌}
use floeterm.Common.Fallible.{ok, >>=-eq-ok}
use floeterm.Common.Number.{pos, whole}
use floeterm.Live.Bytes.{Bytes}
use floeterm.Live.Fields.{
  positive_uint32, positive_uint64, positive_uint32-eq-ok, positive_uint32_of,
  positive_uint64-eq-ok, positive_uint64_of, layout, get_uint-layout, length-layout, Fits32, Fits64,
}
use floeterm.Live.Frame.{FrameType, frame}
use floeterm.Live.Frame.Written.{Carries, push-frame}
use floeterm.Live.Messages.{Resize, encode_resize, decode_resize}

decode_resize_lem :
    (s c r : ℕ)
    → Fits64 s
    → Fits32 c
    → Fits32 r
    → decode_resize (record {
      type = FrameType.resize;
      flags = 0;
      payload = layout ((8, s) ∷ (4, c) ∷ (4, r) ∷ []) [];
    })
      ≡ ok (record { sequence = pos s; cols = whole c; rows = whole r })
unfolding decode_resize
decode_resize_lem s c r fs fc fr =
    let fields : List (ℕ × ℕ) = ((8, s) ∷ (4, c) ∷ (4, r) ∷ []) in
    rw (
      length-layout fields [],
      get_uint-layout 0 fields [] refl fs.1,
      get_uint-layout 1 fields [] refl fc.1,
      get_uint-layout 2 fields [] refl fr.1,
      positive_uint64_of s fs,
      positive_uint32_of c fc,
      positive_uint32_of r fr,
    )

Resize-eq :
    (value : Resize) (s c r : ℕ)
    → value.sequence ≡ pos s
    → value.cols ≡ whole c
    → value.rows ≡ whole r
    → record { sequence = pos s; cols = whole c; rows = whole r } ≡ value
Resize-eq value s c r ps pc pr = cc

encode_resize-eq-ok :
    (value : Resize) (bytes : Bytes)
    → encode_resize value ≡ ok bytes
    → (s : ℕ) × (c : ℕ) × (r : ℕ) × Fits64 s
      × Fits32 c
      × Fits32 r
      × (record { sequence = pos s; cols = whole c; rows = whole r } ≡ value)
      × (frame FrameType.resize (layout ((8, s) ∷ (4, c) ∷ (4, r) ∷ []) []) ≡ ok bytes)
unfolding encode_resize
encode_resize-eq-ok value bytes h =
    let (s, es, h1) = >>=-eq-ok (positive_uint64 value.sequence) _ h in
    let (c, ec, h2) = >>=-eq-ok (positive_uint32 value.cols) _ h1 in
    let (r, er, h3) = >>=-eq-ok (positive_uint32 value.rows) _ h2 in
    let (ps, fs) = positive_uint64-eq-ok value.sequence es in
    let (pc, fc) = positive_uint32-eq-ok value.cols ec in
    let (pr, fr) = positive_uint32-eq-ok value.rows er in
    (s, c, r, fs, fc, fr, Resize-eq value s c r ps pc pr, h3)

-- Whatever resize request the encoder accepts, the bytes are one frame for the decoder, and that
-- frame is read back as the same request.
pub encode_resize-decode :
    (value : Resize) (bytes : Bytes)
    → encode_resize value ≡ ok bytes
    → Carries decode_resize bytes value
encode_resize-decode value bytes h =
    let (s, c, r, fs, fc, fr, same, sent) = encode_resize-eq-ok value bytes h in
    (_, push-frame FrameType.resize _ sent, decode_resize_lem s c r fs fc fr ∙ ap ok same)
