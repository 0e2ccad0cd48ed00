-- ===== src/Live/Messages/RoundTrip/Input.antt =====
-- Input frames of live/codec.ts.
use floeterm.Common.{
  ℕ, ◌+◌, ◌-◌, ◌<◌, ◌≡◌, refl, ap, ◌∙◌, subst, true, false, not, [], ◌∷◌, ◌++◌, length, arith, drop,
  ltb, leb, ◌==◌, ◌||◌, ◌≤◌,
}
use floeterm.Common.Fallible.{ok, guard, >>=-eq-ok, guard-eq-ok}
use floeterm.Common.Number.{pos}
use floeterm.Live.Bytes.{Bytes, to_be, drop-length, length-to_be}
use floeterm.Live.Fields.{
  positive_uint64, positive_uint64-eq-ok, positive_uint64_of, get_uint-layout, length-layout,
  Fits64,
}
use floeterm.Live.Frame.{FrameType, frame, max_input_bytes}
use floeterm.Live.Frame.Written.{Carries, push-frame}
use floeterm.Live.Messages.{Input, encode_input, decode_input}

drop_field : (s : ℕ) (d : Bytes) → drop 8 (to_be 8 s ++ d) ≡ d
drop_field s d =
    subst (λ n. drop n (to_be 8 s ++ d) ≡ d) (length-to_be 8 s) (drop-length (to_be 8 s) d)

decode_input_lem :
    (s : ℕ) (d : Bytes)
    → Fits64 s
    → 0 < length d
    → length d ≤ max_input_bytes
    → decode_input (record { type = FrameType.input; flags = 0; payload = to_be 8 s ++ d })
      ≡ ok (record { sequence = pos s; bytes = d })
unfolding decode_input
decode_input_lem s d fs low high =
    let size = length-layout ((8, s) ∷ []) d in
    let long : leb (8 + length d) 8 ≡ false = ground arith in
    let short : ltb max_input_bytes (8 + length d - 8) ≡ false = ground arith in
    rw (
      size,
      long,
      short,
      get_uint-layout 0 ((8, s) ∷ []) d refl fs.1,
      positive_uint64_of s fs,
      drop_field s d,
    )

Input-eq :
    (value : Input) (s : ℕ)
    → value.sequence ≡ pos s
    → record { sequence = pos s; bytes = value.bytes } ≡ value
Input-eq value s p = cc

encode_input-eq-ok :
    (value : Input) (bytes : Bytes)
    → encode_input value ≡ ok bytes
    → (s : ℕ) × Fits64 s
      × (0 < length value.bytes)
      × (length value.bytes ≤ max_input_bytes)
      × (record { sequence = pos s; bytes = value.bytes } ≡ value)
      × (frame FrameType.input (to_be 8 s ++ value.bytes) ≡ ok bytes)
unfolding encode_input
encode_input-eq-ok value bytes h =
    let (s, es, h1) = >>=-eq-ok (positive_uint64 value.sequence) _ h in
    let (u, eu, h2) = >>=-eq-ok (guard _ _) _ h1 in
    let (ps, fs) = positive_uint64-eq-ok value.sequence es in
    let size = guard-eq-ok _ _ eu in (s, fs, low size, high size, Input-eq value s ps, h2)
  where
    low :
        not (length value.bytes == 0 || ltb max_input_bytes (length value.bytes)) ≡ true
        → 0 < length value.bytes
    low e = ground arith

    high :
        not (length value.bytes == 0 || ltb max_input_bytes (length value.bytes)) ≡ true
        → length value.bytes ≤ max_input_bytes
    high e = ground arith

-- Whatever input the encoder accepts, the bytes are one frame for the decoder, and that frame is
-- read back as the same input.
pub encode_input-decode :
    (value : Input) (bytes : Bytes)
    → encode_input value ≡ ok bytes
    → Carries decode_input bytes value
encode_input-decode value bytes h =
    let (s, fs, low, high, same, sent) = encode_input-eq-ok value bytes h in
    (_, push-frame FrameType.input _ sent, decode_input_lem s value.bytes fs low high ∙ ap ok same)
