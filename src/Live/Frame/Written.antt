-- ===== src/Live/Frame/Written.antt =====
-- What `frame` of live/codec.ts writes, the decoder reads back.
use floeterm.Common.{
  ◌≤◌, ◌≡◌, refl, subst, false, List, [], ◌∷◌, ◌++◌, length, ltb, some, arith, append-nil,
  length-append, inl, inr, Bool-cases,
}
use floeterm.Common.Fallible.{Result, ok, ◌>>=◌, >>=-eq-ok}
use floeterm.Live.Failure.{Failure, Outcome}
use floeterm.Live.Bytes.{Bytes, to_be, from_be, from_be-to_be, take-append, drop-length}
use floeterm.Live.Frame.{
  Frame, FrameType, attach, type_byte, frame_type_of, frame, next_frame, push,
  max_frame_payload_bytes,
}
use floeterm.Live.Frame.Parses.{Parses, done, more, next_frame-empty, Parses-push}
use floeterm.Live.Frame.Stream.{feed, joined, feed-Parses}

frame_type_of-type_byte : (t : FrameType) → frame_type_of (type_byte t) ≡ some t
unfolding frame_type_of
frame_type_of-type_byte attach = refl
frame_type_of-type_byte _ = refl

zeros : from_be 0 (0 ∷ 0 ∷ []) ≡ 0
unfolding from_be
zeros = refl

next_frame_lem :
    (t : FrameType) (p rest : Bytes)
    → length p ≤ max_frame_payload_bytes
    → next_frame (((type_byte t) ∷ 0 ∷ 0 ∷ 0 ∷ (to_be 4 (length p) ++ p)) ++ rest)
      ≡ ok (some (record { type = t; flags = 0; payload = p }, rest))
unfolding next_frame to_be
next_frame_lem t p rest h =
    let size = from_be-to_be 4 (length p) (omega arith) in
    let small : ltb max_frame_payload_bytes (length p) ≡ false = ground arith in
    let complete : ltb (length (p ++ rest)) (length p) ≡ false =
      ground (arith, length-append p rest) in
    rw (frame_type_of-type_byte t, next_frame)
      (rw (zeros, size, small, complete, take-append p rest, drop-length p rest))

-- What `frame` writes is read back, whatever follows.
pub next_frame-frame :
    (t : FrameType) (p rest : Bytes) {bytes : Bytes}
    → frame t p ≡ ok bytes
    → next_frame (bytes ++ rest) ≡ ok (some (record { type = t; flags = 0; payload = p }, rest))
unfolding frame
next_frame-frame t p rest {bytes} h = elim (Bool-cases (ltb max_frame_payload_bytes (length p))) [
  | inl e ↦ let large = rw (e, frame) at h in cc
  | inr e ↦
      let written = rw (e, frame) at h in
      let same : ((type_byte t) ∷ 0 ∷ 0 ∷ 0 ∷ (to_be 4 (length p) ++ p)) ≡ bytes = cc in
      subst
        (λ b.
          next_frame (b ++ rest) ≡ ok (some (record { type = t; flags = 0; payload = p }, rest)))
        same (next_frame_lem t p rest (ground arith))
]

-- Messages as they are sent: a type and a payload each.
abbrev pub encode_all : List (FrameType × Bytes) → Outcome Bytes
encode_all [] = ok []
encode_all ((t, p) ∷ ms) = do first ← frame t p; others ← encode_all ms; ok (first ++ others)

abbrev pub frames_of : List (FrameType × Bytes) → List Frame
frames_of [] = []
frames_of ((t, p) ∷ ms) = record { type = t; flags = 0; payload = p } ∷ frames_of ms

encode_all-Parses :
    (ms : List (FrameType × Bytes)) (bytes : Bytes)
    → encode_all ms ≡ ok bytes
    → Parses bytes (frames_of ms) []
encode_all-Parses [] bytes h =
    let empty : [] ≡ bytes = cc in
    subst (λ b. Parses b [] []) empty (done (next_frame-empty [] (omega arith)) refl)
encode_all-Parses ((t, p) ∷ ms) bytes h =
    let (first, written, h1) = >>=-eq-ok (frame t p) _ h in
    let (others, rest, h2) = >>=-eq-ok (encode_all ms) _ h1 in
    let whole : first ++ others ≡ bytes = cc in
    subst (λ b. Parses b (frames_of ((t, p) ∷ ms)) []) whole
      (more (next_frame-frame t p others written) (encode_all-Parses ms others rest))

-- Any sequence of messages that can be written, cut into chunks anywhere, also inside a header:
-- the decoder returns exactly these messages, in order, and no byte is left over.
pub feed-encode_all :
    (messages : List (FrameType × Bytes)) (chunks : List Bytes)
    → encode_all messages ≡ ok (joined chunks)
    → feed [] chunks ≡ ok (frames_of messages, [])
feed-encode_all messages chunks h =
    feed-Parses [] chunks (frames_of messages) [] (next_frame-empty [] (omega arith))
      (encode_all-Parses messages (joined chunks) h)

-- A frame that is pushed whole is decoded at once.
pub push-frame :
    (t : FrameType) (p : Bytes) {bytes : Bytes}
    → frame t p ≡ ok bytes
    → push [] bytes ≡ (ok (record { type = t; flags = 0; payload = p } ∷ []), [])
push-frame t p {bytes} h = Parses-push [] bytes (
    more
      (subst (λ b. next_frame b ≡ ok (some (record { type = t; flags = 0; payload = p }, [])))
        (append-nil bytes) (next_frame-frame t p [] h))
      (done (next_frame-empty [] (omega arith)) refl))

-- The bytes are one frame for the decoder, and the frame is read as the message.
abbrev pub Carries {ℓ} : {A : Type ℓ} → (Frame → Result Failure A) → Bytes → A → Type ℓ
Carries decode bytes value =
    (f : Frame) × (push [] bytes ≡ (ok (f ∷ []), [])) × (decode f ≡ ok value)
