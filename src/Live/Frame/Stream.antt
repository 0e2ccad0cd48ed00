-- ===== src/Live/Frame/Stream.antt =====
-- However the stream is cut into chunks, the decoder of live/codec.ts finds the same frames.
use floeterm.Common.{
  ◌≡◌, sym, ap₂, subst, List, [], ◌∷◌, ◌++◌, length, none, arith, append_assoc, append-nil,
}
use floeterm.Common.Fallible.{ok, ◌>>=◌}
use floeterm.Live.Failure.{Outcome}
use floeterm.Live.Bytes.{Bytes}
use floeterm.Live.Frame.{Frame, next_frame, push}
use floeterm.Live.Frame.Parses.{
  Parses, next_frame-empty, Parses-none, Parses-Split, Parses-drained, Parses-push, push-Parses,
}

-- Chunks pushed one after another, up to the first push that throws.
abbrev pub feed : Bytes → List Bytes → Outcome (List Frame × Bytes)
feed buffer [] = ok ([], buffer)
feed buffer (c ∷ cs) = do
  frames ← (push buffer c).0
  (later, last) ← feed (push buffer c).1 cs
  ok (frames ++ later, last)

abbrev pub joined : List Bytes → Bytes
joined [] = []
joined (c ∷ cs) = c ++ joined cs

pub feed-Parses :
    (b : Bytes) (cs : List Bytes) (hs : List Frame) (s : Bytes)
    → next_frame b ≡ ok none
    → Parses (b ++ joined cs) hs s
    → feed b cs ≡ ok (hs, s)
feed-Parses b [] hs s d p =
    let (nothing, same) = Parses-none (subst (λ x. Parses x hs s) (append-nil b) p) d in
    ap₂ (λ (x : List Frame) (y : Bytes). ok (x, y)) (sym nothing) same
feed-Parses b (c ∷ cs) hs s d p =
    let (fs, r, gs, here, there, cut) =
      Parses-Split (length (b ++ c)) (b ++ c) (joined cs) hs s (omega arith)
        (subst (λ x. Parses x hs s) (sym (append_assoc b c (joined cs))) p) in
    rw (Parses-push b c here, feed-Parses r cs gs s (Parses-drained here) there, cut)

-- If a decoder with no bytes buffered decodes a whole stream that is pushed at once, then it finds
-- the same frames, and is left with the same bytes, however the stream is cut into chunks.
pub feed-eq-push :
    (chunks : List Bytes) (frames : List Frame) (rest : Bytes)
    → push [] (joined chunks) ≡ (ok frames, rest)
    → feed [] chunks ≡ ok (frames, rest)
feed-eq-push chunks frames rest h =
    feed-Parses [] chunks frames rest (next_frame-empty [] (omega arith))
      (push-Parses [] (joined chunks) h)
