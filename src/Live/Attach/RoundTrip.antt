-- ===== src/Live/Attach/RoundTrip.antt =====
-- Attach requests of live/codec.ts are read back as they were written.
use floeterm.Common.{
  ℕ, ◌+◌, ◌≤◌, ◌<◌, ◌^◌, ◌≡◌, refl, sym, ap, ◌∙◌, subst, false, List, ◌++◌, [], ◌∷◌, append-nil,
  length, length-append, take, drop, ltb, ◌==◌, arith, ==_self, Option, some,
}
use floeterm.Common.Fallible.{ok, >>=-eq-ok}
use floeterm.Common.Number.{pos, whole}
use floeterm.Live.Bytes.{Bytes, get_uint, get_uint-append, take-append, drop-append}
use floeterm.Live.Fields.{
  positive_uint32, positive_uint64, positive_uint32-eq-ok, positive_uint32_of,
  positive_uint64-eq-ok, positive_uint64_of, layout, get_uint-layout, length-layout, drop-layout,
  layout-append, Fits32, Fits64,
}
use floeterm.Live.Frame.{FrameType, frame, max_identifier_bytes}
use floeterm.Live.Frame.Written.{Carries, push-frame}
use floeterm.Live.Attach.{
  Attach, write_string, encode_attach, decode_utf8, read_string, decode_attach,
}

module _ {Text : Type 0} (encode_text : Text → Bytes) (decode_text : Bytes → Option Text)
    (text_round_trip : (t : Text) → decode_text (encode_text t) ≡ some t) where
  decode_utf8-encode_text : (t : Text) → decode_utf8 decode_text (encode_text t) ≡ ok t
  unfolding decode_utf8
  decode_utf8-encode_text t = rw (text_round_trip t, decode_utf8)

  -- The identifier's bytes behind any prefix, with more behind them.
  read_string_lem :
      (t : Text) (pre rest : Bytes)
      → 0 < length (encode_text t)
      → length (encode_text t) ≤ max_identifier_bytes
      → read_string decode_text
          (pre ++ layout ((2, length (encode_text t)) ∷ []) (encode_text t ++ rest))
          (length pre)
        ≡ ok (t, length pre + (2 + length (encode_text t)))
  unfolding read_string
  read_string_lem t pre rest low high =
      let d = encode_text t in
      let fields : List (ℕ × ℕ) = (2, length d) ∷ [] in
      let payload = pre ++ layout fields (d ++ rest) in
      let size : length payload ≡ length pre + (2 + (length d + length rest)) = omega (
        arith,
        length-append pre (layout fields (d ++ rest)),
        length-layout fields (d ++ rest),
        length-append d rest,
      ) in
      let header : ltb (length payload) (length pre + 2) ≡ false = ground arith in
      let fits : ltb (length payload) (length pre + (2 + length d)) ≡ false = ground arith in
      let some_data : (length d == 0) ≡ false = ground arith in
      let short : ltb max_identifier_bytes (length d) ≡ false = ground arith in
      let field : get_uint 2 payload (length pre + 0) ≡ ok (length d) =
        get_uint-append 2 0 pre (layout fields (d ++ rest))
        ∙ get_uint-layout 0 fields (d ++ rest) refl
            (let b : length d < 256 ^ 2 = omega arith in b) in
      let the_text : take (length d) (drop (length pre + 2) payload) ≡ d =
        rw (drop-append pre (layout fields (d ++ rest)) 2, drop-layout fields (d ++ rest))
          (take-append d rest) in
      rw (header, field, some_data, short, fits, the_text, decode_utf8-encode_text t)

  abbrev IsIdentifier : Text → Type 0
  IsIdentifier t = (0 < length (encode_text t)) × (length (encode_text t) ≤ max_identifier_bytes)

  -- The written identifier: its length and its bytes.
  abbrev written : Text → Bytes
  written t = layout ((2, length (encode_text t)) ∷ []) (encode_text t)

  write_string-eq-ok :
      (t : Text) {b : Bytes} → write_string encode_text t ≡ ok b → IsIdentifier t × (b ≡ written t)
  unfolding write_string
  write_string-eq-ok t {b} h = ground arith

  read_string_at :
      (t : Text) (payload pre rest : Bytes) (offset : ℕ)
      → IsIdentifier t
      → payload ≡ pre ++ (written t ++ rest)
      → length pre ≡ offset
      → read_string decode_text payload offset ≡ ok (t, offset + (2 + length (encode_text t)))
  read_string_at t payload pre rest offset i e l =
      let same : pre ++ layout ((2, length (encode_text t)) ∷ []) (encode_text t ++ rest)
          ≡ payload =
        ap (◌++◌ pre) (sym (layout-append ((2, length (encode_text t)) ∷ []) (encode_text t) rest))
        ∙ sym e in
      subst (λ n. read_string decode_text payload n ≡ ok (t, n + (2 + length (encode_text t)))) l
        (subst
          (λ b.
            read_string decode_text b (length pre)
            ≡ ok (t, length pre + (2 + length (encode_text t))))
          same (read_string_lem t pre rest i.0 i.1))

  decode_attach_lem :
      (g c r : ℕ) (session connection : Text)
      → Fits64 g
      → Fits32 c
      → Fits32 r
      → IsIdentifier session
      → IsIdentifier connection
      → decode_attach decode_text (record {
        type = FrameType.attach;
        flags = 0;
        payload = layout ((8, g) ∷ (4, c) ∷ (4, r) ∷ []) (written session ++ written connection);
      })
        ≡ ok (record {
          attach_generation = pos g;
          cols = whole c;
          rows = whole r;
          session_id = session;
          connection_id = connection;
        })
  unfolding decode_attach
  decode_attach_lem g c r session connection fg fc fr fs fk =
      let fields : List (ℕ × ℕ) = (8, g) ∷ (4, c) ∷ (4, r) ∷ [] in
      let rest = written session ++ written connection in
      let payload = layout fields rest in
      let first = length (encode_text session) in
      let second = length (encode_text connection) in
      let total : length payload ≡ 16 + (2 + first) + (2 + second) = omega (
        arith,
        length-layout fields rest,
        length-append (written session) (written connection),
        length-layout ((2, first) ∷ []) (encode_text session),
        length-layout ((2, second) ∷ []) (encode_text connection),
      ) in
      let header : ltb (16 + (2 + first) + (2 + second)) 22 ≡ false = ground arith in
      let head_parts = layout-append fields [] rest in
      let read_session =
        read_string_at session payload (layout fields []) (written connection) 16 fs
          (sym head_parts) (omega (arith, length-layout fields [])) in
      let read_connection =
        read_string_at connection payload (layout fields (written session)) [] (16 + (2 + first)) fk
          (sym (
            layout-append fields (written session) (written connection ++ [])
            ∙ ap (λ (b : Bytes). layout fields (written session ++ b))
                (append-nil (written connection))))
          (omega (
            arith,
            length-layout fields (written session),
            length-layout ((2, first) ∷ []) (encode_text session),
          )) in
      rw (
        total,
        header,
        get_uint-layout 0 fields rest refl fg.1,
        get_uint-layout 1 fields rest refl fc.1,
        get_uint-layout 2 fields rest refl fr.1,
        positive_uint64_of g fg,
        positive_uint32_of c fc,
        positive_uint32_of r fr,
        read_session,
        read_connection,
        ==_self (16 + (2 + first) + (2 + second)),
      )

  Attach-eq :
      (value : Attach Text) (g c r : ℕ)
      → value.attach_generation ≡ pos g
      → value.cols ≡ whole c
      → value.rows ≡ whole r
      → record {
        attach_generation = pos g;
        cols = whole c;
        rows = whole r;
        session_id = value.session_id;
        connection_id = value.connection_id;
      }
        ≡ value
  Attach-eq value g c r pg pc pr = cc

  -- Whatever attach request the encoder accepts, where decoding undoes encoding of text, the bytes
  -- are one frame for the decoder, and that frame is read back as the same request.
  pub encode_attach-decode :
      (value : Attach Text) (bytes : Bytes)
      → encode_attach encode_text value ≡ ok bytes
      → Carries (decode_attach decode_text) bytes value
  unfolding encode_attach
  encode_attach-decode value bytes h =
      let (g, eg, h1) = >>=-eq-ok (positive_uint64 value.attach_generation) _ h in
      let (c, ec, h2) = >>=-eq-ok (positive_uint32 value.cols) _ h1 in
      let (r, er, h3) = >>=-eq-ok (positive_uint32 value.rows) _ h2 in
      let (s, es, h4) = >>=-eq-ok (write_string encode_text value.session_id) _ h3 in
      let (k, ek, h5) = >>=-eq-ok (write_string encode_text value.connection_id) _ h4 in
      let (pg, fg) = positive_uint64-eq-ok value.attach_generation eg in
      let (pc, fc) = positive_uint32-eq-ok value.cols ec in
      let (pr, fr) = positive_uint32-eq-ok value.rows er in
      let (fs, ps) = write_string-eq-ok value.session_id es in
      let (fk, pk) = write_string-eq-ok value.connection_id ek in
      let fields : List (ℕ × ℕ) = (8, g) ∷ (4, c) ∷ (4, r) ∷ [] in
      (
        _,
        push-frame FrameType.attach
            (layout fields (written value.session_id ++ written value.connection_id))
            (subst
              (λ b.
                frame FrameType.attach (layout fields (written value.session_id ++ b)) ≡ ok bytes)
              pk (subst (λ b. frame FrameType.attach (layout fields (b ++ k)) ≡ ok bytes) ps h5)),
        decode_attach_lem g c r value.session_id value.connection_id fg fc fr fs fk
            ∙ ap ok (Attach-eq value g c r pg pc pr),
      )
