-- ===== src/Live/Batch/RoundTrip.antt =====
-- Output batches of live/codec.ts are read back as they were written.
use floeterm.Common.{
  ℕ, ◌+◌, ◌≤◌, ◌<◌, ◌^◌, ◌≡◌, refl, sym, ap, ◌∙◌, subst, false, not, ◌||◌, List, [], ◌∷◌, length,
  ltb, ◌==◌, arith, ==_self,
}
use floeterm.Common.Fallible.{ok, guard, >>=-eq-ok, guard-not-eq-ok}
use floeterm.Common.Number.{pos, whole}
use floeterm.Live.Failure.{output_data, record_count, batch_too_large}
use floeterm.Live.Bytes.{Bytes}
use floeterm.Live.Fields.{
  positive_uint32, positive_uint64, positive_uint32-eq-ok, positive_uint32_of,
  positive_uint64-eq-ok, positive_uint64_of, layout, get_uint-layout, length-layout, Fits32, Fits64,
}
use floeterm.Live.Frame.{FrameType, frame, max_output_batch_bytes, max_output_batch_chunks}
use floeterm.Live.Frame.Written.{Carries, push-frame}
use floeterm.Live.Batch.{
  OutputRecord, OutputBatch, check_records, read_records, encode_output_batch, decode_output_batch,
}
use floeterm.Live.Batch.Reading.{
  AreValid, AreTimed, data_size, bytes_of, write_records-eq, read_records_all,
}

check_records-eq-ok :
    (rs : List OutputRecord) {n : ℕ}
    → AreTimed rs
    → check_records rs ≡ ok n
    → AreValid rs × (n ≡ data_size rs)
unfolding check_records
check_records-eq-ok [] {n} t h = (tt, cc)
check_records-eq-ok (r ∷ rs) {n} t h =
    let (s, es, h1) = >>=-eq-ok (positive_uint64 r.sequence) _ h in
    let (u, eu, h2) = >>=-eq-ok (guard (not (length r.bytes == 0)) output_data) _ h1 in
    let (m, em, h3) = >>=-eq-ok (check_records rs) _ h2 in
    let (ps, fs) = positive_uint64-eq-ok r.sequence es in
    let (vs, size) = check_records-eq-ok rs t.1 em in
    let full = guard-not-eq-ok _ output_data eu in
    let sum : length r.bytes + m ≡ n = cc in
    (
      ((s, t.0.0, ps, fs, t.0.1, t.0.2, nonempty full), vs),
      sym sum ∙ ap (λ (k : ℕ). length r.bytes + k) size,
    )
  where
    nonempty : (length r.bytes == 0) ≡ false → 0 < length r.bytes
    nonempty e = ground arith

decode_output_batch_lem :
    (g c r : ℕ) (rs : List OutputRecord) (v : AreValid rs)
    → Fits64 g
    → Fits32 c
    → Fits32 r
    → 0 < length rs
    → length rs ≤ max_output_batch_chunks
    → data_size rs ≤ max_output_batch_bytes
    → decode_output_batch (record {
      type = FrameType.output_batch;
      flags = 0;
      payload = layout ((8, g) ∷ (4, c) ∷ (4, r) ∷ (2, length rs) ∷ []) (bytes_of rs v);
    })
      ≡ ok (record { geometry_generation = pos g; cols = whole c; rows = whole r; records = rs })
unfolding decode_output_batch
decode_output_batch_lem g c r rs v fg fc fr low high room =
    let fields : List (ℕ × ℕ) = (8, g) ∷ (4, c) ∷ (4, r) ∷ (2, length rs) ∷ [] in
    let rest = bytes_of rs v in
    let header : ltb (18 + length rest) 18 ≡ false = ground arith in
    let some_records : (length rs == 0) ≡ false = ground arith in
    let few : ltb max_output_batch_chunks (length rs) ≡ false = ground arith in
    let read : read_records (length rs) (layout fields rest) 18 0 ≡ ok (rs, 18 + length rest) =
      read_records_all fields rs v room in
    rw (
      get_uint-layout 0 fields rest refl fg.1,
      get_uint-layout 1 fields rest refl fc.1,
      get_uint-layout 2 fields rest refl fr.1,
      get_uint-layout 3 fields rest refl (let b : length rs < 256 ^ 2 = omega arith in b),
      read,
      length-layout fields rest,
      header,
      positive_uint64_of g fg,
      positive_uint32_of c fc,
      positive_uint32_of r fr,
      some_records,
      few,
      ==_self (18 + length rest),
    )

OutputBatch-eq :
    (value : OutputBatch) (g c r : ℕ)
    → value.geometry_generation ≡ pos g
    → value.cols ≡ whole c
    → value.rows ≡ whole r
    → record {
      geometry_generation = pos g;
      cols = whole c;
      rows = whole r;
      records = value.records;
    }
      ≡ value
OutputBatch-eq value g c r pg pc pr = cc

encode_output_batch-eq-ok :
    (value : OutputBatch) (bytes : Bytes)
    → AreTimed value.records
    → encode_output_batch value ≡ ok bytes
    → (g : ℕ) × (c : ℕ) × (r : ℕ) × (v : AreValid value.records) × Fits64 g
      × Fits32 c
      × Fits32 r
      × (0 < length value.records)
      × (length value.records ≤ max_output_batch_chunks)
      × (data_size value.records ≤ max_output_batch_bytes)
      × (record {
        geometry_generation = pos g;
        cols = whole c;
        rows = whole r;
        records = value.records;
      }
          ≡ value)
      × (frame FrameType.output_batch (
            layout
              ((8, g) ∷ (4, c) ∷ (4, r) ∷ (2, length value.records) ∷ [])
              (bytes_of value.records v))
          ≡ ok bytes)
unfolding encode_output_batch
encode_output_batch-eq-ok value bytes t h =
    let (g, eg, h1) = >>=-eq-ok (positive_uint64 value.geometry_generation) _ h in
    let (c, ec, h2) = >>=-eq-ok (positive_uint32 value.cols) _ h1 in
    let (r, er, h3) = >>=-eq-ok (positive_uint32 value.rows) _ h2 in
    let (u, eu, h4) =
      >>=-eq-ok
        (guard
          (not (length value.records == 0 || ltb max_output_batch_chunks (length value.records)))
          record_count)
        _ h3 in
    let (n, en, h5) = >>=-eq-ok (check_records value.records) _ h4 in
    let (w, ew, h6) = >>=-eq-ok (guard (not (ltb max_output_batch_bytes n)) batch_too_large) _ h5 in
    let (pg, fg) = positive_uint64-eq-ok value.geometry_generation eg in
    let (pc, fc) = positive_uint32-eq-ok value.cols ec in
    let (pr, fr) = positive_uint32-eq-ok value.rows er in
    let (v, size) = check_records-eq-ok value.records t en in
    let count = guard-not-eq-ok _ record_count eu in
    let room = guard-not-eq-ok _ batch_too_large ew in
    (
      g,
      c,
      r,
      v,
      fg,
      fc,
      fr,
      some_records count,
      few_records count,
      subst (λ k. k ≤ max_output_batch_bytes) size (small n room),
      OutputBatch-eq value g c r pg pc pr,
      rw (write_records-eq value.records v) at h6,
    )
  where
    some_records :
        (length value.records == 0 || ltb max_output_batch_chunks (length value.records)) ≡ false
        → 0 < length value.records
    some_records e = ground arith

    few_records :
        (length value.records == 0 || ltb max_output_batch_chunks (length value.records)) ≡ false
        → length value.records ≤ max_output_batch_chunks
    few_records e = ground arith

    small : (n : ℕ) → ltb max_output_batch_bytes n ≡ false → n ≤ max_output_batch_bytes
    small n e = ground arith

-- Whatever output batch the encoder accepts, if its timestamps fit in 64 bits, the bytes are one
-- frame for the decoder, and that frame is read back as the same batch, record for record.
pub encode_output_batch-decode :
    (value : OutputBatch) (bytes : Bytes)
    → AreTimed value.records
    → encode_output_batch value ≡ ok bytes
    → Carries decode_output_batch bytes value
encode_output_batch-decode value bytes t h =
    let (g, c, r, v, fg, fc, fr, low, high, room, same, sent) =
      encode_output_batch-eq-ok value bytes t h in
    (
      _,
      push-frame FrameType.output_batch _ sent,
      decode_output_batch_lem g c r value.records v fg fc fr low high room ∙ ap ok same,
    )
