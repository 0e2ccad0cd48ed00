-- ===== src/Live/Batch/Reading.antt =====
-- The loops of live/codec.ts over the records of an output batch.
use floeterm.Common.{
  ℕ, suc, ◌+◌, ◌-◌, ◌≤◌, ◌<◌, ◌^◌, ◌≡◌, refl, ap, ap₂, ◌∙◌, subst, false, List, ◌++◌, [], ◌∷◌,
  append_assoc, length, length-append, take, drop, ltb, ◌==◌, arith,
}
use floeterm.Common.Fallible.{ok}
use floeterm.Common.Number.{pos}
use floeterm.Live.Bytes.{Bytes, get_uint, get_uint-append, take-append, drop-append}
use floeterm.Live.Fields.{
  big_uint64_lem, positive_uint64_of, layout, get_uint-layout, length-layout, drop-layout,
  layout-append, widths, Fits64,
}
use floeterm.Live.Frame.{max_output_batch_bytes}
use floeterm.Live.Batch.{OutputRecord, write_records, read_records}

-- Records that the encoder accepts and the decoder returns: sequences and timestamps in range, and
-- no empty data.
abbrev pub AreValid : List OutputRecord → Type 0
AreValid [] = Unit
AreValid (r ∷ rs) =
    ((s : ℕ) × (t : ℕ) × (r.sequence ≡ pos s)
      × Fits64 s
      × (r.timestamp_ms ≡ pos t)
      × (t < 2 ^ 64)
      × (0 < length r.bytes))
    × AreValid rs

-- The encoder does not check timestamps.
abbrev pub AreTimed : List OutputRecord → Type 0
AreTimed [] = Unit
AreTimed (r ∷ rs) = ((t : ℕ) × (r.timestamp_ms ≡ pos t) × (t < 2 ^ 64)) × AreTimed rs

abbrev pub data_size : List OutputRecord → ℕ
data_size [] = 0
data_size (r ∷ rs) = length r.bytes + data_size rs

get_uint-behind :
    (pre : Bytes) (i width n : ℕ) (fields : List (ℕ × ℕ)) (rest : Bytes) (k : ℕ)
    → get_uint width (layout fields rest) k ≡ ok n
    → get_uint width (pre ++ layout fields rest) (length pre + k) ≡ ok n
get_uint-behind pre i width n fields rest k h = get_uint-append width k pre (layout fields rest) ∙ h

-- One round, at a record that stands behind a prefix.
read_records_step :
    (pre rest : Bytes) (s t : ℕ) (d : Bytes) (count before : ℕ) {records : List OutputRecord}
    {last : ℕ}
    → Fits64 s
    → t < 2 ^ 64
    → 0 < length d
    → before + length d ≤ max_output_batch_bytes
    → read_records count
        (pre ++ layout ((8, s) ∷ (8, t) ∷ (4, length d) ∷ []) (d ++ rest))
        (length pre + (20 + length d))
        (before + length d)
      ≡ ok (records, last)
    → read_records
        (suc count)
        (pre ++ layout ((8, s) ∷ (8, t) ∷ (4, length d) ∷ []) (d ++ rest))
        (length pre)
        before
      ≡ ok (record { sequence = pos s; timestamp_ms = pos t; bytes = d } ∷ records, last)
unfolding read_records
read_records_step pre rest s t d count before fs ft low room h =
    let fd : length d < 2 ^ 32 = omega arith in
    let fields : List (ℕ × ℕ) = (8, s) ∷ (8, t) ∷ (4, length d) ∷ [] in
    let payload = pre ++ layout fields (d ++ rest) in
    let size : length payload ≡ length pre + (20 + (length d + length rest)) = omega (
      arith,
      length-append pre (layout fields (d ++ rest)),
      length-layout fields (d ++ rest),
      length-append d rest,
    ) in
    let header : ltb (length payload - length pre) 20 ≡ false = ground arith in
    let fits : ltb (length payload - length pre - 20) (length d) ≡ false = ground arith in
    let some_data : (length d == 0) ≡ false = ground arith in
    let within : ltb max_output_batch_bytes (before + length d) ≡ false = ground arith in
    let the_data : take (length d) (drop (length pre + 20) payload) ≡ d =
      rw (drop-append pre (layout fields (d ++ rest)) 20, drop-layout fields (d ++ rest))
        (take-append d rest) in
    rw (
      header,
      get_uint-behind pre 2 4 (length d) fields (d ++ rest) 16
          (get_uint-layout 2 fields (d ++ rest) refl fd),
      some_data,
      fits,
      within,
      get_uint-behind pre 0 8 s fields (d ++ rest) 0
          (get_uint-layout 0 fields (d ++ rest) refl fs.1),
      positive_uint64_of s fs,
      get_uint-behind pre 1 8 t fields (d ++ rest) 8 (get_uint-layout 1 fields (d ++ rest) refl ft),
      h,
      the_data,
    )

record_of :
    (r : OutputRecord) (s t : ℕ)
    → r.sequence ≡ pos s
    → r.timestamp_ms ≡ pos t
    → record { sequence = pos s; timestamp_ms = pos t; bytes = r.bytes } ≡ r
record_of r s t p q = cc

read_records_none :
    (payload : Bytes) (offset before : ℕ)
    → read_records 0 payload offset before ≡ ok ([], offset + 0)
unfolding read_records
read_records_none payload offset before =
    ap (λ n. ok ([], n)) (let e : offset ≡ offset + 0 = omega arith in e)

-- The bytes that the encoder writes for valid records.
abbrev pub bytes_of : (rs : List OutputRecord) → AreValid rs → Bytes
bytes_of [] v = []
bytes_of (r ∷ rs) (v, vs) =
    layout ((8, v.0) ∷ (8, v.1) ∷ (4, length r.bytes) ∷ []) (r.bytes ++ bytes_of rs vs)

pub write_records-eq :
    (rs : List OutputRecord) (v : AreValid rs) → write_records rs ≡ ok (bytes_of rs v)
unfolding write_records
write_records-eq [] v = refl
write_records-eq (r ∷ rs) (v, vs) =
    let number = positive_uint64_of v.0 v.3 in
    rw (v.2, number, write_records-eq rs vs, v.4, big_uint64_lem v.1 v.5)

read_records-bytes_of :
    (rs : List OutputRecord) (v : AreValid rs) (pre : Bytes) (before : ℕ)
    → before + data_size rs ≤ max_output_batch_bytes
    → read_records (length rs) (pre ++ bytes_of rs v) (length pre) before
      ≡ ok (rs, length pre + length (bytes_of rs v))
read_records-bytes_of [] v pre before room = read_records_none (pre ++ []) (length pre) before
read_records-bytes_of (r ∷ rs) (v, vs) pre before room =
    let fields : List (ℕ × ℕ) = (8, v.0) ∷ (8, v.1) ∷ (4, length r.bytes) ∷ [] in
    let rest = bytes_of rs vs in
    let longer = pre ++ layout fields r.bytes in
    let ih = read_records-bytes_of rs vs longer (before + length r.bytes) (omega arith) in
    let same : longer ++ rest ≡ pre ++ layout fields (r.bytes ++ rest) =
      append_assoc pre (layout fields r.bytes) rest
      ∙ ap (◌++◌ pre) (layout-append fields r.bytes rest) in
    let size : length longer ≡ length pre + (20 + length r.bytes) =
      omega (arith, length-append pre (layout fields r.bytes), length-layout fields r.bytes) in
    let total : length longer + length rest
        ≡ length pre + length (layout fields (r.bytes ++ rest)) =
      omega (
        arith,
        length-layout fields (r.bytes ++ rest),
        length-append r.bytes rest,
        length-append pre (layout fields r.bytes),
        length-layout fields r.bytes,
      ) in
    let moved =
      subst
        (λ n.
          read_records (length rs) (pre ++ layout fields (r.bytes ++ rest)) n
            (before + length r.bytes)
          ≡ ok (rs, length longer + length rest))
        size
        (subst
          (λ b.
            read_records (length rs) b (length longer) (before + length r.bytes)
            ≡ ok (rs, length longer + length rest))
          same ih) in
    read_records_step pre rest v.0 v.1 r.bytes (length rs) before v.3 v.5 v.6 (omega arith) moved
    ∙ ap₂ (λ (x : OutputRecord) (n : ℕ). ok (x ∷ rs, n)) (record_of r v.0 v.1 v.2 v.4) total

pub read_records_all :
    (fields : List (ℕ × ℕ)) (rs : List OutputRecord) (v : AreValid rs)
    → data_size rs ≤ max_output_batch_bytes
    → read_records (length rs) (layout fields (bytes_of rs v)) (widths fields) 0
      ≡ ok (rs, widths fields + length (bytes_of rs v))
read_records_all fields rs v room =
    let rest = bytes_of rs v in
    let front : length (layout fields []) ≡ widths fields =
      omega (arith, length-layout fields []) in
    subst (λ n. read_records (length rs) (layout fields rest) n 0 ≡ ok (rs, n + length rest)) front
      (subst
        (λ b.
          read_records (length rs) b (length (layout fields [])) 0
          ≡ ok (rs, length (layout fields []) + length rest))
        (layout-append fields [] rest)
        (read_records-bytes_of rs v (layout fields []) 0 (omega arith)))
