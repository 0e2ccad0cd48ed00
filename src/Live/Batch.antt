-- ===== src/Live/Batch.antt =====
-- Output batches of live/codec.ts.
pub mod Reading
pub mod RoundTrip
use floeterm.Common.{
  ℕ, zero, suc, ◌+◌, ◌-◌, Bool, not, ◌||◌, List, ◌++◌, [], ◌∷◌, length, take, drop, ltb, leb, ◌==◌,
  if◌then◌else◌,
}
use floeterm.Common.Fallible.{Result, ok, err, ◌>>=◌, ◌>>◌, guard}
use floeterm.Common.Number.{ℤ, pos, Number, whole}
use floeterm.Live.Failure.{
  Failure, Outcome, record_count, output_data, batch_too_large, output_payload,
}
use floeterm.Live.Bytes.{Bytes, to_be, get_uint}
use floeterm.Live.Fields.{positive_uint32, positive_uint64, big_uint64}
use floeterm.Live.Frame.{Frame, FrameType, frame, max_output_batch_bytes, max_output_batch_chunks}
use floeterm.Live.Messages.{expect_type}

pub record OutputRecord : Type 0 where
  pub sequence : ℤ
  pub timestamp_ms : ℤ
  pub bytes : Bytes

pub record OutputBatch : Type 0 where
  pub geometry_generation : ℤ
  pub cols : Number
  pub rows : Number
  pub records : List OutputRecord

-- The encoder's first loop: the checks on each record, and the bytes of all data.
unfoldable pub check_records : List OutputRecord → Outcome ℕ
check_records [] = ok 0
check_records (r ∷ rs) = do
  _ ← positive_uint64 r.sequence
  guard (not (length r.bytes == 0)) output_data
  rest ← check_records rs
  ok (length r.bytes + rest)

-- The second loop: each record's header and data.
unfoldable pub write_records : List OutputRecord → Outcome Bytes
write_records [] = ok []
write_records (r ∷ rs) = do
  sequence ← positive_uint64 r.sequence
  rest ← write_records rs
  ok (
      to_be 8 sequence
      ++ (to_be 8 (big_uint64 r.timestamp_ms) ++ (to_be 4 (length r.bytes) ++ (r.bytes ++ rest))))

unfoldable pub encode_output_batch : OutputBatch → Outcome Bytes
encode_output_batch value = do
  geometry_generation ← positive_uint64 value.geometry_generation
  cols ← positive_uint32 value.cols
  rows ← positive_uint32 value.rows
  guard (not (length value.records == 0 || ltb max_output_batch_chunks (length value.records)))
      record_count
  data_bytes ← check_records value.records
  guard (not (ltb max_output_batch_bytes data_bytes)) batch_too_large
  records ← write_records value.records
  frame FrameType.output_batch (
      to_be 8 geometry_generation
      ++ (to_be 4 cols ++ (to_be 4 rows ++ (to_be 2 (length value.records) ++ records))))

-- The decoder's loop: `count` rounds from `offset` on, after `data_bytes` bytes of data.
unfoldable pub read_records :
    (count : ℕ) → Bytes → (offset data_bytes : ℕ) → Outcome (List OutputRecord × ℕ)
read_records zero payload offset data_bytes = ok ([], offset)
read_records (suc count) payload offset data_bytes = do
  guard (not (ltb (length payload - offset) 20)) output_payload
  size ← get_uint 4 payload (offset + 16)
  guard (not (size == 0 || ltb (length payload - offset - 20) size)) output_payload
  guard (not (ltb max_output_batch_bytes (data_bytes + size))) batch_too_large
  sequence ← get_uint 8 payload (offset + 0)
  _ ← positive_uint64 (pos sequence)
  timestamp_ms ← get_uint 8 payload (offset + 8)
  (records, last) ← read_records count payload (offset + (20 + size)) (data_bytes + size)
  ok (
    record {
      sequence = pos sequence;
      timestamp_ms = pos timestamp_ms;
      bytes = take size (drop (offset + 20) payload);
    }
        ∷ records,
    last,
  )

unfoldable pub decode_output_batch : Frame → Outcome OutputBatch
decode_output_batch value = do
  expect_type FrameType.output_batch value
  guard (not (ltb (length value.payload) 18)) output_payload
  geometry_generation ← get_uint 8 value.payload 0
  cols ← get_uint 4 value.payload 8
  rows ← get_uint 4 value.payload 12
  _ ← positive_uint64 (pos geometry_generation)
  _ ← positive_uint32 (whole cols)
  _ ← positive_uint32 (whole rows)
  count ← get_uint 2 value.payload 16
  guard (not (count == 0 || ltb max_output_batch_chunks count)) record_count
  (records, offset) ← read_records count value.payload 18 0
  guard (offset == length value.payload) output_payload
  ok (record {
    geometry_generation = pos geometry_generation;
    cols = whole cols;
    rows = whole rows;
    records = records;
  })
