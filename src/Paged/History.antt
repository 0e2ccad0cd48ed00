-- ===== src/Paged/History.antt =====
-- PagedTerminalOutputCoordinator.ts: pages of history, what is thrown about them, and a history that
-- has been prepared. A cursor is opaque, and a number stands for it.
use floeterm.Common.{ℕ, ◌+◌, Bool, List, [], ◌∷◌, Option, none, some, length}
use floeterm.Common.Number.{Number, safe_from}
use floeterm.Common.Fallible.{Result, ok, err}
use floeterm.Pipeline.State.{Chunk}

-- A field is `none` where the page lacks it; a page is taken not to hold `undefined` in its place.
pub record Page : Type 0 where
  pub chunks : List Chunk
  pub has_more : Bool
  pub next_cursor : Option ℕ
  pub first_available_sequence : Option Number
  pub first_retained_sequence : Option Number
  pub covered_through_sequence : Option Number
  pub snapshot_end_sequence : Option Number
  pub history_generation : Option Number
  pub history_reset : Bool
  pub history_truncated : Bool

pub record Prepared : Type 0 where
  pub chunks : List Chunk
  pub requested_start_sequence : Number
  pub first_retained_sequence : Number
  pub covered_through_sequence : Number
  pub snapshot_end_sequence : Number
  pub history_generation : Number
  pub byte_length : Number
  pub page_count : Number
  pub complete : Bool

pub data FailureCode : Type 0 where
  history_fetch_failed history_coverage_incomplete : FailureCode
  history_contract_missing history_contract_invalid : FailureCode

-- `HistoryContractError`, or whatever else was thrown.
pub data Thrown : Type 0 where
  contract : FailureCode → (first_retained : Option ℕ) → Thrown
  aborted other : Thrown

abbrev pub Outcome : Type 0 → Type 0
Outcome A = Result Thrown A

abbrev pub missing : Thrown
missing = contract history_contract_missing none

abbrev pub invalid : Thrown
invalid = contract history_contract_invalid none

-- `normalizeSequence` of a value that is there.
unfoldable pub normalize_sequence : Number → Outcome ℕ
normalize_sequence value = elim (safe_from 0 value) [ none ↦ err invalid | some n ↦ ok n ]

-- `normalizeSequence` with `optional`.
unfoldable pub normalize_optional : Option Number → Outcome (Option ℕ)
unfolding normalize_sequence
normalize_optional none = ok none
normalize_optional (some value) = elim (normalize_sequence value) [
  | err e ↦ err e
  | ok n ↦ ok (some n)
]

-- `normalizeSequence(chunk.sequence)`, where a chunk has to have one.
unfoldable pub normalize_chunk : Option Number → Outcome ℕ
unfolding normalize_sequence
normalize_chunk none = err invalid
normalize_chunk (some value) = normalize_sequence value

-- `a ?? b`.
abbrev pub or_else {ℓ} : {A : Type ℓ} → Option A → Option A → Option A
or_else none b = b
or_else (some a) b = some a

unfoldable pub required : Option Number → Outcome ℕ
unfolding normalize_sequence
required none = err missing
required (some value) = normalize_sequence value

abbrev pub byte_count : List Chunk → ℕ
byte_count [] = 0
byte_count (c ∷ cs) = length c.bytes + byte_count cs
