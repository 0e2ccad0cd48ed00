-- ===== src/Shell.antt =====
-- terminal-web/src/shell/TerminalShellIntegrationParser.ts: what shells say of their prompts and
-- commands, in OSC sequences between the output. Bytes and UTF-16 units are natural numbers.
mod Rounds
mod Prefix
mod Shifted
mod Cuts
mod Parsed
mod Pending
mod Tests
use floeterm.Common.{
  ℕ, zero, suc, ◌+◌, Bool, true, false, ◌&&◌, not, List, [], ◌∷◌, ◌++◌, Option, none, some, length,
  take, drop, ltb, ◌==◌, if◌then◌else◌,
}
use floeterm.Common.Number.{Number, finite, not_finite}

abbrev pub esc : ℕ
esc = 0x1b

abbrev pub osc : ℕ
osc = 0x5d

abbrev pub bel : ℕ
bel = 0x07

abbrev pub st : ℕ
st = 0x5c

abbrev pub max_pending_bytes : ℕ
max_pending_bytes = 4096

abbrev pub max_metadata_payload_bytes : ℕ
max_metadata_payload_bytes = 4092

-- A working directory and a name are not empty.
pub data Event : Type 0 where
  prompt_ready command_start command_executed : Event
  command_finished : (exit_code : Option Number) → Event
  cwd_update : (working_dir : List ℕ) → Event
  program : (display_name : List ℕ) → Event

pub data Token : Type 0 where
  display : List ℕ → Token
  event : Event → Token

-- `ParsedPayload`.
pub data Payload : Type 0 where
  unrecognized : Payload
  recognized : Option Event → Payload

-- `startsWith`, with what is left then.
abbrev pub strip : (prefix text : List ℕ) → Option (List ℕ)
strip [] text = some text
strip (p ∷ prefix) [] = none
strip (p ∷ prefix) (c ∷ text) = if p == c then strip prefix text else none

abbrev pub nonempty : (List ℕ → Event) → List ℕ → Option Event
nonempty make [] = none
nonempty make (c ∷ text) = some (make (c ∷ text))

abbrev pub finite_only : Number → Option Number
finite_only (finite z fraction) = some (finite z fraction)
finite_only not_finite = none

abbrev pub orelse : Payload → Payload → Payload
orelse unrecognized other = other
orelse (recognized e) other = recognized e

abbrev pub when_stripped : Option (List ℕ) → (List ℕ → Option Event) → Payload
when_stripped none make = unrecognized
when_stripped (some rest) make = recognized (make rest)

abbrev pub exactly : List ℕ → List ℕ → Event → Payload
exactly word [] e = elim word [ [] ↦ recognized (some e) | c ∷ cs ↦ unrecognized ]
exactly word (b ∷ body) e = elim (strip word (b ∷ body)) [
  | none ↦ unrecognized
  | some rest ↦ elim rest [ [] ↦ recognized (some e) | c ∷ cs ↦ unrecognized ]
]

abbrev pub letters_cwd : List ℕ
letters_cwd = b'P' ∷ b';' ∷ b'C' ∷ b'w' ∷ b'd' ∷ b'=' ∷ []

abbrev pub letters_program : List ℕ
letters_program =
    b'P' ∷ b';' ∷ b'F' ∷ b'l' ∷ b'o' ∷ b'e' ∷ b't' ∷ b'e' ∷ b'r' ∷ b'm' ∷ b'P' ∷ b'r' ∷ b'o' ∷ b'g'
    ∷ b'r' ∷ b'a' ∷ b'm' ∷ b'=' ∷ []

-- `text` decodes UTF-8, `number` is `Number` of a trimmed text, and `name` is
-- `normalizeTerminalForegroundCommandDisplayName`, with the empty text for null.
module _ (text : List ℕ → List ℕ) (number : List ℕ → Number) (name : List ℕ → List ℕ) where
  -- What both protocols have.
  unfoldable pub parse_common : (body : List ℕ) → Payload
  parse_common body = orelse (exactly (b'A' ∷ []) body prompt_ready) (
      orelse (exactly (b'B' ∷ []) body command_start) (
        orelse (exactly (b'C' ∷ []) body command_executed) (
          orelse (exactly (b'D' ∷ []) body (command_finished none)) (
            when_stripped (strip (b'D' ∷ b';' ∷ []) body)
              (λ rest. some (command_finished (finite_only (number rest))))))))

  -- What only 633 has.
  unfoldable pub parse_metadata : (body : List ℕ) → Payload
  parse_metadata body =
      orelse (when_stripped (strip letters_cwd body) (nonempty cwd_update))
        (when_stripped (strip letters_program body) (λ rest. nonempty program (name rest)))

  abbrev pub parse_oversized : (body : List ℕ) → Payload
  parse_oversized body = when_stripped (strip letters_program body) (λ rest. none)

  unfoldable pub parse_text : (oversized : Bool) → List ℕ → Payload
  unfolding parse_common parse_metadata
  parse_text oversized units = elim (strip (b'6' ∷ b'3' ∷ b'3' ∷ b';' ∷ []) units) [
    | some body ↦
        if oversized then parse_oversized body else orelse (parse_common body) (parse_metadata body)
    | none ↦ elim (strip (b'1' ∷ b'3' ∷ b'3' ∷ b';' ∷ []) units) [
      | some body ↦ if oversized then parse_oversized body else parse_common body
      | none ↦ unrecognized
    ]
  ]

  unfoldable pub parse_payload : List ℕ → Payload
  unfolding parse_text
  parse_payload payload =
      if ltb max_metadata_payload_bytes (length payload)
      then parse_text true (text (take max_metadata_payload_bytes payload))
      else parse_text false (text payload)

-- A sequence that has been found: what is before it, and what is behind its two bytes.
pub record Start : Type 0 where
  pub before : List ℕ
  pub behind : List ℕ

abbrev pub push_before : ℕ → Option Start → Option Start
push_before b none = none
push_before b (some s) = some (record s { before = b ∷ s.before })

-- `findOscStart`.
unfoldable pub find_start : List ℕ → Option Start
find_start [] = none
find_start (b ∷ []) = none
find_start (b ∷ (c ∷ bs)) =
    let rest = push_before b (find_start (c ∷ bs)) in
    if b == esc && c == osc then some (record { before = []; behind = bs }) else rest

pub record Terminated : Type 0 where
  pub payload : List ℕ
  pub terminator : List ℕ
  pub behind : List ℕ

abbrev pub push_payload : ℕ → Option Terminated → Option Terminated
push_payload b none = none
push_payload b (some t) = some (record t { payload = b ∷ t.payload })

-- `findOscTerminator`.
unfoldable pub find_terminator : List ℕ → Option Terminated
find_terminator [] = none
find_terminator (b ∷ []) =
    if b == bel then some (record { payload = []; terminator = bel ∷ []; behind = [] }) else none
find_terminator (b ∷ (c ∷ bs)) =
    let rest = push_payload b (find_terminator (c ∷ bs)) in
    if b == bel
    then some (record { payload = []; terminator = bel ∷ []; behind = c ∷ bs })
    else if b == esc && c == st
    then some (record { payload = []; terminator = esc ∷ (st ∷ []); behind = bs })
    else rest

-- `appendDisplaySegment`, before what follows.
abbrev pub append_display : List ℕ → List Token → List Token
append_display [] tokens = tokens
append_display (b ∷ bs) tokens = display (b ∷ bs) ∷ tokens

abbrev pub ends_with_esc : List ℕ → Bool
ends_with_esc [] = false
ends_with_esc (b ∷ []) = b == esc
ends_with_esc (b ∷ (c ∷ bs)) = ends_with_esc (c ∷ bs)

abbrev pub without_last : List ℕ → List ℕ
without_last [] = []
without_last (b ∷ []) = []
without_last (b ∷ (c ∷ bs)) = b ∷ without_last (c ∷ bs)

-- `displayData` and `events`, which `parse` answers beside the tokens.
abbrev pub display_data : List Token → List ℕ
display_data [] = []
display_data (display bs ∷ tokens) = bs ++ display_data tokens
display_data (event e ∷ tokens) = display_data tokens

abbrev pub events_of : List Token → List Event
events_of [] = []
events_of (display bs ∷ tokens) = events_of tokens
events_of (event e ∷ tokens) = e ∷ events_of tokens

-- The tokens, and what is pending then.
pub record Output : Type 0 where
  pub tokens : List Token
  pub pending : List ℕ

abbrev pub plain : (ends : Bool) → List ℕ → Output
plain true data_left = record {
  tokens = append_display (without_last data_left) [];
  pending = esc ∷ [];
}
plain false data_left = record { tokens = append_display data_left []; pending = [] }

-- Data without the start of a sequence.
unfoldable pub end_plain : List ℕ → Output
end_plain data_left = plain (ends_with_esc data_left) data_left

-- A sequence that is not terminated; `limit` is MAX_PENDING_BYTES.
unfoldable pub end_open : (limit : ℕ) → Start → Output
end_open limit s =
    if ltb limit (length (esc ∷ osc ∷ s.behind))
    then (record {
      tokens = append_display s.before (display (esc ∷ osc ∷ s.behind) ∷ []);
      pending = [];
    })
    else (record { tokens = append_display s.before []; pending = esc ∷ osc ∷ s.behind })

pub data Round : Type 0 where
  last : Output → Round
  next : List Token → (behind : List ℕ) → Round

abbrev pub tokens_of : Payload → (payload terminator : List ℕ) → List Token
tokens_of unrecognized payload terminator = display ((esc ∷ osc ∷ payload) ++ terminator) ∷ []
tokens_of (recognized none) payload terminator = []
tokens_of (recognized (some e)) payload terminator = event e ∷ []

module _ (limit : ℕ) (recognize : List ℕ → Payload) where
  abbrev pub close : Start → Option Terminated → Round
  close s none = last (end_open limit s)
  close s (some t) =
      next (append_display s.before (tokens_of (recognize t.payload) t.payload t.terminator))
        t.behind

  -- A round of the loop of `parse`.
  unfoldable pub scan_round : List ℕ → Round
  unfolding find_start find_terminator end_plain end_open
  scan_round data_left = elim (find_start data_left) [
    | none ↦ last (end_plain data_left)
    | some s ↦ close s (find_terminator s.behind)
  ]

  unfoldable pub scan_rounds : (rounds : ℕ) → List ℕ → Output
  unfolding scan_round
  scan_rounds zero data_left = record { tokens = []; pending = [] }
  scan_rounds (suc rounds) data_left = elim (scan_round data_left) [
    | last out ↦ out
    | next tokens behind ↦
        let out = scan_rounds rounds behind in (record out { tokens = tokens ++ out.tokens })
  ]

  unfoldable pub scan : List ℕ → Output
  unfolding scan_rounds
  scan data_left = scan_rounds (suc (length data_left)) data_left

abbrev pub has_start : Option Start → Bool
has_start none = false
has_start (some s) = true

abbrev pub is_empty : List ℕ → Bool
is_empty [] = true
is_empty (b ∷ bs) = false

-- `parse`, with the bytes that are pending.
unfoldable pub parse : (recognize : List ℕ → Payload) → (pending chunk : List ℕ) → Output
unfolding scan end_plain find_start
parse recognize pending chunk =
    if is_empty pending && not (has_start (find_start chunk))
    then end_plain chunk
    else scan max_pending_bytes recognize (pending ++ chunk)

-- `reset`: what is pending then.
abbrev pub reset : List ℕ
reset = []
