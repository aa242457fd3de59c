-- ===== src/Scheduler/Ledger/Record.antt =====
-- Records, log events and the rules on single records (internal/scheduler/invocation_ledger.go).
-- A time is a number of nanoseconds, and 0 is the zero `time.Time`.
use ahsir.Prelude.{
  ℕ, zero, suc, ◌+◌, ◌==◌, ltb, leb, Bool, not, ◌&&◌, if◌then◌else◌, Option, [], ◌∷◌, ◌++◌, length,
  take,
}
use ahsir.Prelude.Text.{Text, text}
use ahsir.Prelude.Decimal.{decimal, parse_uint}

pub data InvocationStatus : Type 0 where
  in_flight completed failed queued recovering recovered recovery_failed : InvocationStatus

pub record InvocationRecord : Type 0 where
  pub id : Text
  pub source : Text
  pub agent_name : Text
  pub method : Text
  pub context_id : Text
  pub message_id : Text
  pub user_text : Text
  pub speaker : Text
  pub status : InvocationStatus
  pub started_at : ℕ
  pub finished_at : ℕ
  pub error : Text

pub record InvocationMetadata : Type 0 where
  pub source : Text
  pub agent_name : Text
  pub method : Text
  pub context_id : Text
  pub message_id : Text
  pub user_text : Text
  pub speaker : Text

-- The `type` of a log event: a status that `updateStatus` writes goes by its name.
pub data EventType : Type 0 where
  checkpoint started unknown : EventType
  status : InvocationStatus → EventType

pub record LedgerEvent : Type 0 where
  pub kind : EventType
  pub id : Text
  pub next_id : ℕ
  pub source : Text
  pub agent_name : Text
  pub method : Text
  pub context_id : Text
  pub message_id : Text
  pub user_text : Text
  pub speaker : Text
  pub error : Text
  pub ts : ℕ

abbrev completed_invocation_retention : ℕ
completed_invocation_retention = 604800000000000

abbrev incomplete_invocation_retention : ℕ
incomplete_invocation_retention = 2592000000000000

abbrev max_ledger_user_text_bytes : ℕ
max_ledger_user_text_bytes = 512

-- `utf8.RuneStart`: any byte but a continuation byte.
abbrev rune_start : ℕ → Bool
rune_start b = not (leb 128 b && ltb b 192)

-- `s[i]`; the loop reads it in range only.
abbrev byte_at : Text → ℕ → ℕ
byte_at [] i = 0
byte_at (b ∷ bs) zero = b
byte_at (b ∷ bs) (suc i) = byte_at bs i

-- `for cut > 0 && !utf8.RuneStart(s[cut]) { cut-- }`
unfoldable rune_cut : Text → ℕ → ℕ
rune_cut s zero = zero
rune_cut s (suc cut) =
    let lower = rune_cut s cut in if rune_start (byte_at s (suc cut)) then suc cut else lower

-- "…[truncated]" in UTF-8.
abbrev truncated_mark : Text
truncated_mark = 226 ∷ 128 ∷ 166 ∷ text "[truncated]"

unfoldable pub bound_user_text : Text → Text
unfolding rune_cut
bound_user_text s =
    if leb (length s) max_ledger_user_text_bytes
    then s
    else take (rune_cut s max_ledger_user_text_bytes) s ++ truncated_mark

-- `terminalTime`; `now` is the clock.
unfoldable pub terminal_time : ℕ → InvocationRecord → ℕ
terminal_time now rec =
    if ltb 0 rec.finished_at
    then rec.finished_at
    else if ltb 0 rec.started_at
    then rec.started_at
    else now

-- `!ts.Before(now.Add(-retention))`
abbrev within : ℕ → ℕ → ℕ → Bool
within retention now ts = leb now (ts + retention)

abbrev started_or_terminal : ℕ → InvocationRecord → ℕ
started_or_terminal now rec = if ltb 0 rec.started_at then rec.started_at else terminal_time now rec

abbrev retain_by : InvocationStatus → ℕ → InvocationRecord → Bool
retain_by completed now rec = within completed_invocation_retention now (terminal_time now rec)
retain_by _ now rec = within incomplete_invocation_retention now (started_or_terminal now rec)

unfoldable pub retain_invocation_record : ℕ → InvocationRecord → Bool
unfolding terminal_time
retain_invocation_record now rec = retain_by rec.status now rec

unfoldable pub started_event_from_record : InvocationRecord → LedgerEvent
started_event_from_record rec = record {
  kind = started;
  id = rec.id;
  next_id = 0;
  source = rec.source;
  agent_name = rec.agent_name;
  method = rec.method;
  context_id = rec.context_id;
  message_id = rec.message_id;
  user_text = rec.user_text;
  speaker = rec.speaker;
  error = [];
  ts = rec.started_at;
}

-- An event with no more than a type, an id, an error and a time.
abbrev pub status_event : InvocationStatus → Text → Text → ℕ → LedgerEvent
status_event s i e t = record {
  kind = status s;
  id = i;
  next_id = 0;
  source = [];
  agent_name = [];
  method = [];
  context_id = [];
  message_id = [];
  user_text = [];
  speaker = [];
  error = e;
  ts = t;
}

abbrev pub checkpoint_event : ℕ → ℕ → LedgerEvent
checkpoint_event n t = record {
  kind = checkpoint;
  id = [];
  next_id = n;
  source = [];
  agent_name = [];
  method = [];
  context_id = [];
  message_id = [];
  user_text = [];
  speaker = [];
  error = [];
  ts = t;
}

-- `fmt.Sprintf("inv-%d", n)`
unfoldable pub inv_id : ℕ → Text
unfolding decimal
inv_id n = text "inv-" ++ decimal n

-- `strings.TrimPrefix(id, "inv-")`
abbrev trim_inv : Text → Text
trim_inv (a ∷ b ∷ c ∷ d ∷ s) =
    if a == b'i' && b == b'n' && c == b'v' && d == b'-' then s else a ∷ b ∷ c ∷ d ∷ s
trim_inv s = s

-- The number in an invocation's id, if it has one.
unfoldable pub id_number : Text → Option ℕ
unfolding parse_uint
id_number id = parse_uint (trim_inv id)
