-- ===== src/Scheduler/Ledger/Called.antt =====
-- What the ledger's methods mean for the list of records (internal/scheduler/invocation_ledger.go).
use ahsir.Prelude.Text.{text_eq, Text}
use ahsir.Scheduler.Ledger.Reload.{updates, begins, Call}
use ahsir.Scheduler.Ledger.{
  successor, u64, finishes, complete, fail, queue, recover, recovery_done, recovery_fail,
  InvocationMetadata, completed, failed, queued, recovering, recovered, recovery_failed, in_flight,
  inv_id, bound_user_text, message, new_record, target, with_status, Env, Update, InvocationRecord,
}
use ahsir.Prelude.Decimal.{u64}
use ahsir.Prelude.{◌<◌, ◌+◌, if◌then◌else◌, arith, ◌++◌, map, List, [], ◌∷◌, ℕ, ◌≡◌, refl, ap}
use ahsir.Scheduler.Ledger.Record.{InvocationRecord}

-- What each method makes of a record: its status, its error, and its end where the method ends it.
unfoldable pub becomes : Update → ℕ → InvocationRecord → InvocationRecord
becomes complete now r = record r { status = completed; error = []; finished_at = now }
becomes (fail result msg) now r = record r { status = failed; error = msg; finished_at = now }
becomes queue now r = record r { status = queued; error = [] }
becomes recover now r = record r { status = recovering; error = [] }
becomes recovery_done now r = record r { status = recovered; error = []; finished_at = now }
becomes (recovery_fail msg) now r = record r {
  status = recovery_failed;
  error = msg;
  finished_at = now;
}

pub with_status-becomes :
    (u : Update) (now : ℕ) (r : InvocationRecord)
    → with_status (target u) (message u) (finishes u) now r ≡ becomes u now r
unfolding becomes
with_status-becomes complete now r = refl
with_status-becomes (fail result msg) now r = refl
with_status-becomes queue now r = refl
with_status-becomes recover now r = refl
with_status-becomes recovery_done now r = refl
with_status-becomes (recovery_fail msg) now r = refl

-- The records, in order, that a call leaves.
abbrev pub revised : Text → Update → ℕ → InvocationRecord → InvocationRecord
revised id u now r = if text_eq r.id id then becomes u now r else r

-- A record in flight since now, with no error and no end.
unfoldable pub opened : ℕ → ℕ → InvocationMetadata → InvocationRecord
opened now n meta = record {
  id = inv_id n;
  source = meta.source;
  agent_name = meta.agent_name;
  method = meta.method;
  context_id = meta.context_id;
  message_id = meta.message_id;
  user_text = bound_user_text meta.user_text;
  speaker = meta.speaker;
  status = in_flight;
  started_at = now;
  finished_at = 0;
  error = [];
}

unfoldable pub called : Env → Call → ℕ → List InvocationRecord → List InvocationRecord
called v (begins meta) next recs = recs ++ opened v.now (next + 1) meta ∷ []
called v (updates id u) next recs = map (revised id u v.now) recs

pub new_record-opened :
    (now n : ℕ) (meta : InvocationMetadata)
    → n + 1 < u64
    → new_record now (successor n) meta ≡ opened now (n + 1) meta
unfolding opened
new_record-opened now n meta h =
    let exact : successor n ≡ n + 1 = omega (arith, h) in
    ap (λ (k : ℕ). new_record now k meta) exact
