-- ===== src/Handoff/Waits.antt =====
-- `handoff_start_wait` and `handoff_wait`. Times are whole nanoseconds, where the code has seconds in
-- floating point; what `handoff_channel_epoch` answers is an argument.
pub mod Ends
use session_peer.Common.{
  ℕ, zero, suc, String, Bool, false, Option, none, some, List, [], ◌∷◌, ◌++◌, ◌+◌, ◌-◌, ◌==◌,
  string_eq, ◌&&◌, ◌||◌, not, leb, length, is_some, if◌then◌else◌, pure, raise_if, gets, modify,
  or_crash, ◌>>=◌, ◌>>◌, ok, rejected, crash, Outcome,
}
use Prim.Native.Nat.{◌/◌}
use session_peer.Common.Sql.{find}
use session_peer.Handoff.State.{
  Record, Ledger, Wait, WaitStatus, WaitReason, Goal, Capability, HandoffReason, LedgerAction,
  RecordAction, satisfied, timed_out_unknown, unsupported, failed, stopped, insufficient_budget,
  history_unavailable, evidence_unsupported, stopped_by_operator, handoff_wait_capacity, is_pending,
  is_for_ack,
}
use session_peer.Handoff.Texts.{Library}
use session_peer.Handoff.Transactions.{Moment, on_record, transaction, same_optional}

-- `record["capability"] is not None and not record["capability"]["revoked"]`
abbrev pub has_authority : Option Capability → Bool
has_authority none = false
has_authority (some c) = not c.revoked

abbrev is_supported : Goal → Record → Bool
is_supported goal r = is_for_ack goal && is_some r.generation && has_authority r.capability

abbrev or_else {ℓ} : {A : Type ℓ} → Option A → A → A
or_else none a = a
or_else (some b) a = b

-- What a wait is started with; `operation` is `str(uuid.uuid4())` and `now` a reading of the clock.
pub record Start : Type 0 where
  pub goal : Goal
  pub deadline : ℕ
  pub clock_epoch : Option String
  pub initial : Option WaitStatus
  pub reason : Option WaitReason
  pub operation : String
  pub now : ℕ
  pub utc : ℕ

abbrev reason_of : Start → Bool → Option WaitReason
reason_of start supported =
    if is_some start.reason
    then start.reason
    else if supported
    then none
    else some evidence_unsupported

unfoldable pub new_wait : Start → Record → Wait
new_wait start r =
    let supported = is_supported start.goal r in
    record {
      goal = start.goal;
      status = or_else start.initial (if supported then WaitStatus.pending else unsupported);
      operation = start.operation;
      deadline_utc = start.utc + (start.deadline - start.now) / 1000000;
      deadline = start.deadline;
      clock_epoch = start.clock_epoch;
      reason = reason_of start supported;
    }

unfoldable pub start_wait : Start → RecordAction String
unfolding new_wait
start_wait start = do
  r ← gets (λ r. r)
  raise_if (leb 64 (length r.waits)) handoff_wait_capacity
  modify (λ r. record r { waits = r.waits ++ new_wait start r ∷ [] })
  pure start.operation

-- the wait's own start: `verified` is the collector's clock epoch, and `short` is `seconds <= 5`
abbrev is_unavailable : Option String → Record → Bool
is_unavailable verified r = elim r.capability [
  | none ↦ false
  | some c ↦ not (is_some r.ack) && not (same_optional verified (some c.clock_epoch))
]

unfoldable pub open_wait : Bool → Option String → Start → RecordAction String
unfolding start_wait
open_wait short verified start = do
  r ← gets (λ r. r)
  let lost = is_unavailable verified r
  start_wait (record start {
    clock_epoch = verified;
    initial = if short || lost then some failed else none;
    reason =
        if short then some insufficient_budget else if lost then some history_unavailable else none;
  })

abbrev pub is_operation : String → Wait → Bool
is_operation operation w = w.operation == operation

abbrev close_wait : WaitStatus → Wait → Wait
close_wait status w = record w { status = status }

abbrev lose_wait : Wait → Wait
lose_wait w = record w { status = failed; reason = some history_unavailable }

-- one look at a wait that is pending: what `current` becomes
unfoldable pub look : Option String → ℕ → ℕ → Record → Wait → Wait
look verified deadline now r w =
    if is_some r.ack
    then close_wait satisfied w
    else if not (is_some verified) || not (same_optional w.clock_epoch verified)
    then lose_wait w
    else if leb deadline now
    then close_wait timed_out_unknown w
    else w

-- a change of the first of the waits that `p` selects
unfoldable pub update_first : (Wait → Bool) → (Wait → Wait) → List Wait → List Wait
update_first p f [] = []
update_first p f (w ∷ ws) = if p w then f w ∷ ws else w ∷ update_first p f ws

abbrev pub change_pending : (Wait → Wait) → Wait → Wait
change_pending f w = if is_pending w.status then f w else w

-- `next(value for value in record["waits"] if …)`, its change if it is pending, and its status
module _ (operation : String) (change : Record → Wait → Wait) where
  unfoldable pub on_wait : RecordAction WaitStatus
  unfolding update_first
  on_wait = do
    r ← gets (λ r. r)
    w ← or_crash (find (is_operation operation) r.waits)
    modify (λ r. record r {
      waits = update_first (is_operation operation) (change_pending (change r)) r.waits;
    })
    pure (change_pending (change r) w).status

abbrev pub stop_wait : Wait → Wait
stop_wait w = record w { status = stopped; reason = some stopped_by_operator }

-- What one turn of the loop sees: the moment, the clock at the test, and the ledger that other
-- processes have left.
pub record Turn : Type 0 where
  pub moment : Moment
  pub others : Ledger → Ledger

module _ (library : Library) (correlation operation : String) (verified : Option String)
    (deadline : ℕ) where
  unfoldable pub wait_turn : Turn → LedgerAction WaitStatus
  wait_turn turn l =
      transaction library turn.moment false
        (on_record correlation (λ l. (crash, l))
          (on_wait operation (look verified deadline (turn.moment.clock 1))))
        (turn.others l)

  -- `while True`, for as many turns as are given: none where they do not suffice. Sleeping is in the
  -- readings of the clock.
  unfoldable pub wait_loop :
      ℕ → (ℕ → Turn) → Ledger → Option (Outcome HandoffReason WaitStatus × Ledger)
  wait_loop zero turns l = none
  wait_loop (suc n) turns l =
      let (out, l') = wait_turn (turns 0) l in
      let rest = wait_loop n (λ k. turns (suc k)) l' in
      elim out [
        | ok status ↦ if is_pending status then rest else some (ok status, l')
        | rejected e ↦ some (rejected e, l')
        | crash ↦ some (crash, l')
      ]

  -- the handler of a KeyboardInterrupt
  unfoldable pub stop_waiting : Moment → LedgerAction WaitStatus
  stop_waiting moment =
      transaction library moment false
        (on_record correlation (λ l. (crash, l)) (on_wait operation (λ r. stop_wait)))

-- the exit code of a wait that was not interrupted
abbrev wait_code : WaitStatus → ℕ
wait_code satisfied = 0
wait_code _ = 1
