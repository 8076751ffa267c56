-- ===== src/Handoff/Waits/Ends.antt =====
-- The loop of `handoff_wait` in session_peer_core/handoff.py ends, and what it answers with.
use session_peer.Common.{
  ℕ, zero, suc, String, true, false, Option, some, ◌≡◌, ◌⊎◌, inl, inr, ok, crash, arith, is_some,
  ◌≤◌, ◌<◌, ◌+◌, ◌*◌, ◌-◌, min, Option-cases, Outcome-cases,
}
use session_peer.Common.Sql.{find}
use session_peer.Handoff.State.{Record, Ledger, Wait, WaitStatus, is_pending}
use session_peer.Handoff.Texts.{Library}
use session_peer.Handoff.Transactions.{on_record, retain_all}
use session_peer.Handoff.Transactions.Outcomes.{transaction-eq-ok}
use session_peer.Handoff.Waits.{
  Turn, wait_turn, wait_loop, look, on_wait, is_operation, change_pending,
}
use session_peer.Handoff.History.{Follows-on_wait}
use session_peer.Handoff.History.Steps.{on_record-eq-ok}

look-ends :
    (verified : Option String) (deadline now : ℕ) (r : Record) (w : Wait)
    → deadline ≤ now
    → is_pending (change_pending (look verified deadline now r) w).status ≡ false
unfolding look
look-ends verified deadline now r w h = ground arith

on_wait-answer :
    (operation : String) (change : Record → Wait → Wait) (r r' : Record) (status : WaitStatus)
    → on_wait operation change r ≡ (ok status, r')
    → (w : Wait) × (status ≡ (change_pending (change r) w).status)
unfolding on_wait
on_wait-answer operation change r r' status h =
    elim (Option-cases (find (is_operation operation) r.waits)) [
      | inl e ↦ ground arith
      | inr (w, e) ↦ (w, ground arith)
    ]

-- `time.sleep(min(0.05, …))` sleeps at most so many nanoseconds.
abbrev sleep : ℕ
sleep = 50000000

advances :
    (deadline : ℕ) (t : ℕ → ℕ)
    → ((k : ℕ) → t k + min sleep (deadline - t k) ≤ t (suc k))
    → (k : ℕ) → (deadline ≤ t k) ⊎ (t 0 + k * sleep ≤ t k)
advances deadline t sleeps zero = inr (omega arith)
advances deadline t sleeps (suc k) = ground (arith, sleeps k, advances deadline t sleeps k)

reaches :
    (deadline : ℕ) (t : ℕ → ℕ)
    → ((k : ℕ) → t k + min sleep (deadline - t k) ≤ t (suc k))
    → (n : ℕ) → deadline ≤ t 0 + n * sleep
    → deadline ≤ t n
reaches deadline t sleeps n near = ground (arith, advances deadline t sleeps n)

module _ (library : Library) (correlation operation : String) (verified : Option String)
    (deadline : ℕ) where
  -- A turn at the deadline or later leaves no wait pending.
  wait_turn-ends :
      (turn : Turn) (l : Ledger) (status : WaitStatus)
      → deadline ≤ turn.moment.clock 1
      → (wait_turn library correlation operation verified deadline turn l).0 ≡ ok status
      → is_pending status ≡ false
  unfolding wait_turn
  wait_turn-ends turn l status late h =
      let change = look verified deadline (turn.moment.clock 1) in
      let (e, _, _) =
        transaction-eq-ok library turn.moment
          (on_record correlation (λ l. (crash, l)) (on_wait operation change)) (turn.others l)
          status h in
      let (r, found, returns, _) =
        on_record-eq-ok correlation (λ l. (crash, l)) (on_wait operation change)
          (λ l l' a h. ground arith) (λ r r' a h. Follows-on_wait operation change r r' h)
          (retain_all turn.moment (turn.others l)) _ status e in
      let (w, answer) = on_wait-answer operation change r _ status returns in
      rw answer (look-ends verified deadline (turn.moment.clock 1) r w late)

  -- The loop ends in at most so many turns as it takes the clock to reach the deadline.
  pub wait_loop-late :
      (n k : ℕ) (turns : ℕ → Turn) (l : Ledger)
      → k < n
      → deadline ≤ (turns k).moment.clock 1
      → is_some (wait_loop library correlation operation verified deadline n turns l) ≡ true
  unfolding wait_loop
  wait_loop-late zero k turns l less late = ground arith
  wait_loop-late (suc n) zero turns l less late =
      let turn = wait_turn library correlation operation verified deadline (turns 0) l in
      elim (Outcome-cases turn.0) [
        | inl (status, e) ↦
            let ended = wait_turn-ends (turns 0) l status late e in ground (arith, e, ended)
        | inr (inl (reason, e)) ↦ ground (arith, e)
        | inr (inr e) ↦ ground (arith, e)
      ]
  wait_loop-late (suc n) (suc k) turns l less late =
      let turn = wait_turn library correlation operation verified deadline (turns 0) l in
      let rest = wait_loop-late n k (λ j. turns (suc j)) turn.1 (omega arith) late in
      elim (Outcome-cases turn.0) [
        | inl (status, e) ↦ ground (arith, e, rest)
        | inr (inl (reason, e)) ↦ ground (arith, e)
        | inr (inr e) ↦ ground (arith, e)
      ]

  -- The loop ends: where each turn's clock is later than the last by the 50 milliseconds of its sleep, or
  -- by what is left until the deadline, one turn more than the 50 milliseconds until the deadline suffices,
  -- whatever other processes do to the ledger.
  pub wait_loop-ends :
      (n : ℕ) (turns : ℕ → Turn) (l : Ledger)
      → ((k : ℕ)
          → (turns k).moment.clock 1 + min sleep (deadline - (turns k).moment.clock 1)
            ≤ (turns (suc k)).moment.clock 1)
      → deadline ≤ (turns 0).moment.clock 1 + n * sleep
      → is_some (wait_loop library correlation operation verified deadline (suc n) turns l) ≡ true
  wait_loop-ends n turns l sleeps near =
      wait_loop-late (suc n) n turns l (omega arith)
        (reaches deadline (λ k. (turns k).moment.clock 1) sleeps n near)

  -- What the loop answers with is no wait that is pending.
  pub wait_loop-answers :
      (n : ℕ) (turns : ℕ → Turn) (l l' : Ledger) (status : WaitStatus)
      → wait_loop library correlation operation verified deadline n turns l ≡ some (ok status, l')
      → is_pending status ≡ false
  unfolding wait_loop
  wait_loop-answers zero turns l l' status h = ground arith
  wait_loop-answers (suc n) turns l l' status h =
      let turn = wait_turn library correlation operation verified deadline (turns 0) l in
      elim (Outcome-cases turn.0) [
        | inl (s, e) ↦ ground (arith, e, wait_loop-answers n (λ j. turns (suc j)) turn.1 l' status)
        | inr (inl (reason, e)) ↦ ground (arith, e)
        | inr (inr e) ↦ ground (arith, e)
      ]
