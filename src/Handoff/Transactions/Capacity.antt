-- ===== src/Handoff/Transactions/Capacity.antt =====
-- The room that `_save` of session_peer_core/handoff.py reserves.
use session_peer.Common.{Bool, false, none, List, [], ◌∷◌, ◌*◌, ◌≤◌, ◌≡◌, not, ok, arith, length}
use session_peer.Common.Sql.{count}
use session_peer.Handoff.State.{Record, Ledger, LedgerAction, is_tombstone}
use session_peer.Handoff.Texts.{Library}
use session_peer.Handoff.Transactions.{Moment, transaction, save_refusal, reserved}
use session_peer.Handoff.Transactions.Outcomes.{transaction-eq-ok}

abbrev is_live : Record → Bool
is_live r = not (is_tombstone r.phase)

module _ (library : Library) where
  count-reserved : (rs : List Record) → count is_live rs * 32768 ≤ reserved library rs
  unfolding count
  count-reserved [] = omega arith
  count-reserved (r ∷ rs) = ground (arith, count-reserved rs)

  bounds :
      (l : Ledger)
      → save_refusal library l ≡ none
      → (count is_live l.records ≤ 1023) × (length l.records ≤ 10000)
  unfolding save_refusal
  bounds l saved = (ground (arith, count-reserved l.records), ground arith)

  -- A transaction that has written leaves at most 10000 records, of which at most 1023 keep their
  -- detail.
  pub live-le-1023 :
      {A : Type 0} (moment : Moment) (body : LedgerAction A) (l : Ledger) (a : A)
      → (transaction library moment false body l).0 ≡ ok a
      → (count is_live (transaction library moment false body l).1.records ≤ 1023)
        × (length (transaction library moment false body l).1.records ≤ 10000)
  live-le-1023 moment body l a h =
      let (_, _, saved) = transaction-eq-ok library moment body l a h in
      bounds (transaction library moment false body l).1 saved
