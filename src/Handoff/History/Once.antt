-- ===== src/Handoff/History/Once.antt =====
-- A handoff of session_peer_core/handoff.py is attempted at most once.
use session_peer.Common.{
  ℕ, String, true, false, Option, some, ◌≡◌, ◌∙◌, ap, sym, ok, crash, arith, string_eq,
}
use mathlib.Core.Option.{some-injective}
use session_peer.Common.Sql.{find}
use session_peer.Handoff.State.{Record, Ledger, is_id, is_prepared}
use session_peer.Handoff.Texts.{Library}
use session_peer.Handoff.Transactions.{Moment, retain_all, on_record}
use session_peer.Handoff.Transactions.Outcomes.{transaction-eq-ok}
use session_peer.Handoff.Waits.{Start}
use session_peer.Handoff.Send.{Wishes, attempt, on_known}
use session_peer.Handoff.History.{Follows-attempt}
use session_peer.Handoff.History.Steps.{on_record-eq-ok, Kept-retain}
use session_peer.Handoff.History.Reach.{Steps, Kept-Steps}

attempt-phases :
    (wishes : Wishes) (cutoff now : ℕ) (start : Start) (r : Record) (o : Option String)
    → attempt wishes cutoff now start r ≡ (ok o, (attempt wishes cutoff now start r).1)
    → (is_prepared r.phase ≡ true)
      × (is_prepared (attempt wishes cutoff now start r).1.phase ≡ false)
unfolding attempt
attempt-phases wishes cutoff now start r o h = ground arith

module _ (library : Library) where
  module _ (moment : Moment) (ident : String) (wishes : Wishes) (cutoff now : ℕ) (start : Start)
      (l : Ledger) where
    -- An attempt that succeeds has found the record prepared, and leaves it no longer so.
    attempt-prepared :
        {o : Option String}
        → (on_known library moment ident (attempt wishes cutoff now start) l).0 ≡ ok o
        → (r r' : Record) × (find (is_id ident) (retain_all moment l).records ≡ some r)
          × (is_prepared r.phase ≡ true)
          × (find
                (is_id ident)
                (on_known library moment ident (attempt wishes cutoff now start) l).1.records
              ≡ some r')
          × (is_prepared r'.phase ≡ false)
    unfolding on_known
    attempt-prepared {o} h =
        let (e, _, _) =
          transaction-eq-ok library moment
            (on_record ident (λ l. (crash, l)) (attempt wishes cutoff now start)) l o h in
        let (r, found, returns, found') =
          on_record-eq-ok ident (λ l. (crash, l)) (attempt wishes cutoff now start)
            (λ l l' a h. ground arith) (λ r r' a h. Follows-attempt wishes cutoff now start r r' h)
            (retain_all moment l) _ o e in
        let (before, after) = attempt-phases wishes cutoff now start r o returns in
        (r, _, found, before, found', after)

  -- Once an attempt of a handoff has been written to the ledger, no later attempt of it is, whatever
  -- transactions of session_peer_core/handoff.py have come between.
  pub attempt_once :
      (m m' : Moment) (ident : String) (w w' : Wishes) (cutoff cutoff' now now' : ℕ)
      (start start' : Start) (k l : Ledger) (o o' : Option String)
      → (on_known library m ident (attempt w cutoff now start) k).0 ≡ ok o
      → Steps library (on_known library m ident (attempt w cutoff now start) k).1 l
      → ¬ ((on_known library m' ident (attempt w' cutoff' now' start') l).0 ≡ ok o')
  attempt_once m m' ident w w' cutoff cutoff' now now' start start' k l o o' first steps second =
      let (_, q, _, _, left, used) = attempt-prepared m ident w cutoff now start k first in
      let (q', kept, follows) = Kept-Steps library steps ident q left in
      let (q'', kept', follows') = Kept-retain m' l ident q' kept in
      let (r, _, found, prepared, _, _) =
        attempt-prepared m' ident w' cutoff' now' start' l second in
      let same = some-injective q'' r (sym kept' ∙ found) in
      let again =
        follows.not_again (follows'.not_again (rw (ap (λ r. is_prepared r.phase) same) prepared)) in
      ground arith
