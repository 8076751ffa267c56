-- ===== src/Handoff/Transactions/Outcomes.antt =====
-- What a transaction of session_peer_core/handoff.py leaves.
use session_peer.Common.{
  Bool, true, false, none, string_eq, ok, ◌≡◌, refl, ap, ◌⊎◌, inl, inr, Bool-cases, Option-cases,
  Outcome-cases, arith,
}
use session_peer.Handoff.State.{Ledger, LedgerAction}
use session_peer.Handoff.Texts.{Library}
use session_peer.Handoff.Transactions.{Moment, retain_all, save_refusal, is_ledger, transaction}

module _ {A : Type 0} where
  -- A transaction leaves the ledger as it was, or leaves what the body made, where the body returned.
  pub transaction-cases :
      (library : Library) (moment : Moment) (read_only : Bool) (body : LedgerAction A) (l : Ledger)
      → ((transaction library moment read_only body l).1 ≡ l)
        ⊎ ((a : A) × (body (retain_all moment l) ≡ (ok a, (body (retain_all moment l)).1))
            × ((transaction library moment read_only body l).1 ≡ (body (retain_all moment l)).1)
            × (is_ledger library l ≡ true)
            × ((transaction library moment read_only body l).0 ≡ ok a)
            × (save_refusal library (body (retain_all moment l)).1 ≡ none))
  unfolding transaction
  transaction-cases library moment read_only body l = elim (Bool-cases (is_ledger library l)) [
    | inr broken ↦ inl (rw broken refl)
    | inl valid ↦ elim (Outcome-cases (body (retain_all moment l)).0) [
      | inl (a, e) ↦ elim (Bool-cases read_only) [
        | inl unsaved ↦ inl (rw valid (rw e (rw unsaved refl)))
        | inr written ↦ elim (Option-cases (save_refusal library (body (retain_all moment l)).1)) [
          | inl saved ↦ inr (
            a,
            ap (λ o. (o, (body (retain_all moment l)).1)) e,
            rw valid (rw e (rw written (rw saved refl))),
            valid,
            rw valid (rw e (rw written (rw saved refl))),
            saved,
          )
          | inr (reason, full) ↦ inl (rw valid (rw e (rw written (rw full refl))))
        ]
      ]
      | inr (inl (reason, e)) ↦ inl (rw valid (rw e refl))
      | inr (inr e) ↦ inl (rw valid (rw e refl))
    ]
  ]

module _ {A : Type 0} where
  -- A transaction that returns has read a valid ledger, and has written what its body left.
  pub transaction-eq-ok :
      (library : Library) (moment : Moment) (body : LedgerAction A) (l : Ledger) (a : A)
      → (transaction library moment false body l).0 ≡ ok a
      → (body (retain_all moment l) ≡ (ok a, (transaction library moment false body l).1))
        × (is_ledger library l ≡ true)
        × (save_refusal library (transaction library moment false body l).1 ≡ none)
  unfolding transaction
  transaction-eq-ok library moment body l a h = elim (Bool-cases (is_ledger library l)) [
    | inr broken ↦ ground arith
    | inl valid ↦ elim (Outcome-cases (body (retain_all moment l)).0) [
      | inl (b, e) ↦ elim (Option-cases (save_refusal library (body (retain_all moment l)).1)) [
        | inl saved ↦ ground arith
        | inr (reason, full) ↦ ground arith
      ]
      | inr (inl (reason, e)) ↦ ground arith
      | inr (inr e) ↦ ground arith
    ]
  ]
