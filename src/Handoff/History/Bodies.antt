-- ===== src/Handoff/History/Bodies.antt =====
-- The bodies of the transactions of session_peer_core/handoff.py keep the records of the ledger.
use session_peer.Common.{
  Bool-cases, inl, inr, some, String, Bool, true, false, none, ◌≡◌, ap, sym, refl, ok, crash, arith,
  raise, raise_if, ◌||◌, pure, gets, if◌then◌else◌, not, ◌==◌, string_eq,
}
use session_peer.Common.Sql.{find, find-insert}
use session_peer.Common.Json.{Json, Fields, at, has_exactly, is_text}
use session_peer.Handoff.State.{Record, Ledger, is_id, RecordAction, LedgerAction, HandoffReason}
use session_peer.Handoff.Texts.{Library}
use session_peer.Handoff.Transactions.{Moment, retain_all, transaction, on_record}
use session_peer.Handoff.Texts.{is_uuid}
use session_peer.Handoff.Intents.{check_prepared, read_record, Intent, prepare, new_record}
use session_peer.Handoff.Receipts.{clock}
use session_peer.Handoff.Wire.{uuid_of, identifier_of, private_wire}
use session_peer.Handoff.Collector.{
  collect_frame, mint_frame, accept_frame, at_epoch, as_receipt, mint_keys, classify_keys,
  is_clock_frame, is_read_only_clock,
}
use session_peer.Handoff.Send.{on_known}
use session_peer.Handoff.History.{Follows, Follows-refl, Follows-mint, Follows-accept}
use session_peer.Handoff.History.Steps.{
  Kept, Kept-refl, Keeps, Keeps-on_record, Keeps-raise_if, Keeps->>=, Kept-transaction,
  Kept-transaction_at, find-retain,
}

unchanged : (intent : Intent) (r r' a : Record) → check_prepared intent r ≡ (ok a, r') → r' ≡ r
unchanged intent r r' a h = ground arith

module _ (library : Library) where
  pub Kept-on_known :
      {A : Type 0} (moment : Moment) (ident : String) (change : RecordAction A) (l : Ledger)
      → ((r r' : Record) (a : A) → change r ≡ (ok a, r') → Follows r r')
      → Kept l (on_known library moment ident change l).1
  unfolding on_known
  Kept-on_known moment ident change l follows =
      Kept-transaction library moment false (on_record ident (λ l. (crash, l)) change)
        (Keeps-on_record ident (λ l. (crash, l)) change (λ l l' a h. ground arith) follows) l

  pub Keeps-at_epoch :
      {A : Type 0} (epoch ident : String) (change : RecordAction A)
      → ((r r' : Record) (a : A) → change r ≡ (ok a, r') → Follows r r')
      → Keeps (at_epoch epoch ident change)
  unfolding at_epoch
  Keeps-at_epoch epoch ident change follows =
      Keeps->>= (gets (λ l. l.epoch)) _ (λ l l' a h. rw (sym (ap (λ p. p.1) h)) (Kept-refl l))
        (λ current.
          Keeps->>= (raise_if (not (current == epoch)) HandoffReason.receipt_authority_unavailable)
            _ (Keeps-raise_if _ _)
            (λ _.
              Keeps-on_record ident (raise HandoffReason.receipt_authority_unavailable) change
                (λ l l' a h. ground arith) follows))

  pub Keeps-unchanged : {A : Type 0} (m : LedgerAction A) → ((l : Ledger) → (m l).1 ≡ l) → Keeps m
  Keeps-unchanged m same l l' a h = rw (sym (ap (λ p. p.1) h)) (rw (same l) (Kept-refl l))

  pub uuid_of-Keeps : (v : Json) → Keeps (uuid_of v)
  uuid_of-Keeps v = Keeps-unchanged (uuid_of v) (λ l. ground arith)

  pub identifier_of-Keeps : (v : Json) → Keeps (identifier_of v)
  identifier_of-Keeps v = Keeps-unchanged (identifier_of v) (λ l. ground arith)

  pub private_wire-Keeps : (d : Fields) → Keeps (private_wire library d)
  unfolding private_wire
  private_wire-Keeps d = Keeps-unchanged (private_wire library d) (λ l. ground arith)

  module _ (moment : Moment) (epoch_id : String) where
    pub mint_frame-Keeps :
        (token : String) (frame : Fields) → Keeps (mint_frame library moment epoch_id token frame)
    unfolding mint_frame
    mint_frame-Keeps token frame =
        Keeps->>= _ _
          (Keeps-raise_if (not (has_exactly mint_keys frame)) HandoffReason.invalid_receipt)
          (λ _. Keeps->>= _ _ (uuid_of-Keeps (at "ledgerEpoch" frame)) (λ epoch.
            Keeps->>= _ _ (uuid_of-Keeps (at "correlationId" frame)) (λ correlation.
              Keeps->>= _ _ (identifier_of-Keeps (at "targetGeneration" frame)) (λ generation.
                Keeps-at_epoch epoch correlation _ (λ r r' a h.
                  Follows-mint library moment epoch_id token epoch generation r r' h)))))

    pub accept_frame-Keeps :
        (classify : Bool) (frame : Fields)
        → Keeps (accept_frame library moment epoch_id classify frame)
    unfolding accept_frame
    accept_frame-Keeps classify frame = Keeps->>= _ _ (private_wire-Keeps frame) (λ wire.
        Keeps-at_epoch wire.epoch wire.correlation _
          (λ r r' a h. Follows-accept library moment epoch_id classify wire r r' h))

    pub Keeps-if :
        {A : Type 0} (b : Bool) (m n : LedgerAction A)
        → Keeps m
        → Keeps n
        → Keeps (if b then m else n)
    Keeps-if true m n h k = h
    Keeps-if false m n h k = k

    pub collect_frame-Keeps :
        (token : String) (frame : Fields)
        → Keeps (collect_frame library moment epoch_id token frame)
    unfolding collect_frame
    collect_frame-Keeps token frame =
        Keeps-if (is_clock_frame frame || is_read_only_clock frame) (pure (clock epoch_id)) _
          (Keeps-unchanged (pure (clock epoch_id)) (λ l. refl))
          (Keeps-if (is_text "mint" (at "op" frame))
            (mint_frame library moment epoch_id token frame) _ (mint_frame-Keeps token frame)
            (Keeps-if (is_text "classify" (at "op" frame)) _
              (accept_frame library moment epoch_id false frame)
              (Keeps->>= _ _
                (Keeps-raise_if (not (has_exactly classify_keys frame))
                  HandoffReason.invalid_receipt)
                (λ _. accept_frame-Keeps true (as_receipt frame)))
              (accept_frame-Keeps false frame)))

  pub prepare-keeps :
      (intent : Intent) (fresh : String) (moment : Moment) (l : Ledger)
      → find (is_id fresh) l.records ≡ none
      → Kept l (transaction library moment false (prepare intent none fresh moment) l).1
  unfolding prepare
  prepare-keeps intent fresh moment l unused =
      Kept-transaction_at library moment false (prepare intent none fresh moment) l
        (λ l' a h ident r e.
          let unused' = find-retain moment fresh l unused in
          let inserted =
            find-insert (is_id ident) (new_record intent fresh moment)
              (retain_all moment l).records in
          (r, rw (sym (ap (λ p. p.1) h)) (ground (arith, unused', e, inserted)), Follows-refl r))

  pub prepare_again-Keeps :
      (intent : Intent) (correlation fresh : String) (moment : Moment)
      → Keeps (prepare intent (some correlation) fresh moment)
  unfolding prepare
  prepare_again-Keeps intent correlation fresh moment =
      Keeps->>= _ _
        (Keeps-raise_if (not (is_uuid correlation)) HandoffReason.invalid_correlation_id)
        (λ _.
          Keeps-on_record correlation (raise HandoffReason.handoff_id_unknown)
            (check_prepared intent) (λ l l' a h. ground arith)
            (λ r r' a h. rw (unchanged intent r r' a h) (Follows-refl r)))

  pub Kept-read_record :
      (moment : Moment) (read_only : Bool) (correlation : String) (l : Ledger)
      → Kept l (read_record library moment read_only correlation l).1
  unfolding read_record
  Kept-read_record moment read_only correlation l =
      let body = on_record correlation (raise HandoffReason.handoff_id_unknown) (gets (λ r. r)) in
      let kept =
        Kept-transaction library moment read_only body
          (Keeps-on_record correlation (raise HandoffReason.handoff_id_unknown) (gets (λ r. r))
            (λ l l' a h. ground arith) (λ r r' a h. rw (sym (ap (λ p. p.1) h)) (Follows-refl r)))
          l in
      elim (Bool-cases (is_uuid correlation)) [ inl e ↦ rw e kept | inr e ↦ rw e (Kept-refl l) ]
