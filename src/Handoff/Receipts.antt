-- ===== src/Handoff/Receipts.antt =====
-- `handoff_cap_hash`, and what `handoff_collect` does with the record that a frame names. Random bytes are
-- an argument.
pub mod Acks
use session_peer.Common.{
  ℕ, suc, String, Bool, true, false, Option, none, some, List, [], ◌∷◌, ◌+◌, ◌==◌, string_eq,
  nat_eq, ◌&&◌, ◌||◌, not, leb, ltb, length, is_some, if◌then◌else◌, pure, raise, raise_if, gets,
  modify, or_reject, ◌>>=◌, ◌>>◌,
}
use session_peer.Common.Text.{codes, every}
use session_peer.Common.Json.{
  Json, Fields, null, str, nil, cons, at, has_exactly, is_true, is_text, is_upto,
}
use session_peer.Handoff.State.{
  Record, Wait, Ack, Capability, PendingReceipt, LedgerAction, RecordAction, satisfied,
  timed_out_unknown, token_possession, invalid_receipt, invalid_correlation_id,
  receipt_authority_unavailable, receipt_authority_expired, receipt_conflict,
  receipt_submission_unconfirmed, receipt_order_unprovable, is_prepared, is_attempted, is_submitted,
  is_pending, is_token,
}
use session_peer.Handoff.Texts.{Library, is_uuid, is_identifier}
use session_peer.Handoff.Transactions.{Moment, same_optional, day}
use session_peer.Handoff.Wire.{
  Wire, uuid_of, identifier_of, is_base64, is_version_1, epoch_keys, is_token_text, token_of,
  private_wire, confirmation_wire,
}

-- The answers to frames, each with "ok": True
pub data Reply : Type 0 where
  clock : String → Reply
  minted : String → String → Reply
  recorded : Bool → Bool → Reply

module _ (library : Library) where
  abbrev optional_text : Option String → Json
  optional_text none = null
  optional_text (some s) = str s

  unfoldable pub cap_hash : String → String → Option String → String → String
  cap_hash epoch correlation generation cap = library.sha256 (
      library.dumps (
        cons (str epoch)
          (cons (str correlation) (cons (optional_text generation) (cons (str cap) nil)))))

  module _ (moment : Moment) (epoch_id : String) where
    abbrev is_mint_expired : Record → Bool
    is_mint_expired r =
        not (is_some r.history_boot)
        || not (same_optional r.history_boot moment.boot)
        || ltb (moment.clock 1) r.created
        || leb (r.created + day) (moment.clock 1)

    -- `frame["op"] == "mint"` for the record that it names; `token` is the text of 32 random bytes.
    unfoldable pub mint_record : String → String → String → RecordAction Reply
    unfolding cap_hash
    mint_record token epoch generation = do
      r ← gets (λ r. r)
      raise_if
          (not (same_optional r.generation (some generation))
            || not (is_prepared r.phase)
            || is_some r.capability)
          receipt_authority_unavailable
      raise_if (is_mint_expired r) receipt_authority_expired
      modify (λ r. record r {
        capability = some (record {
          hash = cap_hash epoch r.id r.generation token;
          clock_epoch = epoch_id;
          expires = r.created + day;
          revoked = false;
        });
      })
      pure (minted token epoch_id)

    abbrev classify_wait : ℕ → Bool → Wait → Wait
    classify_wait n false w = w
    classify_wait n true w = record w {
      status = if leb w.deadline (moment.clock n) then timed_out_unknown else satisfied;
    }

    -- `for wait in waits`, reading the clock anew for each wait that is pending
    unfoldable pub classify_waits : ℕ → List Wait → List Wait
    classify_waits n [] = []
    classify_waits n (w ∷ ws) =
        let counts = is_pending w.status && same_optional w.clock_epoch (some epoch_id) in
        classify_wait n counts w ∷ classify_waits (if counts then suc n else n) ws

    abbrev is_of_clock : List Wait → Bool
    is_of_clock [] = true
    is_of_clock (w ∷ _) = same_optional w.clock_epoch (some epoch_id)

    abbrev is_late : ℕ → List Wait → Bool
    is_late now [] = false
    is_late now (w ∷ _) = leb w.deadline now

    abbrev receipt_of : Option PendingReceipt → String → String
    receipt_of none receipt = receipt
    receipt_of (some p) receipt = p.receipt

    unfoldable acknowledge : String → Record → Record
    unfolding classify_waits
    acknowledge receipt r = record r {
      ack = some (record {
        assurance = token_possession;
        received_utc = moment.utc;
        late = is_late (moment.clock 2) r.waits;
        receipt = some (receipt_of r.receipt receipt);
        classified = some epoch_id;
      });
      receipt = none;
      waits = classify_waits 3 r.waits;
    }

    abbrev pending_of_clock : Option PendingReceipt → Bool
    pending_of_clock none = true
    pending_of_clock (some p) = p.clock_epoch == epoch_id

    unfoldable accept_submitted : String → RecordAction Reply
    unfolding acknowledge
    accept_submitted receipt = do
      r ← gets (λ r. r)
      raise_if (not (is_of_clock r.waits)) receipt_order_unprovable
      raise_if (not (pending_of_clock r.receipt)) receipt_order_unprovable
      modify (acknowledge receipt)
      pure (recorded false false)

    -- A receipt that comes before the native result is known is kept.
    unfoldable accept_early : Bool → String → RecordAction Reply
    accept_early classify receipt = do
      before ← gets (λ r. r)
      modify (λ r. record r {
        receipt =
            if not classify && is_attempted r.phase && not (is_some r.receipt)
            then some (record {
              receipt = receipt;
              clock_epoch = epoch_id;
              received = moment.clock 2;
              received_utc = moment.utc;
            })
            else r.receipt;
      })
      r ← gets (λ r. r)
      raise_if (not (is_some r.receipt && is_attempted r.phase)) receipt_submission_unconfirmed
      pure (recorded (is_some before.receipt) true)

    abbrev is_other_receipt : String → Option PendingReceipt → Bool
    is_other_receipt receipt none = false
    is_other_receipt receipt (some p) = not (p.receipt == receipt)

    unfoldable accept_first : Bool → String → Capability → RecordAction Reply
    unfolding accept_early accept_submitted
    accept_first classify receipt cap = do
      raise_if (not (cap.clock_epoch == epoch_id) || leb cap.expires (moment.clock 1))
          receipt_authority_expired
      r ← gets (λ r. r)
      if classify && not (is_some r.receipt)
          then pure (recorded false false)
          else (raise_if (not classify && is_other_receipt receipt r.receipt) receipt_conflict
              >> (if not (is_submitted r.submission)
                  then accept_early classify receipt
                  else accept_submitted receipt))

    unfoldable accept_again : Bool → String → Ack → RecordAction Reply
    accept_again classify receipt prior =
        raise_if
          (not (is_token prior.assurance)
            || (not classify && not (same_optional prior.receipt (some receipt))))
          receipt_conflict
        >> pure (recorded true false)

    abbrev pub is_unproven : String → Record → String → Capability → Bool
    is_unproven epoch r token c =
        c.revoked || not (cap_hash epoch r.id r.generation token == c.hash)

    unfoldable pub accept_record : Bool → Wire → RecordAction Reply
    unfolding accept_first accept_again
    accept_record classify wire = do
      r ← gets (λ r. r)
      raise_if (not (same_optional r.generation (some wire.generation)))
          receipt_authority_unavailable
      cap ← or_reject r.capability receipt_authority_unavailable
      raise_if (is_unproven wire.epoch r wire.capability cap) receipt_authority_unavailable
      elim r.ack [
        | some prior ↦ accept_again classify wire.receipt prior
        | none ↦ accept_first classify wire.receipt cap
      ]
