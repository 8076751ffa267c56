-- ===== src/Handoff/Receipts/Acks.antt =====
-- The acknowledgements that session_peer_core/handoff.py writes: `handoff_collect` on a receipt.
use session_peer.Common.{
  String, Bool, true, false, none, some, ◌≡◌, inl, inr, ok, arith, ltb, eq_iff, eq_refl, string_eq,
  Option-cases,
}
use session_peer.Handoff.State.{Record, Ack, Capability, is_submitted, token_possession}
use session_peer.Handoff.Texts.{Library}
use session_peer.Handoff.Transactions.{Moment}
use session_peer.Handoff.Receipts.{Reply, recorded, accept_record, cap_hash}
use session_peer.Handoff.Wire.{Wire}

module _ (library : Library) (moment : Moment) (epoch_id : String) where
  -- A receipt is answered only for the record's own generation, and with the text whose hash is in a
  -- capability that is not revoked.
  pub accept_proven :
      (classify : Bool) (wire : Wire) (r r' : Record) (a : Reply)
      → accept_record library moment epoch_id classify wire r ≡ (ok a, r')
      → (c : Capability) × (r.capability ≡ some c)
        × (c.revoked ≡ false)
        × (cap_hash library wire.epoch r.id r.generation wire.capability ≡ c.hash)
        × (r.generation ≡ some wire.generation)
  unfolding accept_record
  accept_proven classify wire r r' a h = elim (Option-cases r.capability) [
    | inl e ↦ ground arith
    | inr (c, e) ↦ (
      c,
      e,
      ground arith,
      ground (arith, eq_iff (cap_hash library wire.epoch r.id r.generation wire.capability) c.hash),
      elim (Option-cases r.generation) [
        | inl e' ↦ ground arith
        | inr (g, e') ↦ ground (arith, eq_iff g wire.generation)
      ],
    )
  ]

  -- A new acknowledgement is written only for a native submission that is known, under the clock of the
  -- capability and before it expires.
  pub accept_writes :
      (classify : Bool) (wire : Wire) (r r' : Record) (a : Reply) (c : Capability) (k : Ack)
      → accept_record library moment epoch_id classify wire r ≡ (ok a, r')
      → r.capability ≡ some c
      → r.ack ≡ none
      → r'.ack ≡ some k
      → (is_submitted r.submission ≡ true)
        × (c.clock_epoch ≡ epoch_id)
        × (ltb (moment.clock 1) c.expires ≡ true)
        × (k.assurance ≡ token_possession)
  unfolding accept_record
  accept_writes classify wire r r' a c k h e e' e'' = (
    ground (arith, eq_iff c.clock_epoch epoch_id),
    ground (arith, eq_iff c.clock_epoch epoch_id),
    ground (arith, eq_iff c.clock_epoch epoch_id),
    ground (arith, eq_iff c.clock_epoch epoch_id),
  )

-- A receipt that has been acknowledged is a duplicate at every later time and for every collector that
-- the capability is shown to, and changes nothing more.
pub acknowledged_again :
    (library : Library) (moment moment' : Moment) (epoch_id epoch_id' : String) (wire : Wire)
    (r r' : Record) (a : Reply) (k : Ack)
    → accept_record library moment epoch_id false wire r ≡ (ok a, r')
    → r'.ack ≡ some k
    → accept_record library moment' epoch_id' false wire r' ≡ (ok (recorded true false), r')
unfolding accept_record
acknowledged_again library moment moment' epoch_id epoch_id' wire r r' a k h e =
    ground (arith, eq_refl wire.receipt)

-- Nothing that a collector does with a receipt rewrites an acknowledgement.
pub accept_keeps :
    (library : Library) (moment : Moment) (epoch_id : String) (classify : Bool) (wire : Wire)
    (r r' : Record) (a : Reply) (k : Ack)
    → accept_record library moment epoch_id classify wire r ≡ (ok a, r')
    → r.ack ≡ some k
    → r' ≡ r
unfolding accept_record
accept_keeps library moment epoch_id classify wire r r' a k h e = ground arith
