-- ===== src/Recovery/Repeats.antt =====
-- Operations of session_peer_relay/recovery.py that are sent again.
use session_peer.Common.{
  String, Bool, true, false, none, some, ◌≡◌, inl, inr, ok, arith, Option-cases, eq_refl, string_eq,
  ◌==◌,
}
use session_peer.Common.Text.{is_hex64}
use session_peer.Common.Sql.{find, find-insert}
use session_peer.Store.State.{Platform}
use session_peer.Recovery.State.{Plan, Device, Notary, Report, Classification, Operation}
use session_peer.Recovery.Reconcile.{reconcile, reconcile_new, reconciled, digest_of, is_operation}
use session_peer.Recovery.Status.{load, save, status, report}

module _ (platform : Platform) (notary : Notary) where
  reconciled-finds :
      (is_native : Bool) (operation peer request : String) (c : Classification) (p : Plan)
      → find (is_operation platform notary operation) p.operations ≡ none
      → find
          (is_operation platform notary operation)
          (reconciled platform notary is_native operation peer request c p).operations
        ≡ some
            (record { id = operation; digest = digest_of platform notary is_native peer request c })
  reconciled-finds true operation peer request c p e = ground (
    arith,
    eq_refl operation,
    find-insert (is_operation platform notary operation)
        (record { id = operation; digest = digest_of platform notary true peer request c })
        p.operations,
  )
  reconciled-finds false operation peer request c p e = ground (
    arith,
    eq_refl operation,
    find-insert (is_operation platform notary operation)
        (record { id = operation; digest = digest_of platform notary false peer request c })
        p.operations,
  )

  -- a plan in which the operation stands with its digest
  Remembers : String → String → Device → Type 0
  Remembers operation digest d =
      (p : Plan) × (d.plan ≡ some p)
      × (o : Operation) × (find (is_operation platform notary operation) p.operations ≡ some o)
      × ((o.digest == digest) ≡ true)

  remembered :
      (authenticated : Bool) (operation : String) (is_native : Bool) (peer request : String)
      (c : Classification) (d d' : Device) (r : Report)
      → reconcile platform notary authenticated operation is_native peer request c d ≡ (ok r, d')
      → Remembers operation (digest_of platform notary is_native peer request c) d'
  unfolding reconcile load reconcile_new save status Remembers
  remembered authenticated operation is_native peer request c d d' r h =
      elim (Option-cases d.plan) [
        | inl e ↦ ground arith
        | inr (p, e) ↦
            elim (Option-cases (find (is_operation platform notary operation) p.operations)) [
              | inr (o, e') ↦ (p, ground arith, o, e', ground arith)
              | inl e' ↦ (
                reconciled platform notary is_native operation peer request c p,
                ground arith,
                record {
                  id = operation;
                  digest = digest_of platform notary is_native peer request c;
                },
                reconciled-finds is_native operation peer request c p e',
                eq_refl (digest_of platform notary is_native peer request c),
              )
            ]
      ]

  checked :
      (authenticated : Bool) (operation : String) (is_native : Bool) (peer request : String)
      (c : Classification) (d d' : Device) (r : Report)
      → reconcile platform notary authenticated operation is_native peer request c d ≡ (ok r, d')
      → (platform.is_uuid4 operation ≡ true)
        × (platform.is_uuid4 request ≡ true)
        × (is_hex64 peer ≡ true)
  unfolding reconcile
  checked authenticated operation is_native peer request c d d' r h =
      (ground arith, ground arith, ground arith)

  -- A reconciliation that has been answered is answered again with the plan as it stands, and nothing is
  -- written.
  pub reconcile_again :
      (authenticated again : Bool) (operation : String) (is_native : Bool) (peer request : String)
      (c : Classification) (d d' : Device) (r : Report)
      → reconcile platform notary authenticated operation is_native peer request c d ≡ (ok r, d')
      → (p : Plan) × (d'.plan ≡ some p)
        × (reconcile platform notary again operation is_native peer request c d'
            ≡ (ok (report again p), d'))
  unfolding reconcile load status Remembers
  reconcile_again authenticated again operation is_native peer request c d d' r h =
      let (p, e, o, found, same) =
        remembered authenticated operation is_native peer request c d d' r h in
      let (u, v, x) = checked authenticated operation is_native peer request c d d' r h in
      (p, e, ground arith)
