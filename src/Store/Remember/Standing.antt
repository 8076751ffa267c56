-- ===== src/Store/Remember/Standing.antt =====
-- Staging an invitation changes no standing; remembering a confirmed one pairs the inviting device,
-- unless it was revoked.
use session_peer.Common.{
  ℕ, String, ◌≡◌, ◌≢◌, refl, Bool, true, Option, none, some, ◌==◌, string_eq, eq_iff, arith, ok,
  ◌>>◌, Outcome-cases, ◌⊎◌, inl, inr, Option-cases, Bool-cases, if◌then◌else◌,
}
use session_peer.Common.Sql.{delete, find-insert, find-delete_self, find-delete_ne}
use session_peer.Common.Json.{Json}
use session_peer.Store.State.{
  Store, Peer, PeerStatus, paired, Platform, Invitation, Reservation, is_pending_peer,
}
use session_peer.Store.Keys.{find_peer, register_key}
use session_peer.Store.Prepare.{insert_reservation}
use session_peer.Store.Pairing.{find_owner}
use session_peer.Store.Pairing.Standing.{
  standing, IsKeyed, IsQuiet, IsQuiet-same, insert-IsKeyed, delete-IsKeyed,
}
use session_peer.Store.Remember.{
  generation_of, forget_reservation, is_pinned, peer_row, stage_trust, reserve_staged, put_peer,
  check_stage_owner, check_remembered, settle_remembered, stage_pending, stage_existing,
  stage_locked, remember_locked,
}

status-cases : (x : PeerStatus) → (x ≡ PeerStatus.pending) ⊎ (x ≡ paired) ⊎ (x ≡ PeerStatus.revoked)
status-cases PeerStatus.pending = inl refl
status-cases paired = inr (inl refl)
status-cases PeerStatus.revoked = inr (inr refl)

pub register_key-peers :
    (platform : Platform) (owner cert : String) (g : Json) (s : Store)
    → (register_key platform owner cert g s).1.peers ≡ s.peers
unfolding register_key
register_key-peers platform owner cert g s = ground arith

insert_reservation-peers :
    (r : Reservation) (s : Store) → (insert_reservation r s).1.peers ≡ s.peers
unfolding insert_reservation
insert_reservation-peers r s = ground arith

check_stage_owner-reads :
    (i : Invitation) (key : String) (o : Option Peer) (r : Option Reservation) (s : Store)
    → (check_stage_owner i key o r s).1 ≡ s
unfolding check_stage_owner
check_stage_owner-reads i key o r s = ground arith

reserve_staged-peers :
    (i : Invitation) (key : String) (o : Option Peer) (had : Bool) (r : Option Reservation)
    (s : Store)
    → (reserve_staged i key o had r s).1.peers ≡ s.peers
unfolding reserve_staged
reserve_staged-peers i key o had none s = insert_reservation-peers _ s
reserve_staged-peers i key o had (some r) s = refl

stage_trust-peers :
    (platform : Platform) (i : Invitation) (o : Option Peer) (key : String) (s : Store)
    → (stage_trust platform i o key s).1.peers ≡ s.peers
unfolding stage_trust
stage_trust-peers platform i o key s =
    grind (arith, register_key-peers, reserve_staged-peers, check_stage_owner-reads)

put_peer-peers :
    (i : Invitation) (status : PeerStatus) (expires : ℕ) (s t : Store)
    → t.peers ≡ s.peers
    → (put_peer i status expires t).peers ≡ (put_peer i status expires s).peers
unfolding put_peer
put_peer-peers i status expires s t e = rw e

stage_pending-peers :
    (platform : Platform) (i : Invitation) (o : Option Peer) (s : Store)
    → ((stage_pending platform i o s).1.peers ≡ s.peers)
      ⊎ ((stage_pending platform i o s).1.peers ≡ (put_peer i PeerStatus.pending i.expires s).peers)
unfolding stage_pending
stage_pending-peers platform i o s =
    grind (arith, stage_trust-peers, put_peer-peers i PeerStatus.pending i.expires s)

put_peer-IsKeyed :
    (i : Invitation) (status : PeerStatus) (expires : ℕ) (s : Store)
    → IsKeyed s.peers
    → IsKeyed (put_peer i status expires s).peers
unfolding put_peer
put_peer-IsKeyed i status expires s k =
    insert-IsKeyed _ (delete (λ p. p.id == i.device) s.peers)
      (delete-IsKeyed (λ p. p.id == i.device) s.peers k)
      (find-delete_self (λ p. p.id == i.device) s.peers)

find_peer-put_peer :
    (i : Invitation) (status : PeerStatus) (expires : ℕ) (s : Store) (q : String)
    → standing q (put_peer i status expires s) ≡ (
        if i.device == q
        then (if is_pending_peer status then none else some status)
        else standing q s)
unfolding put_peer
find_peer-put_peer i status expires s q = elim (Bool-cases (i.device == q)) [
  | inl e ↦ rw (← (eq_iff i.device q).0 e) (
      ground (
        arith,
        eq_iff i.device i.device,
        find-delete_self (λ p. p.id == i.device) s.peers,
        find-insert (λ p. p.id == i.device) (peer_row i status expires)
            (delete (λ p. p.id == i.device) s.peers),
      ))
  | inr e ↦ ground (
    arith,
    find-delete_ne (λ p. p.id == i.device) (λ p. p.id == q) s.peers
        (λ r h. ground (arith, eq_iff r.id q, eq_iff r.id i.device, eq_iff i.device q)),
    find-insert (λ p. p.id == q) (peer_row i status expires)
        (delete (λ p. p.id == i.device) s.peers),
  )
]

-- a staged device is left pending, and was absent or pending before
put_pending-IsQuiet :
    (i : Invitation) (s t : Store)
    → standing i.device s ≡ none
    → t.peers ≡ (put_peer i PeerStatus.pending i.expires s).peers
    → IsQuiet s t
put_pending-IsQuiet i s t absent e = record {
  keyed = λ k. rw e (put_peer-IsKeyed i PeerStatus.pending i.expires s k);
  same = λ k q.
      ground (arith, find_peer-put_peer i PeerStatus.pending i.expires s q, eq_iff i.device q);
}

stage_pending-IsQuiet :
    (platform : Platform) (i : Invitation) (o : Option Peer) (s : Store)
    → standing i.device s ≡ none
    → IsQuiet s (stage_pending platform i o s).1
stage_pending-IsQuiet platform i o s absent = elim (stage_pending-peers platform i o s) [
  | inl e ↦ IsQuiet-same s (stage_pending platform i o s).1 e
  | inr e ↦ put_pending-IsQuiet i s (stage_pending platform i o s).1 absent e
]

stage_existing-IsQuiet :
    (platform : Platform) (i : Invitation) (p : Peer) (s : Store)
    → find_peer i.device s ≡ some p
    → IsQuiet s (stage_existing platform i p s).1
unfolding stage_existing
stage_existing-IsQuiet platform i p s found = elim (Bool-cases (p.cert == i.certificate)) [
  | inl same ↦ elim (status-cases p.status) [
    | inl e ↦ rw (same, e) (stage_pending-IsQuiet platform i (some p) s (ground arith))
    | inr (inl e) ↦ IsQuiet-same s (stage_existing platform i p s).1 (ground arith)
    | inr (inr e) ↦ IsQuiet-same s (stage_existing platform i p s).1 (ground arith)
  ]
  | inr other ↦ IsQuiet-same s (stage_existing platform i p s).1 (ground arith)
]

pub stage_locked-IsQuiet :
    (platform : Platform) (i : Invitation) (s : Store) → IsQuiet s (stage_locked platform i s).1
unfolding stage_locked
stage_locked-IsQuiet platform i s = elim (Option-cases (find_peer i.device s)) [
  | inl e ↦ rw (e, stage_locked) (stage_pending-IsQuiet platform i none s (ground arith))
  | inr (p, e) ↦ rw (e, stage_locked) (stage_existing-IsQuiet platform i p s e)
]

check_remembered_ok :
    (i : Invitation) (o : Option Peer) (r : Option Reservation) (s u : Store)
    → find_peer i.device s ≡ o
    → (check_remembered i o r u).0 ≡ ok tt
    → standing i.device s ≢ some PeerStatus.revoked
unfolding check_remembered
check_remembered_ok i none r s u e h = ground arith
check_remembered_ok i (some p) r s u e h = ground arith

check_remembered-reads :
    (i : Invitation) (o : Option Peer) (r : Option Reservation) (s : Store)
    → (check_remembered i o r s).1 ≡ s
unfolding check_remembered
check_remembered-reads i o r s = ground arith

settle_remembered-peers :
    (i : Invitation) (o : Option Peer) (s : Store)
    → ((settle_remembered i o s).1.peers ≡ s.peers)
      ⊎ ((settle_remembered i o s).1.peers ≡ (put_peer i paired 0 s).peers)
unfolding settle_remembered forget_reservation
settle_remembered-peers i o s = ground arith

-- the part of `_remember_locked` after the pin and the checks
remember_rest-peers :
    (platform : Platform) (i : Invitation) (o : Option Peer) (s : Store)
    → let t =
        ((register_key platform i.device i.certificate (generation_of i) >> settle_remembered i o)
          s).1 in
      (t.peers ≡ s.peers) ⊎ (t.peers ≡ (put_peer i paired 0 s).peers)
remember_rest-peers platform i o s =
    let u = (register_key platform i.device i.certificate (generation_of i) s).1 in
    let same = register_key-peers platform i.device i.certificate (generation_of i) s in
    ground (arith, same, settle_remembered-peers i o u, put_peer-peers i paired 0 s u same)

-- What `_remember_locked` does to the table of peers.
remember_locked-peers :
    (platform : Platform) (i : Invitation) (s : Store)
    → let t = (remember_locked platform i s).1 in
      (t.peers ≡ s.peers)
      ⊎ ((t.peers ≡ (put_peer i paired 0 s).peers)
          × (standing i.device s ≢ some PeerStatus.revoked)
          × ((key : String) × (platform.fingerprint i.certificate ≡ some key)
              × (is_pinned i key ≡ true)))
unfolding remember_locked
remember_locked-peers platform i s = elim (Option-cases (platform.fingerprint i.certificate)) [
  | inl e ↦ inl (ground arith)
  | inr (key, e) ↦ elim (Bool-cases (is_pinned i key)) [
    | inr off ↦ inl (ground arith)
    | inl pin ↦
        let o = find_peer i.device s in
        let r = find_owner i.device s in
        elim (Outcome-cases (check_remembered i o r s).0) [
          | inr (inl (x, e')) ↦ inl (ground (arith, check_remembered-reads i o r s))
          | inr (inr e') ↦ inl (ground (arith, check_remembered-reads i o r s))
          | inl (x, e') ↦ elim (remember_rest-peers platform i o s) [
            | inl same ↦ inl (ground (arith, check_remembered-reads i o r s))
            | inr wrote ↦ inr (
              ground (arith, check_remembered-reads i o r s),
              check_remembered_ok i o r s s refl e',
              (key, e, pin),
            )
          ]
        ]
  ]
]

-- Remembering changes nothing of the standing of a device, unless it pairs the device of the
-- invitation; and it does so only under a certificate with the pinned fingerprint, and never for a
-- device that was revoked.
pub remember_pairs :
    (platform : Platform) (i : Invitation) (s : Store) (q : String)
    → let t = (remember_locked platform i s).1 in
      (standing q t ≡ standing q s)
      ⊎ ((standing q t ≡ some paired)
          × (q ≡ i.device)
          × (standing q s ≢ some PeerStatus.revoked)
          × ((key : String) × (platform.fingerprint i.certificate ≡ some key)
              × (is_pinned i key ≡ true)))
remember_pairs platform i s q = elim (remember_locked-peers platform i s) [
  | inl e ↦ inl (ground arith)
  | inr (wrote, live, pin) ↦ elim (Bool-cases (i.device == q)) [
    | inl own ↦ rw (← (eq_iff i.device q).0 own) (
        inr (
          ground (arith, find_peer-put_peer i paired 0 s i.device, eq_iff i.device i.device),
          refl,
          live,
          pin,
        ))
    | inr other ↦ inl (ground (arith, find_peer-put_peer i paired 0 s q))
  ]
]

pub remember_locked-IsKeyed :
    (platform : Platform) (i : Invitation) (s : Store)
    → IsKeyed s.peers
    → IsKeyed (remember_locked platform i s).1.peers
remember_locked-IsKeyed platform i s k = elim (remember_locked-peers platform i s) [
  | inl e ↦ rw e k
  | inr (e, _, _) ↦ rw e (put_peer-IsKeyed i paired 0 s k)
]
