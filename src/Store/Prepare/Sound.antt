-- ===== src/Store/Prepare/Sound.antt =====
-- What an accepted preparation proves of the client and leaves behind.
use mathlib.Core.Path.{subst}
use session_peer.Common.{
  sym, ap, ◌∙◌, ℕ, ◌<◌, String, ◌≡◌, refl, Bool, true, false, Option, none, some, [], ◌∷◌, ◌++◌,
  ◌==◌, string_eq, nat_eq, eq_iff, arith, ok, >>=-eq-ok, raise_if-eq-ok, raise_if, ◌⊎◌, inl, inr,
  ◌||◌, ◌&&◌, not,
}
use session_peer.Common.Sql.{find-insert}
use session_peer.Common.Json.{Fields}
use session_peer.Store.State.{Store, is_revoked_peer, is_paired, Peer, PeerStatus, Platform}
use session_peer.Store.Keys.{find_peer, find_key}
use session_peer.Store.Reasons.{unproven_principal, invitation_already_reserved}
use session_peer.Store.Prepare.{
  Claim, read_claim, pending_peer, anchors, owner_of, check_peer, check_owner, accept_claim,
  prepare_claim, is_reserved_for_other, prepare_locked, Readings,
}
use session_peer.Store.Prepare.Accept.{
  owner_of-peers, check_peer-reads, check_owner-reads, prepare_locked-cases,
}
use session_peer.Store.Prepare.Proven.{IsProven, read_claim-IsProven}

-- What has been proved of the client when its preparation is accepted, and how it then stands: it
-- presented the secret of a live invitation with a certificate of its key; it claims no other name
-- than that key's fingerprint, unless this receiver has already bound the key to the name; the time
-- of acceptance is within the invitation; and it is pending under that certificate.
pub record IsAccepted (platform : Platform) (at : Readings) (request : Fields) (s t : Store)
    : Type 0 where
  pub claim : Claim
  pub proven : IsProven platform at.now request s claim
  pub own_name :
      ((claim.peer ≡ claim.key) × (claim.generation ≡ 0))
      ⊎ (anchors claim.peer claim.pem claim.generation (find_key claim.key s) ≡ true)
  pub in_time : at.accept < claim.invite.expires
  pub row : Peer
  pub found : find_peer claim.peer t ≡ some row
  pub waits : row.status ≡ PeerStatus.pending
  pub certified : row.cert ≡ claim.pem

check_peer_ok :
    (c : Claim) (p : Peer) (s : Store)
    → (check_peer c (some p) s).0 ≡ ok tt
    → (is_revoked_peer p.status ≡ false) × (p.cert ≡ c.pem)
unfolding check_peer
check_peer_ok c p s h = ground (arith, eq_iff p.cert c.pem)

check_owner_ok :
    (c : Claim) (p : Peer) (owner : Option (String × String)) (s : Store)
    → (check_owner c (some p) owner s).0 ≡ ok tt
    → is_paired p.status ≡ false
unfolding check_owner
check_owner_ok c p owner s h = ground arith

accept_claim_ok :
    (c : Claim) (existing : Option Peer) (owner : Option (String × String)) (accept : ℕ)
    (s t : Store) (reply : Fields)
    → accept_claim c existing owner accept s ≡ (ok reply, t)
    → (accept < c.invite.expires)
      × (t.peers ≡ elim existing [ none ↦ s.peers ++ pending_peer c ∷ [] | some _ ↦ s.peers ])
unfolding accept_claim
accept_claim_ok c existing owner accept s t reply h = ground arith

-- The client's name is its own, as `prepare` sees it.
abbrev is_unproven : Claim → Store → Bool
is_unproven c s =
    (not (c.peer == c.key) || not (c.generation == 0))
    && not (anchors c.peer c.pem c.generation (find_key c.key s))

own_name_of :
    (c : Claim) (s : Store)
    → is_unproven c s ≡ false
    → ((c.peer ≡ c.key) × (c.generation ≡ 0))
      ⊎ (anchors c.peer c.pem c.generation (find_key c.key s) ≡ true)
own_name_of c s h = ground (arith, eq_iff c.peer c.key)

module _ (platform : Platform) (at : Readings) (c : Claim) (s t : Store) (reply : Fields) where
  prepare_claim_ok :
      prepare_claim platform c at s ≡ (ok reply, t)
      → (is_unproven c s ≡ false)
        × (at.accept < c.invite.expires)
        × ((check_peer c (find_peer c.peer s) s).0 ≡ ok tt)
        × ((owner : Option (String × String)) × (u : Store) × ((check_owner c
                (find_peer c.peer s)
                owner
                u).0
              ≡ ok tt))
        × (t.peers ≡ elim (find_peer c.peer s) [
          | none ↦ s.peers ++ pending_peer c ∷ []
          | some _ ↦ s.peers
        ])
  unfolding prepare_claim
  prepare_claim_ok h =
      let existing = find_peer c.peer s in
      let (_, e1, h1) = >>=-eq-ok (raise_if (is_unproven c s) unproven_principal) _ s h in
      let (_, e2, h2) =
        >>=-eq-ok
          (raise_if (is_reserved_for_other c.invite.peer c.peer) invitation_already_reserved) _ s
          h1 in
      let (_, e3, h3) = >>=-eq-ok (check_peer c existing) _ s h2 in
      let s3 = (check_peer c existing s).1 in
      let (owner, e4, h4) = >>=-eq-ok (owner_of platform c existing at.adopting) _ s3 h3 in
      let s4 = (owner_of platform c existing at.adopting s3).1 in
      let (_, e5, h5) = >>=-eq-ok (check_owner c existing owner) _ s4 h4 in
      let s5 = (check_owner c existing owner s4).1 in
      let done = accept_claim_ok c existing owner at.accept s5 t reply h5 in
      let same = check_owner-reads c existing owner s4 in
      let peers4 = owner_of-peers platform c existing at.adopting s3 in
      let same3 = check_peer-reads c existing s in
      let peers5 = ap (λ (u : Store). u.peers) same ∙ peers4 ∙ ap (λ (u : Store). u.peers) same3 in
      (
        raise_if-eq-ok (is_unproven c s) unproven_principal s tt e1,
        done.0,
        e3,
        (owner, s4, e5),
        subst (λ l. t.peers ≡ elim existing [ none ↦ l ++ pending_peer c ∷ [] | some _ ↦ l ]) peers5
            done.1,
      )

-- the row of the claim's peer after the writes
abbrev row_after : Claim → Option Peer → Peer
row_after c none = pending_peer c
row_after c (some p) = p

found_after :
    (c : Claim) (s t : Store) (o : Option Peer)
    → find_peer c.peer s ≡ o
    → t.peers ≡ elim o [ none ↦ s.peers ++ pending_peer c ∷ [] | some _ ↦ s.peers ]
    → find_peer c.peer t ≡ some (row_after c o)
found_after c s t none e h =
    ground (arith, find-insert (λ p. p.id == c.peer) (pending_peer c) s.peers, eq_iff c.peer c.peer)
found_after c s t (some p) e h = ground arith

waits_after :
    (c : Claim) (o : Option Peer) (s u : Store) (owner : Option (String × String))
    → (check_peer c o s).0 ≡ ok tt
    → (check_owner c o owner u).0 ≡ ok tt
    → ((row_after c o).status ≡ PeerStatus.pending) × ((row_after c o).cert ≡ c.pem)
waits_after c none s u owner h k = (refl, refl)
waits_after c (some p) s u owner h k =
    ground (arith, check_peer_ok c p s h, check_owner_ok c p owner u k)

-- `_prepare_locked` answers only a client of whom all of `IsAccepted` has been proved, and leaves it
-- pending.
pub prepare_sound :
    (platform : Platform) (at : Readings) (request : Fields) (s t : Store) (reply : Fields)
    → prepare_locked platform at request s ≡ (ok reply, t)
    → IsAccepted platform at request s t
prepare_sound platform at request s t reply h =
    elim (prepare_locked-cases platform at request s (read_claim platform at.now request s).0
      refl) [
        | inl (refused, e) ↦ absurd (refused reply (ground arith))
        | inr (c, read, _, e) ↦
            let done = prepare_claim_ok platform at c s t reply (sym e ∙ h) in
            let o = find_peer c.peer s in
            let (owner, u, checked) = done.3 in
            let waits = waits_after c o s u owner done.2 checked in
            record {
              claim = c;
              proven = read_claim-IsProven platform at.now request s s c read;
              own_name = own_name_of c s done.0;
              in_time = done.1;
              row = row_after c o;
              found = found_after c s t o refl done.4;
              waits = waits.0;
              certified = waits.1;
            }
      ]
