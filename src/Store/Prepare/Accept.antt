-- ===== src/Store/Prepare/Accept.antt =====
-- What `prepare` checks and what it writes.
use session_peer.Common.{
  ℕ, String, ◌≡◌, refl, Bool, false, Option, none, [], ◌∷◌, ◌++◌, ◌==◌, arith, ok, rejected, crash,
  Outcome, eq_iff, string_eq, ap, ◌⊎◌, inl, inr, Bool-cases,
}
use session_peer.Common.Sql.{find-insert}
use session_peer.Common.Json.{Json, Fields, obj}
use session_peer.Store.Pairing.Standing.{IsQuiet, IsQuiet-same, insert-IsKeyed}
use session_peer.Store.State.{Store, Peer, Platform, Offer, recovery_required}
use session_peer.Store.Reasons.{Reason}
use session_peer.Store.Prepare.{
  as_text, live_invite, certificate_key, check_offer, claimed, Claim, read_claim, pending_peer,
  accept_claim, adopt_legacy_reservation, owner_of, check_peer, check_owner, prepare_claim,
  prepare_locked, prepare_value, Readings,
}
use session_peer.Store.Keys.{find_peer}

pub as_text-reads : (o : Option Json) (e : Reason) (s : Store) → (as_text o e s).1 ≡ s
unfolding as_text
as_text-reads o e s = ground arith

pub live_invite-reads :
    (platform : Platform) (now : ℕ) (o : Option Json) (ident : String) (s : Store)
    → (live_invite platform now o ident s).1 ≡ s
unfolding live_invite
live_invite-reads platform now o ident s = ground arith

pub certificate_key-reads :
    (platform : Platform) (v : Json) (s : Store) → (certificate_key platform v s).1 ≡ s
unfolding certificate_key
certificate_key-reads platform v s = ground arith

pub check_offer-reads :
    (asked : Bool) (key : String) (o : Option Offer) (s : Store) → (check_offer asked key o s).1 ≡ s
unfolding check_offer
check_offer-reads asked key o s = ground arith

pub claimed-reads : (v w : Json) (s : Store) → (claimed v w s).1 ≡ s
unfolding claimed
claimed-reads v w s = ground arith

read_claim-reads :
    (platform : Platform) (now : ℕ) (request : Fields) (s : Store)
    → (read_claim platform now request s).1 ≡ s
unfolding read_claim
read_claim-reads platform now request s = grind (
  arith, as_text-reads, live_invite-reads, certificate_key-reads, check_offer-reads, claimed-reads,
)

accept_claim-peers :
    (c : Claim) (existing : Option Peer) (owner : Option (String × String)) (accept : ℕ) (s : Store)
    → ((accept_claim c existing owner accept s).1.peers ≡ s.peers)
      ⊎ ((existing ≡ none)
          × ((accept_claim c existing owner accept s).1.peers ≡ s.peers ++ pending_peer c ∷ []))
unfolding accept_claim
accept_claim-peers c existing owner accept s = ground arith

pub adopt-peers :
    (platform : Platform) (peer key : String) (row : Peer) (invitation : Option String) (now : ℕ)
    (s : Store)
    → (adopt_legacy_reservation platform peer key row invitation now s).1.peers ≡ s.peers
unfolding adopt_legacy_reservation
adopt-peers platform peer key row invitation now s = ground arith

pub owner_of-peers :
    (platform : Platform) (c : Claim) (existing : Option Peer) (now : ℕ) (s : Store)
    → (owner_of platform c existing now s).1.peers ≡ s.peers
unfolding owner_of
owner_of-peers platform c existing now s = grind (arith, adopt-peers)

pub check_peer-reads : (c : Claim) (o : Option Peer) (s : Store) → (check_peer c o s).1 ≡ s
unfolding check_peer
check_peer-reads c o s = ground arith

pub check_owner-reads :
    (c : Claim) (o : Option Peer) (owner : Option (String × String)) (s : Store)
    → (check_owner c o owner s).1 ≡ s
unfolding check_owner
check_owner-reads c o owner s = ground arith

-- All that a claim may do to the table of peers is to add its own as pending, where there was none.
abbrev pub AddsPending : Claim → Store → Store → Type 0
AddsPending c s t =
    (t.peers ≡ s.peers) ⊎ ((find_peer c.peer s ≡ none) × (t.peers ≡ s.peers ++ pending_peer c ∷ []))

pub prepare_claim-peers :
    (platform : Platform) (c : Claim) (at : Readings) (s : Store)
    → AddsPending c s (prepare_claim platform c at s).1
unfolding prepare_claim
prepare_claim-peers platform c at s =
    grind (arith, owner_of-peers, check_peer-reads, check_owner-reads, accept_claim-peers)

AddsPending-IsQuiet : (c : Claim) (s t : Store) → AddsPending c s t → IsQuiet s t
AddsPending-IsQuiet c s t (inl e) = IsQuiet-same s t e
AddsPending-IsQuiet c s t (inr (new, e)) = record {
  keyed = λ k. rw e (insert-IsKeyed (pending_peer c) s.peers k new);
  same =
      λ k q. ground (arith, find-insert (λ p. p.id == q) (pending_peer c) s.peers, eq_iff c.peer q);
}

-- `_prepare_locked` ends without a reply and without a write, or is left with a claim.
pub prepare_locked-cases :
    (platform : Platform) (at : Readings) (request : Fields) (s : Store) (r : Outcome Reason Claim)
    → (read_claim platform at.now request s).0 ≡ r
    → ((reply : Fields)
          → (prepare_locked platform at request s
              ≡ (ok reply, (prepare_locked platform at request s).1))
          → ⊥)
        × ((prepare_locked platform at request s).1 ≡ s)
      ⊎ ((c : Claim) × (read_claim platform at.now request s ≡ (ok c, s))
          × (recovery_required s ≡ false)
          × (prepare_locked platform at request s ≡ prepare_claim platform c at s))
unfolding prepare_locked
prepare_locked-cases platform at request s (ok c) e = elim (Bool-cases (recovery_required s)) [
  | inl required ↦ inl (λ reply h. ground arith, ground arith)
  | inr free ↦ inr (
    c,
    ground (arith, read_claim-reads platform at.now request s),
    free,
    ground (arith, read_claim-reads platform at.now request s),
  )
]
prepare_locked-cases platform at request s (rejected x) e =
    inl (λ reply h. ground arith, ground (arith, read_claim-reads platform at.now request s))
prepare_locked-cases platform at request s crash e =
    inl (λ reply h. ground arith, ground (arith, read_claim-reads platform at.now request s))

-- `_prepare_locked` changes no standing, whatever the request.
pub prepare_value-IsQuiet :
    (platform : Platform) (at : Readings) (request : Json) (s : Store)
    → IsQuiet s (prepare_value platform at request s).1
unfolding prepare_value
prepare_value-IsQuiet platform at (obj request) s =
    elim (prepare_locked-cases platform at request s (read_claim platform at.now request s).0
      refl) [
        | inl (refused, e) ↦
            IsQuiet-same s (prepare_locked platform at request s).1 (ap (λ t. t.peers) e)
        | inr (c, _, _, e) ↦ rw e (
            AddsPending-IsQuiet c s (prepare_claim platform c at s).1
              (prepare_claim-peers platform c at s))
      ]
prepare_value-IsQuiet platform at _ s = IsQuiet-same s s refl
