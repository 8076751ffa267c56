-- ===== src/Store/Commit.antt =====
-- `commit` and `_commit_locked` of `class Store`: a client that has proved a key over TLS ends its
-- pairing, or asks again for the receipt of an offer.

pub mod Pairs
use session_peer.Common.{
  ℕ, String, Bool, true, false, Option, none, some, List, [], ◌∷◌, ◌==◌, string_eq, ◌&&◌, ◌||◌, not,
  pure, raise, raise_if, gets, modify, or_crash, ◌>>=◌, ◌>>◌, leb, is_some, if◌then◌else◌,
}
use session_peer.Common.Sql.{update, delete}
use session_peer.Common.Json.{Json, Fields, bool, str, arr, nil, cons, put, dict}
use session_peer.Store.State.{
  Store, Action, Peer, PeerStatus, paired, Offer, OfferState, reserved, consumed, Platform,
  is_paired, is_active, is_pending_peer, recovery_required,
}
use session_peer.Store.Keys.{find_peer, principal, key_status}
use session_peer.Store.Pairing.{find_offer, find_owner, retire_invite, pairing_transaction, plain}
use session_peer.Store.Prepare.{adopt_legacy_reservation}
use session_peer.Store.Reasons.{
  Reason, invalid_client_identity, pairing_not_pending, pairing_offer_required,
  invalid_pairing_offer,
}

-- The readings of the clock, in the order in which one commit may take them.
pub record Readings : Type 0 where
  pub for_key : ℕ
  pub for_row : ℕ
  pub adopting : ℕ
  pub accept : ℕ
  pub terminal : ℕ

-- The arguments: `authenticated_key` is absent for a local call, and `invitation` in old requests.
pub record Call : Type 0 where
  pub peer : String
  pub invitation : Option String
  pub authenticated_key : Option String
  pub offer : Bool

abbrev pub key_of : Call → String
key_of c = elim c.authenticated_key [ none ↦ c.peer | some key ↦ key ]

-- pending and out of time
abbrev pub is_late : ℕ → Peer → Bool
is_late now row = is_pending_peer row.status && leb row.expires now

abbrev pub can_commit : ℕ → Peer → Bool
can_commit now row = (is_pending_peer row.status || is_paired row.status) && not (is_late now row)

pub authenticated : Call → Readings → Action String
authenticated c at = do
  owner ← principal at.for_key (key_of c)
  status ← gets (key_status (key_of c))
  raise_if (not (c.peer == key_of c || c.peer == owner) || not (is_active status))
      invalid_client_identity
  pure owner

pub row_of : String → ℕ → Action Peer
row_of peer now s = elim (find_peer peer s) [
  | none ↦ raise pairing_not_pending s
  | some row ↦ if can_commit now row then pure row s else raise pairing_not_pending s
]

pub reservation_of : Platform → Call → Readings → String → Peer → Action (Option (String × String))
reservation_of platform c at peer row s = elim (find_owner peer s) [
  | some r ↦ pure (some (r.invitation, r.client_key)) s
  | none ↦
      if is_pending_peer row.status
      then adopt_legacy_reservation platform peer (key_of c) row c.invitation at.adopting s
      else pure none s
]

-- `invitation`, filled in from the reservation where the request names none
abbrev invitation_of : Call → Option (String × String) → Option String
invitation_of c reservation = elim c.invitation [
  | some ident ↦ some ident
  | none ↦ elim reservation [ none ↦ none | some (ident, _) ↦ some ident ]
]

abbrev bound_offer : Option String → Store → Option Offer
bound_offer none s = none
bound_offer (some ident) s = find_offer ident s

-- The reservation, if there is one, is of this invitation and this key.
abbrev conflicts : Option String → String → Option (String × String) → Bool
conflicts invitation key none = false
conflicts none key (some _) = true
conflicts (some ident) key (some (reserved_ident, reserved_key)) =
    not (reserved_ident == ident && reserved_key == key)

pub base_reply : Store → Fields
base_reply s = dict (("ok", bool true) ∷ ("pairing", str "paired") ∷ ("device", str s.device) ∷ [])

offer_reply : String → Store → Fields
unfolding base_reply
offer_reply ident s =
    put "features" (arr (cons (str "pairing-offer-v1") nil))
      (put "offerId" (str ident) (base_reply s))

unfoldable pub set_paired : String → Store → Store
set_paired peer s = record s {
  peers = update (λ p. p.id == peer) (λ p. record p { status = paired; expires = 0 }) s.peers;
}

pub close_invitation : Option String → Store → Store
close_invitation none s = s
close_invitation (some ident) s =
    let t = retire_invite ident s in
    record t { reservations = delete (λ r. r.invitation == ident) t.reservations }

pub consume : ℕ → Fields → String → Store → Store
consume terminal reply ident s = record s {
  offers =
      update (λ o. o.id == ident)
        (λ o. record o { state = consumed; terminal = some terminal; receipt = some reply })
        s.offers;
}

-- the writes, once nothing is left to refuse
pub pair_peer : Readings → String → Option String → Option Offer → Action Fields
unfolding set_paired close_invitation consume offer_reply
pair_peer at peer invitation none = do
  modify (set_paired peer)
  modify (close_invitation invitation)
  gets base_reply
pair_peer at peer invitation (some o) = do
  modify (set_paired peer)
  modify (close_invitation invitation)
  reply ← gets (offer_reply o.id)
  modify (consume at.terminal reply o.id)
  pure reply

-- the checks after the offer's own, and the writes
conclude :
    Call
    → Readings
    → String
    → Peer
    → Option String
    → Option (String × String)
    → Option Offer
    → Action Fields
conclude c at peer row invitation reservation bound = do
  raise_if (conflicts invitation (key_of c) reservation) pairing_not_pending
  raise_if (is_pending_peer row.status && not (is_some reservation)) pairing_not_pending
  raise_if (is_late at.accept row) pairing_not_pending
  pair_peer at peer invitation bound

-- The request is not this offer's client asking for this offer.
abbrev is_strange : Call → String → Offer → Bool
is_strange c peer o =
    not c.offer
    || not (is_some c.authenticated_key)
    || not (is_some c.invitation)
    || not (o.client_key == key_of c && o.principal == peer)

abbrev is_consumed : OfferState → Bool
is_consumed consumed = true
is_consumed _ = false

abbrev is_reserved : OfferState → Bool
is_reserved reserved = true
is_reserved _ = false

pub settle :
    Call → Readings → String → Peer → Option (String × String) → Option Offer → Action Fields
settle c at peer row reservation none s =
    if c.offer
    then raise invalid_pairing_offer s
    else conclude c at peer row (invitation_of c reservation) reservation none s
settle c at peer row reservation (some o) s =
    if is_strange c peer o
    then raise pairing_offer_required s
    else if is_consumed o.state && is_paired row.status
    then or_crash o.receipt s
    else if is_reserved o.state
    then conclude c at peer row (invitation_of c reservation) reservation (some o) s
    else raise pairing_not_pending s

pub commit_row : Platform → Call → Readings → String → Peer → Action Fields
commit_row platform c at peer row = do
  reservation ← reservation_of platform c at peer row
  bound ← gets (bound_offer (invitation_of c reservation))
  settle c at peer row reservation bound

unfoldable pub commit_locked : Platform → Call → Readings → Action Fields
commit_locked platform c at = do
  raise_if (← gets recovery_required) Reason.recovery_required
  peer ← authenticated c at
  row ← row_of peer at.for_row
  commit_row platform c at peer row

unfoldable pub commit : Platform → ℕ → Call → Readings → Action Fields
unfolding commit_locked
commit platform now c at = pairing_transaction plain now (commit_locked platform c at)
