-- ===== src/Store/Prepare.antt =====
-- `prepare`, `_prepare_locked` and `_adopt_legacy_reservation_locked` of `class Store`: a client
-- without a certificate of ours presents an invitation and asks to be paired.
mod Tests
pub mod Accept
pub mod Proven
pub mod Sound
use session_peer.Common.{
  ℕ, ◌+◌, String, Bool, true, false, Option, none, some, List, [], ◌∷◌, ◌==◌, nat_eq, string_eq,
  ◌&&◌, ◌||◌, not, pure, raise, raise_if, gets, modify, fail, or_crash, or_reject, ◌>>=◌, ◌>>◌, ltb,
  leb, length, is_some, if◌then◌else◌,
}
use session_peer.Common.Sql.{find, insert, update, select, exists}
use session_peer.Common.Json.{
  Json, Fields, null, bool, num, str, arr, obj, nil, cons, get, get_or, put, dict, is_true,
}
use session_peer.Common.Text.{codes, is_hex64}
use session_peer.Store.State.{
  Store, Action, Invite, Peer, PeerStatus, PeerKey, KeyStatus, active, Offer, OfferState, reserved,
  Reservation, Platform, is_paired, is_active, is_open_or_reserved, is_pending_peer,
  is_revoked_peer, recovery_required,
}
use session_peer.Store.Keys.{find_peer, find_key, as_generation, new_key, add_key}
use session_peer.Store.Pairing.{
  find_invite, find_offer, find_owner, is_for, pairing_transaction, Mode,
}
use session_peer.Store.Reasons.{
  Reason, invalid_invitation, invalid_certificate, pairing_offer_required, invalid_pairing_offer,
  invalid_principal, invalid_client_identity, unproven_principal, invitation_already_reserved,
  revoked_device, principal_already_paired, invitation_consumed, peer_already_reserved,
  key_already_used,
}

-- `INSERT INTO pairing_reservations`: `peer` is its key, and `invitation` is unique
unfoldable pub insert_reservation : Reservation → Action Unit
insert_reservation r s =
    if exists (λ x. x.peer == r.peer || x.invitation == r.invitation) s.reservations
    then fail s
    else modify (λ t. record t { reservations = insert r t.reservations }) s

-- `peer_keys` has this row with these columns
abbrev anchors : String → String → ℕ → Option PeerKey → Bool
anchors peer cert generation none = false
anchors peer cert generation (some k) =
    k.principal == peer && k.cert == cert && k.generation == generation && is_active k.status

-- The one live invitation that a pending peer of an old version waits on, if it is provably that.
legacy_invite : String → Peer → Option String → ℕ → Store → Option Invite
legacy_invite peer existing invitation now s =
    elim (select (λ i. is_for i.peer peer && ltb now i.expires) s.invites) [
      | [] ↦ none
      | i ∷ more ↦
          if is_some (find_offer i.id s)
            || not (length more == 0)
            || not (i.expires == existing.expires)
            || elim invitation [ none ↦ false | some ident ↦ not (ident == i.id) ]
            || exists (λ r. r.invitation == i.id) s.reservations
          then none
          else some i
    ]

-- the certificate's own active key row
abbrev is_anchored : String → String → Option PeerKey → Bool
is_anchored peer cert none = false
is_anchored peer cert (some k) = k.principal == peer && k.cert == cert && is_active k.status

adopt_invite : String → String → Option Invite → Action (Option (String × String))
unfolding insert_reservation
adopt_invite peer key none = pure none
adopt_invite peer key (some i) =
    insert_reservation (record {
      peer = peer;
      invitation = i.id;
      client_key = key;
      created_peer = true;
      created_key = false;
    })
    >> pure (some (i.id, key))

module _ (platform : Platform) where
  unfoldable pub adopt_legacy_reservation :
      String → String → Peer → Option String → ℕ → Action (Option (String × String))
  unfolding adopt_invite legacy_invite
  adopt_legacy_reservation peer key existing invitation now s =
      if not (is_pending_peer existing.status)
      then pure none s
      else elim (platform.fingerprint existing.cert) [
        | none ↦ fail s
        | some own ↦
            if not (own == key) || not (is_anchored peer existing.cert (find_key key s))
            then pure none s
            else adopt_invite peer key (legacy_invite peer existing invitation now s) s
      ]

pub as_text : Option Json → Reason → Action String
as_text (some (str x)) e s = pure x s
as_text _ e s = raise e s

-- The invitation is there, has not expired, and its secret is known.
pub live_invite : Platform → ℕ → Option Json → String → Action Invite
live_invite platform now (some (str secret)) ident s = elim (find_invite ident s) [
  | none ↦ raise invalid_invitation s
  | some row ↦
      if leb row.expires now || not (row.hash == platform.sha256 secret)
      then raise invalid_invitation s
      else pure row s
]
live_invite platform now _ ident s = raise invalid_invitation s

-- The certificate's text and fingerprint.
pub certificate_key : Platform → Json → Action (String × String)
certificate_key platform (str pem) s =
    if ltb 8192 (length (codes pem))
    then raise invalid_certificate s
    else elim (platform.fingerprint pem) [
      | none ↦ raise invalid_certificate s
      | some key ↦ pure (pem, key) s
    ]
certificate_key platform _ s = raise invalid_certificate s

-- `bool(offer) != (request.get('offer') is True)`, and the offer's own key and state
pub check_offer : Bool → String → Option Offer → Action Unit
check_offer asked key none = raise_if asked pairing_offer_required
check_offer asked key (some o) =
    raise_if (not asked) pairing_offer_required
    >> raise_if (not (o.client_key == key) || not (is_open_or_reserved o.state))
        invalid_pairing_offer

pub claimed : Json → Json → Action (String × ℕ)
claimed (str peer) generation s = elim (as_generation generation) [
  | none ↦ raise invalid_principal s
  | some n ↦ if is_hex64 peer then pure (peer, n) s else raise invalid_principal s
]
claimed _ generation s = raise invalid_principal s

-- What a request comes down to before the tables of trust are read.
pub record Claim : Type 0 where
  pub invite : Invite
  pub pem : String
  pub key : String
  pub offer : Option Offer
  pub peer : String
  pub generation : ℕ

abbrev pub disagrees : Option Offer → String → ℕ → Bool
disagrees none peer generation = false
disagrees (some o) peer generation = not (o.principal == peer && o.generation == generation)

pub read_claim : Platform → ℕ → Fields → Action Claim
read_claim platform now request = do
  ident ← as_text (get "invitation" request) invalid_invitation
  row ← live_invite platform now (get "secret" request) ident
  found ← certificate_key platform (get_or "certificate" (str "") request)
  let pem = found.0
  let key = found.1
  offer ← gets (find_offer ident)
  check_offer (is_true (get_or "offer" null request)) key offer
  who ← claimed (get_or "principal" (str key) request) (get_or "generation" (num 0) request)
  let peer = who.0
  let generation = who.1
  raise_if (disagrees offer peer generation) invalid_client_identity
  pure (record {
    invite = row;
    pem = pem;
    key = key;
    offer = offer;
    peer = peer;
    generation = generation;
  })

-- The invitation's own reservation names another peer.
abbrev pub is_reserved_for_other : Option String → String → Bool
is_reserved_for_other none peer = false
is_reserved_for_other (some p) peer = not (p == "") && not (p == peer)

abbrev is_reserved : Option String → Bool
is_reserved none = false
is_reserved (some p) = not (p == "")

pub check_peer : Claim → Option Peer → Action Unit
check_peer c none = pure tt
check_peer c (some p) =
    raise_if (is_revoked_peer p.status) revoked_device
    >> raise_if (not (p.cert == c.pem)) principal_already_paired
    >> raise_if (is_reserved c.invite.peer && is_paired p.status) invitation_consumed

abbrev as_owner : Option Reservation → Option (String × String)
as_owner none = none
as_owner (some r) = some (r.invitation, r.client_key)

-- The reservation of the peer, adopted from an old version where that is proved.
pub owner_of : Platform → Claim → Option Peer → ℕ → Action (Option (String × String))
owner_of platform c existing now s = elim (find_owner c.peer s) [
  | some r ↦ pure (some (r.invitation, r.client_key)) s
  | none ↦ elim existing [
    | none ↦ pure none s
    | some p ↦ adopt_legacy_reservation platform c.peer c.key p (some c.invite.id) now s
  ]
]

pub check_owner : Claim → Option Peer → Option (String × String) → Action Unit
check_owner c existing (some (invitation, key)) =
    raise_if (not (invitation == c.invite.id && key == c.key)) peer_already_reserved
    >> raise_if (elim existing [ none ↦ false | some p ↦ is_paired p.status ])
        principal_already_paired
check_owner c existing none =
    raise_if (elim existing [ none ↦ false | some p ↦ is_pending_peer p.status ])
      peer_already_reserved
    >> raise_if (elim existing [ none ↦ false | some p ↦ is_paired p.status ])
        principal_already_paired

abbrev is_used_key : String → Option PeerKey → Bool
is_used_key peer none = false
is_used_key peer (some k) = not (k.principal == peer && is_active k.status)

abbrev pub both_rights : List String
both_rights = "list" ∷ "send" ∷ []

abbrev pub pending_peer : Claim → Peer
pending_peer c = record {
  id = c.peer;
  cert = c.pem;
  status = PeerStatus.pending;
  expires = c.invite.expires;
  routes = obj (dict []);
  capabilities = both_rights;
}

add_pending : Claim → Option Peer → Store → Store
add_pending c (some p) s = s
add_pending c none s = record s { peers = insert (pending_peer c) s.peers }

reserve : Claim → Option Peer → Bool → Option (String × String) → Action Unit
unfolding insert_reservation
reserve c existing had_key (some owner) = pure tt
reserve c existing had_key none = insert_reservation (record {
  peer = c.peer;
  invitation = c.invite.id;
  client_key = c.key;
  created_peer = not (is_some existing);
  created_key = not had_key;
})

reserve_offer : Claim → Store → Store
reserve_offer c s = elim c.offer [
  | none ↦ s
  | some _ ↦ record s {
    offers = update (λ o. o.id == c.invite.id) (λ o. record o { state = reserved }) s.offers;
  }
]

take_invite : Claim → Store → Store
take_invite c s = record s {
  invites = update (λ i. i.id == c.invite.id) (λ i. record i { peer = some c.peer }) s.invites;
}

abbrev pairing_features : Json
pairing_features = arr (cons (str "identity-rotation-v1") (cons (str "pairing-offer-v1") nil))

prepared_reply : Claim → Store → Fields
prepared_reply c s =
    let reply = dict (
      ("ok", bool true)
      ∷ ("pairing", str "pending")
      ∷ ("device", str s.device)
      ∷ ("features", pairing_features)
      ∷ []) in
    elim c.offer [ none ↦ reply | some _ ↦ put "offerId" (str c.invite.id) reply ]

-- everything up to the acceptance check, then the writes
pub accept_claim : Claim → Option Peer → Option (String × String) → ℕ → Action Fields
unfolding add_pending reserve reserve_offer take_invite prepared_reply
accept_claim c existing owner accept = do
  had_key ← gets (find_key c.key)
  raise_if (is_used_key c.peer had_key) key_already_used
  raise_if (leb c.invite.expires accept) invalid_invitation
  modify (take_invite c)
  modify (add_key (new_key c.key c.peer c.pem c.generation active))
  reserve c existing (is_some had_key) owner
  modify (add_pending c existing)
  modify (reserve_offer c)
  gets (prepared_reply c)

-- `now` is the first reading of the clock, `adopting` the one of `_adopt_legacy_reservation_locked`,
-- and `accept` the last.
pub record Readings : Type 0 where
  pub now : ℕ
  pub adopting : ℕ
  pub accept : ℕ

pub prepare_claim : Platform → Claim → Readings → Action Fields
prepare_claim platform c at = do
  anchor ← gets (find_key c.key)
  raise_if
      ((not (c.peer == c.key) || not (c.generation == 0))
        && not (anchors c.peer c.pem c.generation anchor))
      unproven_principal
  raise_if (is_reserved_for_other c.invite.peer c.peer) invitation_already_reserved
  existing ← gets (find_peer c.peer)
  check_peer c existing
  owner ← owner_of platform c existing at.adopting
  check_owner c existing owner
  accept_claim c existing owner at.accept

pub prepare_locked : Platform → Readings → Fields → Action Fields
prepare_locked platform at request = do
  raise_if (← gets recovery_required) Reason.recovery_required
  c ← read_claim platform at.now request
  prepare_claim platform c at

pub prepare_value : Platform → Readings → Json → Action Fields
prepare_value platform at (obj request) = prepare_locked platform at request
prepare_value platform at _ = raise invalid_invitation

-- `type(request) is dict and request.get('invitation')`, else None
abbrev attempted : Json → Json
attempted (obj request) = get_or "invitation" null request
attempted _ = null

unfoldable pub prepare : Platform → ℕ → Readings → Json → Action Fields
prepare platform now at request =
    pairing_transaction
      (record { creation = false; attempt = some (attempted request); read_only = false }) now
      (prepare_value platform at request)
