-- ===== src/Store/Offers.antt =====
-- Invitations and the offers bound to one client key: `invite`, `_invite_locked`,
-- `_offer_identity_locked`, `offer_identity`, `create_offer`, `_offer_status_locked`, `offer_status`
-- and `cancel_offer` of `class Store`. Random texts and readings of the clock are arguments.
pub mod Quiet
use session_peer.Common.{
  ℕ, ◌+◌, ◌<◌, String, Bool, true, false, Option, none, some, List, [], ◌∷◌, ◌==◌, nat_eq,
  string_eq, ◌&&◌, ◌||◌, not, ok, rejected, crash, pure, raise, raise_if, gets, modify, fail,
  or_crash, or_reject, ◌>>=◌, ◌>>◌, ltb, leb, is_some, if◌then◌else◌,
}
use session_peer.Common.Sql.{find, insert, update, count, exists}
use session_peer.Common.Json.{Json, num}
use session_peer.Common.Text.{is_hex64}
use session_peer.Store.State.{
  Store, Action, Invite, Invitation, Peer, PeerStatus, PeerKey, Offer, OfferState, opened,
  cancelled, Platform, is_paired, is_active, is_open_or_reserved, is_pending_peer, is_revoked_peer,
  recovery_required,
}
use session_peer.Store.Keys.{find_peer, find_key}
use session_peer.Store.Pairing.{
  find_invite, find_offer, release, retire_invite, pairing_transaction, Mode, plain,
}
use session_peer.Store.Reasons.{
  Reason, invalid_pairing_offer_id, pairing_offer_exists, invalid_client_key,
  client_key_unavailable, pairing_identity_changed, principal_already_paired,
  pairing_offer_capacity, invalid_pairing_link, pairing_offer_unknown,
}

pub record Identity : Type 0 where
  pub principal : String
  pub key_fingerprint : String
  pub generation : ℕ

abbrev same_identity : Identity → Identity → Bool
same_identity a b =
    a.principal == b.principal
    && a.key_fingerprint == b.key_fingerprint
    && a.generation == b.generation

-- the client key cannot be bound: it is not active, or its device is pending or revoked
abbrev is_unavailable : PeerKey → Store → Bool
is_unavailable k s = not (is_active k.status) || elim (find_peer k.principal s) [
  | none ↦ false
  | some p ↦ is_pending_peer p.status || is_revoked_peer p.status
]

unfoldable pub offer_identity_locked : String → Action Identity
offer_identity_locked expected_key s =
    if not (is_hex64 expected_key)
    then raise invalid_client_key s
    else elim (find_key expected_key s) [
      | none ↦
          pure (record { principal = expected_key; key_fingerprint = expected_key; generation = 0 })
            s
      | some k ↦
          if is_unavailable k s
          then raise client_key_unavailable s
          else pure
              (record {
                principal = k.principal;
                key_fingerprint = expected_key;
                generation = k.generation;
              })
              s
    ]

abbrev pub offer_identity : ℕ → String → Action Identity
offer_identity now expected_key = pairing_transaction plain now (offer_identity_locked expected_key)

-- What one call draws from `secrets`, `uuid` and the clock.
pub record Draw : Type 0 where
  pub secret : String
  pub ident : String
  pub now : ℕ

abbrev pub as_invitation : Draw → String → Json → Store → Invitation
as_invitation draw ident routes s = record {
  version = if s.generation == 0 then 1 else 2;
  id = ident;
  secret = draw.secret;
  expires = draw.now + 600;
  device = s.device;
  certificate = s.cert;
  routes = routes;
  key_fingerprint = if s.generation == 0 then none else some s.key_id;
  key_generation = if s.generation == 0 then none else some (num s.generation);
}

module _ (platform : Platform) where
  pub chosen_ident : Draw → Option String → Action String
  chosen_ident draw none = pure draw.ident
  chosen_ident draw (some ident) =
      if platform.is_uuid4 ident then pure ident else raise invalid_pairing_offer_id

  unfoldable pub invite_locked : Draw → Json → Option String → Action Invitation
  invite_locked draw routes offer_id = do
    raise_if (← gets recovery_required) Reason.recovery_required
    ident ← chosen_ident draw offer_id
    raise_if (← gets (λ s. is_some (find_invite ident s))) pairing_offer_exists
    modify (λ s. record s {
      invites =
          insert
            (record {
              id = ident;
              hash = platform.sha256 draw.secret;
              expires = draw.now + 600;
              peer = none;
            })
            s.invites;
    })
    gets (as_invitation draw ident routes)

  unfoldable pub invite : ℕ → Draw → Json → Action Invitation
  invite now draw routes = pairing_transaction plain now (invite_locked draw routes none)

-- `except Rejected: if expected_identity is not None: raise …`
pub identity_for : String → Option Identity → Action Identity
unfolding offer_identity_locked
identity_for expected_key none s = offer_identity_locked expected_key s
identity_for expected_key (some expected) s =
    let (r, t) = offer_identity_locked expected_key s in
    elim r [
      | ok identity ↦
          if same_identity expected identity
          then pure identity t
          else raise pairing_identity_changed t
      | rejected e ↦ raise pairing_identity_changed t
      | crash ↦ fail t
    ]

abbrev pub new_offer : String → String → Identity → ℕ → Offer
new_offer ident key identity now = record {
  id = ident;
  client_key = key;
  principal = identity.principal;
  generation = identity.generation;
  state = opened;
  created = now;
  terminal = none;
  receipt = none;
}

-- `INSERT INTO pairing_offers`, which fails on a key that is there
pub insert_offer : Offer → Action Unit
insert_offer o s =
    if is_some (find_offer o.id s)
    then fail s
    else modify (λ t. record t { offers = insert o t.offers }) s

-- `encodes` is whether `pairing_links.encode_link` accepts the invitation and the key.
module _ (platform : Platform) (encodes : Invitation → String → Bool) where
  pub create_offer_locked :
      Draw → ℕ → Json → String → Option String → Option Identity → Action Invitation
  create_offer_locked draw created routes expected_key offer_id expected_identity = do
    identity ← identity_for expected_key expected_identity
    raise_if
        (← gets (λ s. elim (find_peer identity.principal s) [
          | none ↦ false
          | some p ↦ is_paired p.status
        ]))
        principal_already_paired
    raise_if (← gets (λ s. leb 1024 (count (λ _. true) s.offers))) pairing_offer_capacity
    raise_if (← gets (λ s. leb 8 (count (λ o. is_open_or_reserved o.state) s.offers)))
        pairing_offer_capacity
    invitation ← invite_locked platform draw routes offer_id
    insert_offer (new_offer invitation.id expected_key identity created)
    raise_if (not (encodes invitation expected_key)) invalid_pairing_link
    pure invitation

  unfoldable pub create_offer :
      ℕ → Draw → ℕ → Json → String → Option String → Option Identity → Action Invitation
  create_offer now draw created routes expected_key offer_id expected_identity =
      pairing_transaction (record plain { creation = true }) now
        (create_offer_locked draw created routes expected_key offer_id expected_identity)

pub record OfferStatus : Type 0 where
  pub offer_id : String
  pub status : OfferState
  pub expires : ℕ
  pub client : Identity

-- `pairing_offers o JOIN invites i ON i.id=o.id WHERE o.id=?`
unfoldable pub offer_status_locked : String → Action OfferStatus
offer_status_locked ident s = elim (find_offer ident s) [
  | none ↦ raise pairing_offer_unknown s
  | some o ↦ elim (find_invite ident s) [
    | none ↦ raise pairing_offer_unknown s
    | some i ↦
        pure
          (record {
            offer_id = ident;
            status = o.state;
            expires = i.expires;
            client = record {
              principal = o.principal;
              key_fingerprint = o.client_key;
              generation = o.generation;
            };
          })
          s
  ]
]

-- The second part of the reply is `recoveryRequired`, with `historical`.
abbrev pub offer_status : ℕ → String → Action (OfferStatus × Bool)
offer_status now ident =
    pairing_transaction (record plain { read_only = true }) now
      (do
        status ← offer_status_locked ident
        required ← gets recovery_required
        pure (status, required))

pub cancel : ℕ → String → Store → Store
cancel terminal ident s = retire_invite ident (
    let t = release ident s in
    record t {
      offers =
          update (λ o. o.id == ident)
            (λ o. record o { state = cancelled; terminal = some terminal }) t.offers;
    })

pub cancel_offer_locked : ℕ → String → Action OfferStatus
cancel_offer_locked terminal ident = do
  status ← offer_status_locked ident
  modify (λ s. if is_open_or_reserved status.status then cancel terminal ident s else s)
  offer_status_locked ident

unfoldable pub cancel_offer : ℕ → ℕ → String → Action OfferStatus
cancel_offer now terminal ident = pairing_transaction plain now (cancel_offer_locked terminal ident)
