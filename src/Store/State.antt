-- ===== src/Store/State.antt =====
-- The tables that `Store._open` creates and the attributes of a `Store`. A column of JSON text is held as the value that it stands for.
use session_peer.Common.{
  ℕ, String, Bool, true, false, Option, List, ◌==◌, string_eq, ◌&&◌, ◌||◌, not, ok, rejected, crash,
  Exec,
}
use session_peer.Store.Reasons.{Reason}
use session_peer.Common.Sql.{exists}
use session_peer.Common.Json.{Json, Fields}

pub data PeerStatus : Type 0 where
  pending paired revoked : PeerStatus

pub data KeyStatus : Type 0 where
  active pending retired revoked : KeyStatus

pub data RequestStatus : Type 0 where
  pending done : RequestStatus

pub data OfferState : Type 0 where
  opened reserved consumed cancelled expired : OfferState

pub data RotationStatus : Type 0 where
  prepared committed : RotationStatus

-- A rotation's proposal as it came, and the two of its entries that are read again later.
pub record Proposal : Type 0 where
  pub body : Fields
  pub generation : Json
  pub certificate : String

pub record Invite : Type 0 where
  pub id : String
  pub hash : String
  pub expires : ℕ
  pub peer : Option String

pub record Peer : Type 0 where
  pub id : String
  pub cert : String
  pub status : PeerStatus
  pub expires : ℕ
  pub routes : Json
  pub capabilities : List String

pub record Request : Type 0 where
  pub peer : String
  pub id : String
  pub hash : String
  pub status : RequestStatus
  pub result : Option Fields

pub record Metadata : Type 0 where
  pub key : String
  pub value : String

pub record PeerKey : Type 0 where
  pub fingerprint : String
  pub principal : String
  pub cert : String
  pub generation : ℕ
  pub status : KeyStatus
  pub expires : ℕ

pub record Rotation : Type 0 where
  pub peer : String
  pub id : String
  pub hash : String
  pub proposal : Proposal
  pub status : RotationStatus

pub record Tombstone : Type 0 where
  pub principal : String
  pub generation : ℕ
  pub snapshot : ℕ
  pub reason : String

pub record Offer : Type 0 where
  pub id : String
  pub client_key : String
  pub principal : String
  pub generation : ℕ
  pub state : OfferState
  pub created : ℕ
  pub terminal : Option ℕ
  pub receipt : Option Fields

pub record Reservation : Type 0 where
  pub peer : String
  pub invitation : String
  pub client_key : String
  pub created_peer : Bool
  pub created_key : Bool

-- The keys of `pairing_limits`: "create", "prepare", and "offer:" before an offer's identifier.
pub data Scope : Type 0 where
  create prepare : Scope
  offer : String → Scope

abbrev pub same_scope : Scope → Scope → Bool
same_scope create create = true
same_scope prepare prepare = true
same_scope (offer a) (offer b) = a == b
same_scope _ _ = false

pub record Limit : Type 0 where
  pub scope : Scope
  pub attempts : List ℕ

pub record Intent : Type 0 where
  pub id : String
  pub digest : String
  pub receiver : String
  pub receiver_key : String
  pub client_key : String

pub record Store : Type 0 where
  pub device : String
  pub cert : String
  pub key_id : String
  pub generation : ℕ
  pub invites : List Invite
  pub peers : List Peer
  pub requests : List Request
  pub metadata : List Metadata
  pub peer_keys : List PeerKey
  pub rotations : List Rotation
  pub tombstones : List Tombstone
  pub offers : List Offer
  pub reservations : List Reservation
  pub limits : List Limit
  pub intents : List Intent

abbrev pub Action : Type 0 → Type 0
Action A = Exec Reason Store A

-- An invitation as it travels: `keyFingerprint` and `keyGeneration` only after a key rotation.
pub record Invitation : Type 0 where
  pub version : ℕ
  pub id : String
  pub secret : String
  pub expires : ℕ
  pub device : String
  pub certificate : String
  pub routes : Json
  pub key_fingerprint : Option String
  pub key_generation : Option Json

-- What the program takes from `hashlib`, `uuid`, `json` and `cryptography`. `fingerprint` has no value
-- where a text is no certificate; `verifies` is whether a proposal's proof is a signature of the rest of
-- it by the P-256 key of its certificate.
pub record Platform : Type 0 where
  pub sha256 : String → String
  pub fingerprint : String → Option String
  pub is_uuid : String → Bool
  pub is_uuid4 : String → Bool
  pub canonical : Fields → String
  pub verifies : Fields → Bool

abbrev pub is_pending_peer : PeerStatus → Bool
is_pending_peer PeerStatus.pending = true
is_pending_peer _ = false

abbrev pub is_paired : PeerStatus → Bool
is_paired paired = true
is_paired _ = false

abbrev pub is_revoked_peer : PeerStatus → Bool
is_revoked_peer PeerStatus.revoked = true
is_revoked_peer _ = false

abbrev pub is_active : KeyStatus → Bool
is_active active = true
is_active _ = false

abbrev pub is_open_or_reserved : OfferState → Bool
is_open_or_reserved opened = true
is_open_or_reserved reserved = true
is_open_or_reserved _ = false

abbrev has_metadata : String → Store → Bool
has_metadata key s = exists (λ m. m.key == key) s.metadata

-- `Store.recovery_required`
unfoldable pub recovery_required : Store → Bool
recovery_required s =
    exists (λ _. true) s.tombstones
    || has_metadata "recovery_required" s
    || (has_metadata "recovery_origin" s && not (has_metadata "recovery_activation" s))

-- `BEGIN IMMEDIATE`, with `COMMIT` at the end and `ROLLBACK` on any exception
unfoldable pub atomically : {A : Type 0} → Action A → Action A
atomically m s =
    let (r, s') = m s in
    elim r [ ok a ↦ (ok a, s') | rejected e ↦ (rejected e, s) | crash ↦ (crash, s) ]
