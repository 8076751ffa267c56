-- ===== src/KeyRotation.antt =====
-- session_peer_relay/rotation.py on the receiver's side: a paired device prepares a new key under its
-- old one and commits it under the new one. `canonical(proposal)` and the check of its proof are those
-- of the platform; `now` is the reading of `time.time()`.
mod Tests
pub mod Handover
pub mod Proposals
pub mod Replies
use session_peer.Common.{
  ℕ, ◌+◌, String, Bool, true, false, Option, none, some, List, [], ◌∷◌, ◌==◌, nat_eq, string_eq,
  ◌&&◌, ◌||◌, not, pure, raise, raise_if, gets, modify, or_crash, or_reject, ◌>>=◌, ◌>>◌, leb,
  length, is_some, if◌then◌else◌,
}
use session_peer.Common.Sql.{find, insert, update, exists}
use session_peer.Common.Json.{
  Json, Fields, null, bool, num, neg, str, arr, obj, get_or, dict, is_text, in_items, has_exactly,
}
use session_peer.Common.Text.{codes}
use session_peer.Store.State.{
  Store, Action, PeerKey, KeyStatus, active, retired, Rotation, RotationStatus, prepared, committed,
  Proposal, Platform, is_active, atomically,
}
use session_peer.Store.Keys.{find_key, as_generation, new_key}
use session_peer.Store.Reasons.{
  Reason, invalid_rotation_id, invalid_rotation, invalid_rotation_proof, rotation_id_conflict,
  rotation_generation_conflict, rotation_in_progress, key_already_used, rotation_not_prepared,
  new_key_proof_required,
}

-- `WHERE peer=? AND id=?`
abbrev pub names : String → String → Rotation → Bool
names peer ident r = r.peer == peer && r.id == ident

abbrev pub is_prepared : RotationStatus → Bool
is_prepared prepared = true
is_prepared committed = false

abbrev status_text : RotationStatus → String
status_text prepared = "prepared"
status_text committed = "committed"

abbrev required : List String
required =
    "id" ∷ "principal" ∷ "previous" ∷ "generation" ∷ "certificate" ∷ "receivers" ∷ "proof" ∷ []

-- `type(value) is int`
abbrev is_int : Json → Bool
is_int (num _) = true
is_int (neg _) = true
is_int _ = false

-- `isinstance(value, list) and device in value`
abbrev lists : String → Json → Bool
lists device (arr l) = in_items device l
lists device _ = false

pub proposal_of : String → String → String → Fields → Option Proposal
proposal_of device peer key body = elim (get_or "certificate" null body) [
  | str pem ↦
      if not (is_text peer (get_or "principal" null body))
        || not (is_text key (get_or "previous" null body))
        || not (is_int (get_or "generation" null body))
        || not (lists device (get_or "receivers" null body))
        || not (leb (length (codes pem)) 8192)
      then none
      else some
          (record { body = body; generation = get_or "generation" null body; certificate = pem })
  | _ ↦ none
]

abbrev is_next : ℕ → Json → Bool
is_next n (num m) = m == n + 1
is_next n _ = false

-- the presenting key is active, and the proposal is of the generation after it
abbrev pub continues : Option PeerKey → Json → Bool
continues none generation = false
continues (some k) generation = is_active k.status && is_next k.generation generation

-- `WHERE fingerprint=? AND principal=?`
abbrev pub find_bound : String → String → Store → Option PeerKey
find_bound key peer s = find (λ k. k.fingerprint == key && k.principal == peer) s.peer_keys

abbrev pub find_rotation : String → String → Store → Option Rotation
find_rotation peer ident s = find (names peer ident) s.rotations

-- `UPDATE peer_keys SET status="retired",expires=? WHERE principal=? AND status="active"`, then
-- `UPDATE peer_keys SET status="active",expires=0 WHERE fingerprint=?`
retire_keys : ℕ → String → Store → Store
retire_keys now peer s = record s {
  peer_keys =
      update (λ k. k.principal == peer && is_active k.status)
        (λ k. record k { status = retired; expires = now + 600 }) s.peer_keys;
}

activate_key : String → Store → Store
activate_key key s = record s {
  peer_keys =
      update (λ k. k.fingerprint == key) (λ k. record k { status = active; expires = 0 })
        s.peer_keys;
}

replace_cert : String → String → Store → Store
replace_cert peer cert s = record s {
  peers = update (λ p. p.id == peer) (λ p. record p { cert = cert }) s.peers;
}

conclude_rotation : String → String → Store → Store
conclude_rotation peer ident s = record s {
  rotations = update (names peer ident) (λ r. record r { status = committed }) s.rotations;
}

pub hand_over : ℕ → String → String → String → String → Store → Store
unfolding retire_keys activate_key replace_cert conclude_rotation
hand_over now peer key ident cert s =
    conclude_rotation peer ident
      (replace_cert peer cert (activate_key key (retire_keys now peer s)))

module _ (platform : Platform) where
  -- `operation_id`
  pub operation_id : Json → Action String
  operation_id (str x) = raise_if (not (platform.is_uuid x)) invalid_rotation_id >> pure x
  operation_id _ = raise invalid_rotation_id

  pub status_row : String → String → Rotation → Action Fields
  status_row peer ident r s = elim (platform.fingerprint r.proposal.certificate) [
    | none ↦ or_crash none s
    | some key ↦
        pure
          (dict (
            ("ok", bool true)
            ∷ ("rotation", str (status_text r.status))
            ∷ ("operationId", str ident)
            ∷ ("principal", str peer)
            ∷ ("generation", r.proposal.generation)
            ∷ ("keyFingerprint", str key)
            ∷ []))
          s
  ]

  -- `remote_status` after its `operation_id(ident)`
  pub status_of : String → String → Action Fields
  unfolding status_row
  status_of peer ident s = elim (find_rotation peer ident s) [
    | none ↦
        pure
          (dict
            (("ok", bool false) ∷ ("rotation", str "not_found") ∷ ("operationId", str ident) ∷ []))
          s
    | some r ↦ status_row peer ident r s
  ]

  pub remote_status : String → Json → Action Fields
  unfolding operation_id status_of
  remote_status peer value = do ident ← operation_id value; status_of peer ident

  -- the checks before the transaction
  pub read_body : String → String → Fields → Action (String × Proposal)
  read_body peer key body = do
    raise_if (not (has_exactly required body)) invalid_rotation
    ident ← operation_id (get_or "id" null body)
    device ← gets (λ s. s.device)
    p ← or_reject (proposal_of device peer key body) invalid_rotation
    raise_if (not (platform.verifies body)) invalid_rotation_proof
    pure (ident, p)

  pub read_proposal : String → String → Json → Action (String × Proposal)
  read_proposal peer key (obj body) = read_body peer key body
  read_proposal peer key _ = raise invalid_rotation

  pub add_rotation : String → String → String → Proposal → String → ℕ → Store → Store
  add_rotation peer ident digest p fresh generation s = record s {
    peer_keys = insert (new_key fresh peer p.certificate generation KeyStatus.pending) s.peer_keys;
    rotations =
        insert (record { peer = peer; id = ident; hash = digest; proposal = p; status = prepared })
          s.rotations;
  }

  pub prepare_new : String → String → String → String → Proposal → Action Fields
  unfolding add_rotation status_of
  prepare_new peer key ident digest p = do
    previous ← gets (find_bound key peer)
    raise_if (not (continues previous p.generation)) rotation_generation_conflict
    raise_if (← gets (λ s. exists (λ r. r.peer == peer && is_prepared r.status) s.rotations))
        rotation_in_progress
    fresh ← or_crash (platform.fingerprint p.certificate)
    raise_if (← gets (λ s. is_some (find_key fresh s))) key_already_used
    generation ← or_crash (as_generation p.generation)
    modify (add_rotation peer ident digest p fresh generation)
    status_of peer ident

  pub prepare_locked : String → String → String → Proposal → Action Fields
  prepare_locked peer key ident p s =
      let digest = platform.sha256 (platform.canonical p.body) in
      elim (find_rotation peer ident s) [
        | none ↦ prepare_new peer key ident digest p s
        | some r ↦ if r.hash == digest then status_of peer ident s else raise rotation_id_conflict s
      ]

  unfoldable pub remote_prepare : String → String → Json → Action Fields
  remote_prepare peer key proposal = do
    found ← read_proposal peer key proposal
    atomically (prepare_locked peer key found.0 found.1)

  pub commit_row : ℕ → String → String → String → Rotation → Action Fields
  unfolding hand_over status_of
  commit_row now peer key ident r = do
    own ← or_crash (platform.fingerprint r.proposal.certificate)
    raise_if (not (key == own)) new_key_proof_required
    modify (
        if is_prepared r.status
        then hand_over now peer key ident r.proposal.certificate
        else (λ s. s))
    status_of peer ident

  pub commit_locked : ℕ → String → String → String → Action Fields
  unfolding commit_row
  commit_locked now peer key ident s = elim (find_rotation peer ident s) [
    | none ↦ raise rotation_not_prepared s
    | some r ↦ commit_row now peer key ident r s
  ]

  unfoldable pub remote_commit : ℕ → String → String → Json → Action Fields
  remote_commit now peer key value = do
    ident ← operation_id value
    atomically (commit_locked now peer key ident)
