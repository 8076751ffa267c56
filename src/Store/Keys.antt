-- ===== src/Store/Keys.antt =====
-- Peers and the keys that stand for them: `peer`, `principal`, `key_status`, `register_key`,
-- `trusted`, `revoke` and `authorize` of `class Store`. `now` is the reading of `time.time()`, in
-- whole seconds.
mod Tests
pub mod Access
use session_peer.Common.{
  ℕ, String, Bool, true, false, Option, none, some, List, [], ◌∷◌, ◌++◌, ◌==◌, string_eq, ◌&&◌,
  ◌||◌, not, map, pure, raise, raise_if, modify, or_crash, ◌>>=◌, ◌>>◌, ltb, member, if◌then◌else◌,
  is_some,
}
use session_peer.Common.Sql.{find, insert, insert_ignore, update, select, exists}
use session_peer.Common.Json.{Json, num, is_text, is_one_of}
use session_peer.Common.Text.{is_hex64}
use session_peer.Store.State.{
  Store, Action, Peer, PeerStatus, paired, PeerKey, KeyStatus, active, retired, Platform, is_paired,
  is_pending_peer, is_active,
}
use session_peer.Store.Reasons.{
  retired_key, key_already_used, invalid_principal, unpaired_device, operation_denied,
}

-- `Store.peer`, before its columns are read as JSON
abbrev pub find_peer : String → Store → Option Peer
find_peer ident s = find (λ p. p.id == ident) s.peers

abbrev pub find_key : String → Store → Option PeerKey
find_key key s = find (λ k. k.fingerprint == key) s.peer_keys

abbrev is_dead : ℕ → PeerKey → Bool
is_dead now k = elim k.status [ KeyStatus.revoked ↦ true | retired ↦ ltb k.expires now | _ ↦ false ]

unfoldable pub principal : ℕ → String → Action String
principal now key s = elim (find_key key s) [
  | none ↦ pure key s
  | some k ↦ if is_dead now k then raise retired_key s else pure k.principal s
]

unfoldable pub key_status : String → Store → KeyStatus
key_status key s = elim (find_key key s) [ none ↦ active | some k ↦ k.status ]

-- `type(generation) is int and generation >= 0`
abbrev pub as_generation : Json → Option ℕ
as_generation (num n) = some n
as_generation _ = none

abbrev pub new_key : String → String → String → ℕ → KeyStatus → PeerKey
new_key key principal cert generation status = record {
  fingerprint = key;
  principal = principal;
  cert = cert;
  generation = generation;
  status = status;
  expires = 0;
}

-- `INSERT OR IGNORE INTO peer_keys VALUES(…)`
abbrev pub add_key : PeerKey → Store → Store
add_key k s = record s {
  peer_keys = insert_ignore (λ j. j.fingerprint == k.fingerprint) k s.peer_keys;
}

add_principal : String → String → String → Option ℕ → Action Unit
add_principal key owner cert none = raise invalid_principal
add_principal key owner cert (some n) =
    if is_hex64 owner
    then modify (add_key (new_key key owner cert n active))
    else raise invalid_principal

abbrev is_taken : String → Option PeerKey → Bool
is_taken owner none = false
is_taken owner (some k) = not (k.principal == owner) || not (is_active k.status)

module _ (platform : Platform) where
  unfoldable pub register_key : String → String → Json → Action Unit
  unfolding add_principal
  register_key owner cert generation s = elim (platform.fingerprint cert) [
    | none ↦ or_crash none s
    | some key ↦
        if is_taken owner (find_key key s)
        then raise key_already_used s
        else add_principal key owner cert (as_generation generation) s
  ]

-- `list(dict.fromkeys(texts))`
abbrev pub distinct : List String → List String
distinct [] = []
distinct (x ∷ xs) = x ∷ drop_text x (distinct xs)
  where
    drop_text : String → List String → List String
    drop_text x [] = []
    drop_text x (y ∷ ys) = if y == x then drop_text x ys else y ∷ drop_text x ys

abbrev is_trusted_peer : ℕ → Peer → Bool
is_trusted_peer now p = is_paired p.status || is_pending_peer p.status && ltb now p.expires

-- `JOIN peers p ON p.id=k.principal WHERE p.status="paired" AND (…)`
abbrev is_trusted_key : ℕ → Store → PeerKey → Bool
is_trusted_key now s k =
    exists (λ p. p.id == k.principal && is_paired p.status) s.peers
    && elim k.status [ KeyStatus.pending ↦ true | retired ↦ ltb now k.expires | _ ↦ false ]

-- The certificates that the TLS context accepts.
unfoldable pub trusted : ℕ → ℕ → Store → List String
trusted now_peers now_keys s = distinct (
    map (λ p. p.cert) (select (is_trusted_peer now_peers) s.peers)
    ++ map (λ k. k.cert) (select (is_trusted_key now_keys s) s.peer_keys))

unfoldable pub revoke : String → Action Unit
revoke peer = do
  modify (λ s. record s {
    peers = update (λ p. p.id == peer) (λ p. record p { status = PeerStatus.revoked }) s.peers;
  })
  modify (λ s. record s {
    peer_keys =
        update (λ k. k.principal == peer) (λ k. record k { status = KeyStatus.revoked })
          s.peer_keys;
  })

abbrev pub operations : List String
operations =
    "list" ∷ "send" ∷ "resolve" ∷ "probe" ∷ "status" ∷ "rotation.prepare" ∷ "rotation.commit"
    ∷ "rotation.status" ∷ []

-- `capability in ('list', 'send') and capability not in row['capabilities']`
abbrev pub lacks : Peer → Json → Bool
lacks row op =
    if is_text "list" op
    then not (member "list" row.capabilities)
    else (is_text "send" op || is_text "resolve" op) && not (member "send" row.capabilities)

authorize_row : Json → Peer → Action Unit
authorize_row op row =
    raise_if (not (is_paired row.status)) unpaired_device
    >> raise_if (lacks row op) operation_denied
    >> raise_if (not (is_one_of operations op)) operation_denied

unfoldable pub authorize : String → Json → Action Unit
unfolding authorize_row
authorize peer op s = elim (find_peer peer s) [
  | none ↦ raise unpaired_device s
  | some row ↦ authorize_row op row s
]
