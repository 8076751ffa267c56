-- ===== src/Store/Samples.antt =====
-- Test data: a platform in which a text is its own digest and its own fingerprint, and small states.
use session_peer.Common.{String, some, none, true, [], ◌∷◌}
use session_peer.Common.Json.{obj, end}
use session_peer.Store.State.{
  Store, Platform, Peer, PeerStatus, paired, PeerKey, active, Invitation,
}

abbrev pub platform : Platform
platform = record {
  sha256 = λ text. text;
  fingerprint = λ pem. some pem;
  is_uuid = λ _. true;
  is_uuid4 = λ _. true;
  canonical = λ _. "proposal";
  verifies = λ _. true;
}

abbrev pub key_a : String
key_a = "aaaaaaaaaaaaaaaaaaaaaaaaaaaaaaaaaaaaaaaaaaaaaaaaaaaaaaaaaaaaaaaa"

abbrev pub key_b : String
key_b = "bbbbbbbbbbbbbbbbbbbbbbbbbbbbbbbbbbbbbbbbbbbbbbbbbbbbbbbbbbbbbbbb"

abbrev pub empty : Store
empty = record {
  device = key_b;
  cert = key_b;
  key_id = key_b;
  generation = 0;
  invites = [];
  peers = [];
  requests = [];
  metadata = [];
  peer_keys = [];
  rotations = [];
  tombstones = [];
  offers = [];
  reservations = [];
  limits = [];
  intents = [];
}

abbrev pub laptop : Peer
laptop = record {
  id = key_a;
  cert = key_a;
  status = paired;
  expires = 0;
  routes = obj end;
  capabilities = "list" ∷ "send" ∷ [];
}

abbrev pub laptop_key : PeerKey
laptop_key = record {
  fingerprint = key_a;
  principal = key_a;
  cert = key_a;
  generation = 0;
  status = active;
  expires = 0;
}

abbrev pub with_laptop : Store
with_laptop = record empty { peers = laptop ∷ []; peer_keys = laptop_key ∷ [] }

abbrev pub with_pending : Store
with_pending = record empty {
  peers = record laptop { status = PeerStatus.pending; expires = 600 } ∷ [];
  peer_keys = laptop_key ∷ [];
}

abbrev pub with_revoked : Store
with_revoked = record empty { peers = record laptop { status = PeerStatus.revoked } ∷ [] }

abbrev pub with_invite : Store
with_invite = record empty {
  invites = record { id = "invite"; hash = "secret"; expires = 600; peer = none } ∷ [];
}

abbrev pub invitation : Invitation
invitation = record {
  version = 1;
  id = "invite";
  secret = "secret";
  expires = 600;
  device = key_a;
  certificate = key_a;
  routes = obj end;
  key_fingerprint = none;
  key_generation = none;
}
