-- ===== src/Dispatch/State.antt =====
-- The policy of a receiver, `Policy.authorize` of session_peer_relay/native.py, and what the handler of a
-- request waits for.
use session_peer.Common.{
  ℕ, String, Bool, false, Option, none, some, List, ◌==◌, string_eq, not, member, pure, raise,
  raise_if, ◌>>◌,
}
use session_peer.Common.Sql.{find}
use session_peer.Common.Json.{Fields}
use session_peer.Store.State.{Action}
use session_peer.Store.Reasons.{operation_denied, target_denied}
use session_peer.Store.Prepare as Prepare
use session_peer.Store.Commit as Commit

-- the parts in which an instant is measured, to one second
abbrev pub second : ℕ
second = 4503599627370496

-- The readings of the clock of one request: of a pairing, of the key, of the two sides of the expiry, and of a
-- change of keys. Those of the expiry are in 2^-52 parts of a second, the others in whole seconds.
pub record Clock : Type 0 where
  pub pairing : ℕ
  pub preparing : Prepare.Readings
  pub committing : Commit.Readings
  pub for_key : ℕ
  pub before : ℕ
  pub after : ℕ
  pub rotation : ℕ

pub record Target : Type 0 where
  pub alias : String
  pub binding : Fields

pub record Rights : Type 0 where
  pub peer : String
  pub capabilities : List String
  pub targets : List String

pub record Policy : Type 0 where
  pub targets : List Target
  pub peers : List Rights

abbrev pub find_rights : String → Policy → Option Rights
find_rights peer policy = find (λ r. r.peer == peer) policy.peers

abbrev pub find_target : String → Policy → Option Target
find_target alias policy = find (λ t. t.alias == alias) policy.targets

-- `alias is not None and alias not in rights["targets"]`
abbrev pub is_denied : Option String → Rights → Bool
is_denied none r = false
is_denied (some alias) r = not (member alias r.targets)

-- `Policy.authorize`
unfoldable pub permit : Policy → String → String → Option String → Action (List String)
permit policy peer operation alias s = elim (find_rights peer policy) [
  | none ↦ raise operation_denied s
  | some r ↦
      (raise_if (not (member operation r.capabilities)) operation_denied
          >> raise_if (is_denied alias r) target_denied
          >> pure r.targets)
        s
]

-- A text for a target: the target's alias and binding, the key that stands for the sender, and whether the delivery
-- is to be explained
pub record Message : Type 0 where
  pub alias : String
  pub binding : Fields
  pub text : String
  pub key : String
  pub explain : Bool

-- What the handler has come to when it answers or first waits
pub data Turn : Type 0 where
  answer : Fields → Turn
  survey : List String → Turn
  inspect : Message → Turn
  deliver : String → String → Message → Turn
