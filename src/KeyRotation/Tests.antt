-- ===== src/KeyRotation/Tests.antt =====
-- A device with one key prepares a second and commits it.
use session_peer.Common.{
  ℕ, ◌≡◌, ◌≤◌, ◌+◌, refl, ok, rejected, Outcome, some, none, true, [], ◌∷◌, String, arith, eq_iff,
  ltb, if◌then◌else◌,
}
use session_peer.Common.Sql.{find, update}
use session_peer.Common.Json.{Fields, null, get_or, end, str, num, arr, obj, nil, cons, dict}
use session_peer.Store.State.{Store, Proposal, PeerKey, Rotation, prepared, retired, active}
use session_peer.Store.Keys.{find_key, principal, key_status}
use session_peer.Store.Reasons.{Reason, retired_key}
use session_peer.Store.Samples.{platform, key_a, key_b, laptop_key, with_laptop}
use session_peer.KeyRotation.{
  find_rotation, find_bound, remote_prepare, remote_commit, remote_status,
}
use session_peer.KeyRotation.Handover.{one_active_key, old_key_ends}
use session_peer.KeyRotation.Proposals.{prepare_follows}
use session_peer.KeyRotation.Replies.{count_prepared, commit_again, prepare_again, prepared-le-1}

abbrev body : Fields
body = dict (
    ("id", str "operation")
    ∷ ("principal", str key_a)
    ∷ ("previous", str key_a)
    ∷ ("generation", num 1)
    ∷ ("certificate", str "second")
    ∷ ("receivers", arr (cons (str key_b) nil))
    ∷ ("proof", str "signature")
    ∷ [])

abbrev reply_of : Outcome Reason Fields → Fields
reply_of (ok reply) = reply
reply_of _ = end

abbrev after_prepare : Store
after_prepare = (remote_prepare platform key_a key_a (obj body) with_laptop).1

abbrev after_commit : Store
after_commit = (remote_commit platform 100 key_a "second" (str "operation") after_prepare).1

abbrev first : Fields
first = reply_of (remote_prepare platform key_a key_a (obj body) with_laptop).0

abbrev second : Fields
second = reply_of (remote_commit platform 100 key_a "second" (str "operation") after_prepare).0

abbrev row : Rotation
row = record {
  peer = key_a;
  id = "operation";
  hash = "proposal";
  proposal = record { body = body; generation = num 1; certificate = "second" };
  status = prepared;
}

is_first : remote_prepare platform key_a key_a (obj body) with_laptop ≡ (ok first, after_prepare)
unfolding remote_prepare session_peer.KeyRotation.read_proposal session_peer.KeyRotation.read_body
    session_peer.KeyRotation.operation_id session_peer.KeyRotation.proposal_of
    session_peer.Store.State.atomically session_peer.KeyRotation.prepare_locked find
    session_peer.KeyRotation.prepare_new
is_first = refl

is_second :
    remote_commit platform 100 key_a "second" (str "operation") after_prepare
    ≡ (ok second, after_commit)
unfolding remote_prepare remote_commit session_peer.KeyRotation.operation_id
    session_peer.Store.State.atomically session_peer.KeyRotation.commit_locked find
    session_peer.KeyRotation.read_proposal session_peer.KeyRotation.read_body
    session_peer.KeyRotation.proposal_of session_peer.KeyRotation.prepare_locked
    session_peer.KeyRotation.prepare_new update
is_second = refl

is_row : find_rotation key_a "operation" after_prepare ≡ some row
unfolding remote_prepare find session_peer.KeyRotation.read_proposal
    session_peer.KeyRotation.read_body session_peer.KeyRotation.operation_id
    session_peer.KeyRotation.proposal_of session_peer.Store.State.atomically
    session_peer.KeyRotation.prepare_locked session_peer.KeyRotation.prepare_new
is_row = refl

is_old : find_key key_a after_prepare ≡ some laptop_key
unfolding remote_prepare find session_peer.KeyRotation.read_proposal
    session_peer.KeyRotation.read_body session_peer.KeyRotation.operation_id
    session_peer.KeyRotation.proposal_of session_peer.Store.State.atomically
    session_peer.KeyRotation.prepare_locked session_peer.KeyRotation.prepare_new
is_old = refl

abbrev second_key : PeerKey
second_key = record {
  fingerprint = "second";
  principal = key_a;
  cert = "second";
  generation = 1;
  status = active;
  expires = 0;
}

is_new : find_key "second" after_commit ≡ some second_key
unfolding remote_prepare find remote_commit session_peer.KeyRotation.operation_id
    session_peer.Store.State.atomically session_peer.KeyRotation.commit_locked
    session_peer.KeyRotation.read_proposal session_peer.KeyRotation.read_body
    session_peer.KeyRotation.proposal_of session_peer.KeyRotation.prepare_locked
    session_peer.KeyRotation.prepare_new update
is_new = refl

abbrev new_name : String
new_name = "second"

one_active_key_example : new_name ≡ new_name
one_active_key_example =
    one_active_key platform 100 key_a "second" "operation" "second" row second_key after_prepare
      after_commit second is_second is_row refl is_new refl refl

old_key_ends_example :
    (key_status key_a after_commit ≡ retired)
    × (principal 1000 key_a after_commit
        ≡ ((if ltb (100 + 600) 1000 then rejected retired_key else ok key_a), after_commit))
old_key_ends_example =
    old_key_ends platform 100 1000 key_a "second" "operation" key_a row laptop_key after_prepare
      after_commit second is_second is_row refl is_old refl refl
      (ground (arith, eq_iff key_a "second"))

commit_again_example :
    (remote_commit platform 200 key_a "second" (str "operation") after_commit
      ≡ (ok second, after_commit))
    × (remote_status platform key_a (str "operation") after_commit ≡ (ok second, after_commit))
commit_again_example =
    commit_again platform 100 200 key_a "second" (str "operation") after_prepare after_commit second
      is_second

prepare_again_example :
    remote_prepare platform key_a key_a (obj body) after_prepare ≡ (ok first, after_prepare)
prepare_again_example =
    prepare_again platform key_a key_a (obj body) with_laptop after_prepare first is_first

prepared-le-1_example :
    (count_prepared key_a (remote_prepare platform key_a key_a (obj body) with_laptop).1 ≤ 1)
    × (count_prepared key_a (remote_commit platform 5 key_a key_a (obj body) with_laptop).1 ≤ 1)
unfolding session_peer.Common.Sql.count
prepared-le-1_example =
    prepared-le-1 platform key_a key_a key_a (obj body) 5 with_laptop (omega arith)

is_absent : find_rotation key_a "operation" with_laptop ≡ none
unfolding find
is_absent = refl

prepare_follows_example :
    (platform.verifies body ≡ true)
    × (get_or "principal" null body ≡ str key_a)
    × (get_or "previous" null body ≡ str key_a)
    × ((k : PeerKey) × (find_bound key_a key_a with_laptop ≡ some k)
        × (k.status ≡ active)
        × (get_or "generation" null body ≡ num (k.generation + 1)))
prepare_follows_example =
    prepare_follows platform key_a key_a "operation" body with_laptop after_prepare first is_first
      refl is_absent
