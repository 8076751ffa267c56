-- ===== src/Store/Tests.antt =====
-- Runs of the operations that change a device's standing.
use session_peer.Common.{◌≡◌, ◌≢◌, ◌⊎◌, refl, some, true, false, [], ◌∷◌, String, Bool, ok}
use session_peer.Common.Sql.{find}
use session_peer.Store.State.{Peer, PeerStatus, paired, active, Invitation}
use session_peer.Store.Keys.{find_peer, principal, key_status}
use session_peer.Store.Pairing.Standing.{standing}
use session_peer.Store.Commit.{Call, Readings, key_of, can_commit, commit_locked}
use session_peer.Store.Commit.Pairs.{commit_pairs}
use session_peer.Store.Remember.{is_pinned, remember_locked}
use session_peer.Store.Remember.Standing.{remember_pairs}
use session_peer.Store.Trust.{Operation, apply_all, Changes, apply-Changes, revoked_is_final}
use session_peer.Store.Samples.{platform, key_a, with_pending, with_revoked, empty, invitation}

abbrev call : Call
call = record {
  peer = key_a;
  invitation = some "invite";
  authenticated_key = some key_a;
  offer = false;
}

abbrev clock : Readings
clock = record { for_key = 5; for_row = 5; adopting = 5; accept = 5; terminal = 5 }

abbrev encodes : Invitation → String → Bool
encodes _ _ = true

commit_pairs_example :
    let t = (commit_locked platform call clock with_pending).1 in
    (standing key_a t ≡ standing key_a with_pending)
    ⊎ ((standing key_a t ≡ some paired)
        × (principal clock.for_key (key_of call) with_pending ≡ (ok key_a, with_pending))
        × (key_status (key_of call) with_pending ≡ active)
        × ((row : Peer) × (find_peer key_a with_pending ≡ some row)
            × (can_commit clock.for_row row ≡ true)))
commit_pairs_example = commit_pairs platform call clock with_pending key_a

remember_pairs_example :
    let t = (remember_locked platform invitation empty).1 in
    (standing key_a t ≡ standing key_a empty)
    ⊎ ((standing key_a t ≡ some paired)
        × (key_a ≡ invitation.device)
        × (standing key_a empty ≢ some PeerStatus.revoked)
        × ((key : String) × (platform.fingerprint invitation.certificate ≡ some key)
            × (is_pinned invitation key ≡ true)))
remember_pairs_example = remember_pairs platform invitation empty key_a

apply-Changes_example : Changes platform encodes (Operation.commit 5 call clock) with_pending key_a
unfolding find
apply-Changes_example =
    apply-Changes platform encodes (Operation.commit 5 call clock) with_pending key_a (refl, tt)

is_revoked : standing key_a with_revoked ≡ some PeerStatus.revoked
unfolding find
is_revoked = refl

revoked_is_final_example :
    standing key_a (
      apply_all platform encodes
        (Operation.remember 5 invitation ∷ Operation.commit 6 call clock ∷ [])
        with_revoked)
    ≡ some PeerStatus.revoked
unfolding find
revoked_is_final_example =
    revoked_is_final platform encodes
      (Operation.remember 5 invitation ∷ Operation.commit 6 call clock ∷ []) with_revoked key_a
      (refl, tt) is_revoked
