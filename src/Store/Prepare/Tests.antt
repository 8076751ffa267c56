-- ===== src/Store/Prepare/Tests.antt =====
-- A client that presents an invitation's secret and its certificate.
use session_peer.Common.{◌≡◌, refl, ok, Outcome, [], ◌∷◌}
use session_peer.Common.Json.{Fields, end, str, dict}
use session_peer.Store.State.{Store}
use session_peer.Store.Prepare.{Readings, prepare_locked}
use session_peer.Store.Prepare.Sound.{IsAccepted, prepare_sound}
use session_peer.Store.Reasons.{Reason}
use session_peer.Store.Samples.{platform, key_a, with_invite}

abbrev request : Fields
request =
    dict (("invitation", str "invite") ∷ ("secret", str "secret") ∷ ("certificate", str key_a) ∷ [])

abbrev at : Readings
at = record { now = 5; adopting = 5; accept = 6 }

abbrev reply_of : Outcome Reason Fields → Fields
reply_of (ok reply) = reply
reply_of _ = end

answered : prepare_locked platform at request with_invite ≡ (
  ok (reply_of (prepare_locked platform at request with_invite).0),
  (prepare_locked platform at request with_invite).1,
)
unfolding prepare_locked session_peer.Store.State.recovery_required session_peer.Common.Sql.find
    session_peer.Store.Prepare.read_claim session_peer.Store.Prepare.as_text
    session_peer.Store.Prepare.live_invite session_peer.Store.Prepare.certificate_key
    session_peer.Store.Prepare.check_offer session_peer.Store.Prepare.claimed
    session_peer.Common.Text.is_hex64 session_peer.Store.Prepare.prepare_claim
    session_peer.Store.Prepare.check_peer session_peer.Store.Prepare.owner_of
    session_peer.Store.Prepare.check_owner session_peer.Store.Prepare.accept_claim
answered = refl

prepare_sound_example :
    IsAccepted platform at request with_invite (prepare_locked platform at request with_invite).1
prepare_sound_example =
    prepare_sound platform at request with_invite (prepare_locked platform at request with_invite).1
      (reply_of (prepare_locked platform at request with_invite).0) answered
