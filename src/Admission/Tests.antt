-- ===== src/Admission/Tests.antt =====
-- Events of a Receiver.
use session_peer.Common.{◌≡◌, ◌≤◌, refl, true, ◌||◌, false, [], ◌∷◌, List, length}
use session_peer.Admission.{Event, spawns, authenticates, relayed, contains, run, fresh}
use session_peer.Admission.Limits.{run-bounds}
use session_peer.Admission.Places.{run-places}

-- three connections through the Relay, of which one is authenticated first
abbrev arrivals : List Event
arrivals =
    spawns false (relayed 1)
    ∷ authenticates false (relayed 1)
    ∷ spawns false (relayed 2)
    ∷ spawns false (relayed 3)
    ∷ spawns false (relayed 4)
    ∷ []

third_is_refused : (run arrivals fresh).relay_preauth ≡ relayed 2 ∷ relayed 3 ∷ []
unfolding run session_peer.Common.Sql.delete session_peer.Common.Sql.find
third_is_refused = refl

run-bounds_example :
    let r = run arrivals fresh in
    (length r.direct_preauth ≤ 16) × (length r.relay_preauth ≤ 2) × (length r.authenticated ≤ 8)
run-bounds_example = run-bounds arrivals

connected : contains (relayed 2) (run arrivals fresh).connections ≡ true
unfolding run session_peer.Common.Sql.find session_peer.Common.Sql.delete
connected = refl

run-places_example :
    let r = run arrivals fresh in
    (contains (relayed 2) r.direct_preauth
      || contains (relayed 2) r.relay_preauth
      || contains (relayed 2) r.authenticated)
    ≡ true
run-places_example = run-places arrivals (relayed 2) connected
