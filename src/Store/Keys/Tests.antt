-- ===== src/Store/Keys/Tests.antt =====
-- Runs of `authorize` and `revoke`.
use session_peer.Common.{◌≡◌, ◌↔◌, refl, some, ok, rejected, arith, eq_iff}
use session_peer.Common.Sql.{find}
use session_peer.Common.Json.{str}
use session_peer.Store.State.{Peer, paired}
use session_peer.Store.Keys.{find_peer, find_key, principal, authorize, revoke}
use session_peer.Store.Keys.Access.{Allowed, authorize_iff, revoke_denies, revoke_retires}
use session_peer.Store.Reasons.{unpaired_device, operation_denied, retired_key}
use session_peer.Store.Samples.{key_a, key_b, laptop_key, with_laptop}

sending : (authorize key_a (str "send") with_laptop).0 ≡ ok tt
unfolding authorize find
sending = refl

unknown : (authorize key_a (str "delete") with_laptop).0 ≡ rejected operation_denied
unfolding authorize find
unknown = refl

authorize_iff_example :
    (((authorize key_a (str "send") with_laptop).0 ≡ ok tt) ↔ (
      (row : Peer) × (find_peer key_a with_laptop ≡ some row)
      × (row.status ≡ paired)
      × Allowed row.capabilities (str "send")))
    × ((authorize key_a (str "send") with_laptop).1 ≡ with_laptop)
authorize_iff_example = authorize_iff key_a (str "send") with_laptop

revoke_denies_example :
    let t = (revoke key_a with_laptop).1 in
    (authorize key_a (str "send") t ≡ (rejected unpaired_device, t))
    × ((authorize key_b (str "send") t).0 ≡ (authorize key_b (str "send") with_laptop).0)
revoke_denies_example =
    revoke_denies key_a key_b (str "send") with_laptop (ground (arith, eq_iff key_b key_a))

found : find_key key_a with_laptop ≡ some laptop_key
unfolding find
found = refl

revoke_retires_example :
    let t = (revoke key_a with_laptop).1 in principal 5 key_a t ≡ (rejected retired_key, t)
revoke_retires_example = revoke_retires key_a key_a laptop_key 5 with_laptop found refl
