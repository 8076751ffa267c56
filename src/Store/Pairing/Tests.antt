-- ===== src/Store/Pairing/Tests.antt =====
-- Runs of the rate limits, of the expiry and of a pairing transaction.
use session_peer.Common.{
  ◌≡◌, refl, some, none, ok, rejected, crash, true, false, [], ◌∷◌, List, ℕ, raise, modify, ◌>>◌,
}
use session_peer.Store.State.{Action, create, recovery_required}
use session_peer.Store.Pairing.{Mode, admit, charge, pairing_transaction, plain, expire_pairings}
use session_peer.Store.Pairing.Rate.{run_admits, times}
use session_peer.Store.Pairing.Standing.{standing, standing-expire_pairings}
use session_peer.Store.Pairing.Transaction.{SameButLimits, transaction_undone}
use session_peer.Store.Reasons.{invalid_invitation}
use session_peer.Store.Samples.{key_a, empty, with_laptop, with_pending}

-- six offers in half a minute
abbrev creation : Mode
creation = record { creation = true; attempt = none; read_only = false }

abbrev burst : List (Mode × ℕ)
burst =
    (creation, 100)
    ∷ (creation, 105)
    ∷ (creation, 110)
    ∷ (creation, 115)
    ∷ (creation, 120)
    ∷ (creation, 125)
    ∷ []

fifth_is_last : times create [] (run_admits burst [] empty).0 ≡ 120 ∷ 115 ∷ 110 ∷ 105 ∷ 100 ∷ []
unfolding run_admits admit charge session_peer.Common.Sql.find session_peer.Common.Sql.update
fifth_is_last = refl

expired_goes : standing key_a (expire_pairings 700 with_laptop) ≡ standing key_a with_laptop
unfolding session_peer.Common.Sql.find
expired_goes = standing-expire_pairings 700 with_laptop key_a (refl, tt)

standing-expire_pairings_example :
    standing key_a (expire_pairings 700 with_pending) ≡ standing key_a with_pending
unfolding session_peer.Common.Sql.find
standing-expire_pairings_example = standing-expire_pairings 700 with_pending key_a (refl, tt)

-- a body that writes and then refuses
abbrev refusing : Action Unit
refusing = modify (λ s. record s { peers = [] }) >> raise invalid_invitation

free : recovery_required with_laptop ≡ false
unfolding recovery_required session_peer.Common.Sql.find
free = refl

refuses : (pairing_transaction plain 700 refusing with_laptop).0 ≡ rejected invalid_invitation
unfolding pairing_transaction recovery_required session_peer.Common.Sql.find
refuses = refl

transaction_undone_example :
    SameButLimits
      (expire_pairings 700 with_laptop)
      (pairing_transaction plain 700 refusing with_laptop).1
transaction_undone_example =
    transaction_undone plain 700 refusing with_laptop invalid_invitation free refuses
