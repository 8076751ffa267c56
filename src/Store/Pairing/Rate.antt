-- ===== src/Store/Pairing/Rate.antt =====
-- The rate limits: how many calls `_pairing_transaction` of session_peer_relay/store.py lets in in a minute.
use session_peer.Common.{
  String, ◌==◌, ◌&&◌, some, none, is_some, Option, ℕ, ◌≤◌, ◌≡◌, Bool, true, false, List, [], ◌∷◌,
  ◌++◌, string_eq, ok, Outcome, length, if◌then◌else◌,
}
use session_peer.Common.Json.{Json, str}
use session_peer.Common.Sql.{exists}
use session_peer.Store.State.{Store, Scope, create, prepare, offer}
use session_peer.Store.Reasons.{Reason}
use session_peer.Store.State.{Offer}
use session_peer.Store.Pairing.{admit, Mode, attempts}
use session_peer.Store.Pairing.Charges.{last_minute, Fits, Charges}

-- the scopes that a call is charged to, with the offers that there are
abbrev creation_scopes : Bool → List Scope
creation_scopes true = create ∷ []
creation_scopes false = []

abbrev offer_scopes : Json → List Offer → List Scope
offer_scopes (str ident) os = if exists (λ o. o.id == ident) os then offer ident ∷ [] else []
offer_scopes _ os = []

abbrev attempt_scopes : Option Json → List Offer → List Scope
attempt_scopes none os = []
attempt_scopes (some value) os = (prepare ∷ []) ++ offer_scopes value os

-- whether a call counts for a scope
abbrev is_attempt : String → Option Json → Bool
is_attempt ident (some (str t)) = t == ident
is_attempt ident _ = false

abbrev pub counts : Scope → List Offer → Mode → Bool
counts create os mode = mode.creation
counts prepare os mode = is_some mode.attempt
counts (offer ident) os mode = is_attempt ident mode.attempt && exists (λ o. o.id == ident) os

-- A history of calls, the earliest first, and the log of those that were let in, the latest first.
abbrev logged : Mode → ℕ → Outcome Reason Unit → List (Mode × ℕ) → List (Mode × ℕ)
logged mode now (ok _) log = (mode, now) ∷ log
logged mode now _ log = log

unfoldable pub run_admits : List (Mode × ℕ) → List (Mode × ℕ) → Store → List (Mode × ℕ) × Store
run_admits [] log s = (log, s)
run_admits ((mode, now) ∷ rest) log s =
    let (r, t) = admit mode now s in run_admits rest (logged mode now r log) t

-- the times of the calls that count for a scope
abbrev pub times : Scope → List Offer → List (Mode × ℕ) → List ℕ
times scope os [] = []
times scope os ((mode, now) ∷ log) =
    if counts scope os mode then now ∷ times scope os log else times scope os log

-- The clock never runs back, and starts at `start`.
abbrev pub IsOrdered : ℕ → List (Mode × ℕ) → Type 0
IsOrdered start [] = Unit
IsOrdered start ((mode, now) ∷ rest) = (start ≤ now) × IsOrdered now rest

abbrev pub last_time : ℕ → List (Mode × ℕ) → ℕ
last_time start [] = start
last_time start ((mode, now) ∷ rest) = last_time now rest

-- The log is in the stored attempts, as far as the last minute goes.
record Agrees (os : List Offer) (last : ℕ) (log : List (Mode × ℕ)) (s : Store) : Type 0 where
  stored :
      (scope : Scope) (later : ℕ)
      → last ≤ later
      → length (last_minute later (times scope os log))
        ≤ length (last_minute later (attempts scope s))
  fits : Fits s
  offers : s.offers ≡ os
