-- ===== src/Store/Journal/AtMostOnce.antt =====
-- Deliveries as interleaved steps: each handler journals, then sends, then finishes, and any other
-- handler, or a stop of the process, may come between.
use session_peer.Common.{
  ℕ, ◌+◌, ◌≤◌, String, ◌≡◌, ◌≢◌, refl, Option, none, some, List, ◌∷◌, [], arith, ◌==◌, string_eq,
  eq_iff, ◌&&◌, ok, length, length-append, if◌then◌else◌, Outcome,
}
use session_peer.Common.Sql.{exists, find-insert, find-update, length-update}
use session_peer.Common.Json.{Fields}
use session_peer.Store.State.{Store, Platform, done}
use session_peer.Store.Reasons.{Reason}
use session_peer.Store.Journal.{names, new_request, begin, finish, final_result}
use session_peer.Store.Journal.Replies.{begin-new}

-- The state of the receiver, and the messages handed to the native inbox, the latest first.
pub record Run : Type 0 where
  pub store : Store
  pub sent : List (String × String)

-- how often a message was handed over
abbrev pub sends : String → String → List (String × String) → ℕ
sends peer ident [] = 0
sends peer ident ((p, i) ∷ sent) =
    (if p == peer && i == ident then 1 else 0) + sends peer ident sent

module _ (platform : Platform) where
  pub data Step (a b : Run) : Type 0 where
    -- `begin` answers `None`, and the message goes out
    send :
        (peer ident text : String)
        → begin platform peer ident text a.store ≡ (ok none, b.store)
        → b.sent ≡ (peer, ident) ∷ a.sent
        → Step a b
    -- `begin` answers or raises otherwise
    answer :
        (peer ident text : String) (r : Outcome Reason (Option Fields))
        → begin platform peer ident text a.store ≡ (r, b.store)
        → r ≢ ok none
        → b.sent ≡ a.sent
        → Step a b
    -- the native result arrives
    complete :
        (peer ident : String) (result : Fields)
        → b.store ≡ (finish peer ident result a.store).1
        → b.sent ≡ a.sent
        → Step a b
    -- any other method, which leaves the journal alone, or a stop and a restart
    other : b.store.requests ≡ a.store.requests → b.sent ≡ a.sent → Step a b

  pub data Reach (a : Run) : Run → Type 0 where
    here : Reach a a
    next : {b c : Run} → Reach a b → Step b c → Reach a c

-- Every message that was handed over is in the journal, and was handed over once.
abbrev pub IsJournaled : Run → Type 0
IsJournaled r =
    (peer ident : String)
    → sends peer ident r.sent ≤ (if exists (names peer ident) r.store.requests then 1 else 0)

unchanged :
    (platform : Platform) (peer ident text : String) (s s' : Store)
    (r : Outcome Reason (Option Fields))
    → begin platform peer ident text s ≡ (r, s')
    → r ≢ ok none
    → s' ≡ s
unfolding begin
unchanged platform peer ident text s s' r h ne = ground arith

exists-finish :
    (peer ident p i : String) (result : Fields) (s : Store)
    → exists (names p i) (finish peer ident result s).1.requests ≡ exists (names p i) s.requests
unfolding finish
exists-finish peer ident p i result s = ground (
  arith,
  find-update (names peer ident) (names p i)
      (λ r. record r { status = done; result = some (final_result ident result) }) s.requests
      (λ r. refl),
)

length-finish :
    (peer ident : String) (result : Fields) (s : Store)
    → length (finish peer ident result s).1.requests ≡ length s.requests
unfolding finish
length-finish peer ident result s =
    length-update (names peer ident)
      (λ r. record r { status = done; result = some (final_result ident result) }) s.requests

module _ (platform : Platform) where
  Step-IsJournaled : {a b : Run} → Step platform a b → IsJournaled a → IsJournaled b
  Step-IsJournaled {a} {b} (send peer ident text h e) inv p i = ground (
    arith,
    inv p i,
    begin-new platform peer ident text a.store b.store h,
    eq_iff peer p,
    eq_iff ident i,
    find-insert (names p i) (new_request peer ident (platform.sha256 text)) a.store.requests,
  )
  Step-IsJournaled {a} {b} (answer peer ident text r h ne e) inv p i =
      ground (arith, inv p i, unchanged platform peer ident text a.store b.store r h ne)
  Step-IsJournaled {a} {b} (complete peer ident result h e) inv p i =
      ground (arith, inv p i, exists-finish peer ident p i result a.store)
  Step-IsJournaled {a} {b} (other h e) inv p i = ground (arith, inv p i)

  Reach-IsJournaled : {a b : Run} → IsJournaled a → Reach platform a b → IsJournaled b
  Reach-IsJournaled h here = h
  Reach-IsJournaled h (next r st) = Step-IsJournaled st (Reach-IsJournaled h r)

  -- After any steps from a state in which nothing has been handed over, whatever handlers run and
  -- however they interleave or stop, a message, that is a sender and an identifier, has been handed to
  -- the native inbox at most once if the journal has a row for it, and otherwise never.
  pub at_most_once :
      (s : Store) {b : Run} (peer ident : String)
      → Reach platform (record { store = s; sent = [] }) b
      → sends peer ident b.sent ≤ (if exists (names peer ident) b.store.requests then 1 else 0)
  at_most_once s {b} peer ident r = Reach-IsJournaled (λ p i. omega arith) r peer ident

  Step-le-10000 :
      {a b : Run}
      → Step platform a b
      → length a.store.requests ≤ 10000
      → length b.store.requests ≤ 10000
  Step-le-10000 {a} {b} (send peer ident text h e) le =
      let new = new_request peer ident (platform.sha256 text) in
      ground (
        arith,
        begin-new platform peer ident text a.store b.store h,
        length-append a.store.requests (new ∷ []),
      )
  Step-le-10000 {a} {b} (answer peer ident text r h ne e) le =
      ground (arith, unchanged platform peer ident text a.store b.store r h ne)
  Step-le-10000 {a} {b} (complete peer ident result h e) le =
      ground (arith, length-finish peer ident result a.store)
  Step-le-10000 (other h e) le = ground arith

  -- No steps take a journal of at most 10000 rows beyond 10000 rows.
  pub journal-le-10000 :
      {a b : Run}
      → Reach platform a b
      → length a.store.requests ≤ 10000
      → length b.store.requests ≤ 10000
  journal-le-10000 here le = le
  journal-le-10000 (next r st) le = Step-le-10000 st (journal-le-10000 r le)
