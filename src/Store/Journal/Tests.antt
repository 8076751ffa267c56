-- ===== src/Store/Journal/Tests.antt =====
-- Runs of `begin` and `finish`.
use session_peer.Common.{
  ◌≡◌, ◌≤◌, refl, some, none, ok, rejected, arith, true, [], ◌∷◌, length, if◌then◌else◌, ◌==◌,
  string_eq,
}
use session_peer.Common.Sql.{exists, find}
use session_peer.Common.Json.{Fields, bool, str, put, dict}
use session_peer.Store.State.{Store, Request, RequestStatus}
use session_peer.Store.Journal.{names, begin, finish, final_result, status}
use session_peer.Store.Journal.Replies.{finish-begin}
use session_peer.Store.Journal.AtMostOnce.{
  Run, Reach, here, next, send, answer, sends, at_most_once, journal-le-10000,
}
use session_peer.Store.Reasons.{message_id_conflict}
use session_peer.Store.Samples.{platform, key_a, empty}

abbrev journaled : Store
journaled = record empty {
  requests =
      record {
        peer = key_a;
        id = "m1";
        hash = "hello";
        status = RequestStatus.pending;
        result = none;
      }
      ∷ [];
}

begun : begin platform key_a "m1" "hello" empty ≡ (ok none, journaled)
unfolding begin find session_peer.Store.State.recovery_required
begun = refl

refused : begin platform key_a "m1" "other" journaled ≡ (rejected message_id_conflict, journaled)
unfolding begin find
refused = refl

abbrev start : Run
start = record { store = empty; sent = [] }

abbrev after : Run
after = record { store = journaled; sent = (key_a, "m1") ∷ [] }

-- a delivery, and a second request under the same identifier with another text
twice : Reach platform start after
twice =
    next {b = after} (next {b = start} here (send key_a "m1" "hello" begun refl))
      (answer key_a "m1" "other" (rejected message_id_conflict) refused (ground arith) refl)

at_most_once_example :
    sends key_a "m1" after.sent ≤ (if exists (names key_a "m1") after.store.requests then 1 else 0)
at_most_once_example = at_most_once platform empty key_a "m1" twice

journal-le-10000_example : length after.store.requests ≤ 10000
journal-le-10000_example = journal-le-10000 platform twice (omega arith)

abbrev accepted : Fields
accepted = dict (("ok", bool true) ∷ ("requestId", str "r7") ∷ [])

finish-begin_example :
    let final = final_result "m1" accepted in
    let t = (finish key_a "m1" accepted journaled).1 in
    (status key_a "m1" t ≡ (ok final, t))
    × (begin platform key_a "m1" "hello" t ≡ (
      if platform.sha256 "hello" == platform.sha256 "hello"
          then ok (some (put "duplicate" (bool true) final))
          else rejected message_id_conflict,
      t,
    ))
finish-begin_example =
    finish-begin platform key_a "m1" "hello" "hello" accepted empty journaled begun
