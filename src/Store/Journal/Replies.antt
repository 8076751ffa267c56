-- ===== src/Store/Journal/Replies.antt =====
-- What `begin`, `finish` and `status` answer for one message, from its first delivery on.
use session_peer.Common.{
  ◌<◌, String, ◌≡◌, refl, true, false, none, some, arith, ◌==◌, string_eq, eq_iff, ok, rejected,
  length, if◌then◌else◌,
}
use session_peer.Common.Sql.{find, insert, find-insert, find-update, find-holds}
use session_peer.Common.Json.{Fields, bool, put}
use session_peer.Store.State.{Store, Request, done, recovery_required, Platform}
use session_peer.Store.Reasons.{message_id_conflict}
use session_peer.Store.Journal.{names, new_request, status, begin, finish, final_result}

names_self :
    (peer ident : String) (r : Request) → r.peer ≡ peer → r.id ≡ ident → names peer ident r ≡ true
names_self peer ident r p q = ground (arith, eq_iff peer peer, eq_iff ident ident)

module _ (platform : Platform) where
  -- `begin` asks for a delivery exactly by writing a new row, that of a message it did not know.
  pub begin-new :
      (peer ident text : String) (s s' : Store)
      → begin platform peer ident text s ≡ (ok none, s')
      → (find (names peer ident) s.requests ≡ none)
        × (s' ≡ record s {
          requests = insert (new_request peer ident (platform.sha256 text)) s.requests;
        })
        × (length s.requests < 10000)
        × (recovery_required s ≡ false)
  unfolding begin status
  begin-new peer ident text s s' h = ground arith

  -- The row that `begin` has just written is found.
  pub find-begin :
      (peer ident text : String) (s s' : Store)
      → begin platform peer ident text s ≡ (ok none, s')
      → find (names peer ident) s'.requests ≡ some (new_request peer ident (platform.sha256 text))
  find-begin peer ident text s s' h =
      let new = new_request peer ident (platform.sha256 text) in
      ground (
        arith,
        begin-new peer ident text s s' h,
        find-insert (names peer ident) new s.requests,
        names_self peer ident new refl refl,
      )

  begin-done :
      (peer ident other : String) (row : Request) (final : Fields) (s : Store)
      → find (names peer ident) s.requests ≡ some row
      → row.status ≡ done
      → row.result ≡ some final
      → begin platform peer ident other s ≡ (
        if row.hash == platform.sha256 other
            then ok (some (put "duplicate" (bool true) final))
            else rejected message_id_conflict,
        s,
      )
  unfolding begin status
  begin-done peer ident other row final s found closed has = ground arith

status-done :
    (peer ident : String) (row : Request) (final : Fields) (s : Store)
    → find (names peer ident) s.requests ≡ some row
    → row.status ≡ done
    → row.result ≡ some final
    → status peer ident s ≡ (ok final, s)
unfolding status
status-done peer ident row final s found closed has = ground arith

find-finish :
    (peer ident : String) (result : Fields) (row : Request) (s : Store)
    → find (names peer ident) s.requests ≡ some row
    → find (names peer ident) (finish peer ident result s).1.requests
      ≡ some (record row { status = done; result = some (final_result ident result) })
unfolding finish
find-finish peer ident result row s h = ground (
  arith,
  find-holds (names peer ident) {r = row} s.requests h,
  find-update (names peer ident) (names peer ident)
      (λ r. record r { status = done; result = some (final_result ident result) }) s.requests
      (λ r. refl),
)

module _ (platform : Platform) where
  -- Once a delivery that `begin` asked for is finished, `status` answers its result, and a second
  -- `begin` of the message answers the same result marked as a duplicate, if the text has the same
  -- digest; with another digest it is refused. Neither writes anything.
  pub finish-begin :
      (peer ident text other : String) (result : Fields) (s s' : Store)
      → begin platform peer ident text s ≡ (ok none, s')
      → let final = final_result ident result in
        let t = (finish peer ident result s').1 in
        (status peer ident t ≡ (ok final, t))
        × (begin platform peer ident other t ≡ (
          if platform.sha256 text == platform.sha256 other
              then ok (some (put "duplicate" (bool true) final))
              else rejected message_id_conflict,
          t,
        ))
  finish-begin peer ident text other result s s' h =
      let row = new_request peer ident (platform.sha256 text) in
      let final = final_result ident result in
      let closed : Request = record row { status = done; result = some final } in
      let t = (finish peer ident result s').1 in
      let found =
        find-finish peer ident result row s' (find-begin platform peer ident text s s' h) in
      (
        status-done peer ident closed final t found refl refl,
        begin-done platform peer ident other closed final t found refl refl,
      )
