-- ===== src/Handoff/History/Reach.antt =====
-- Every transaction of session_peer_core/handoff.py as a step, and what any sequence of them keeps.
use session_peer.Common.{
  some, ℕ, String, Bool, false, Option, none, ◌≡◌, ap, sym, arith, raise, string_eq,
}
use session_peer.Common.Sql.{find, exists}
use session_peer.Common.Json.{Fields}
use session_peer.Handoff.State.{Record, Ledger, is_id, HandoffReason, WaitReason, Wait}
use session_peer.Handoff.Texts.{Library}
use session_peer.Handoff.Transactions.{Moment, transaction, on_record}
use session_peer.Handoff.Intents.{
  read_record, Intent, prepare, quarantine_restored, start_collector, expire_authority, quarantine,
}
use session_peer.Handoff.Collector.{collect, confirm}
use session_peer.Handoff.Waits.{Start, open_wait, on_wait}
use session_peer.Handoff.Send.{Wishes, Native, refuse, attempt, settle, withdraw, on_known}
use session_peer.Handoff.History.{
  Follows-quarantine, Follows-expire, Follows-confirm, Follows-open_wait, Follows-on_wait,
  Follows-refuse, Follows-attempt, Follows-settle, Follows-withdraw,
}
use session_peer.Handoff.History.Steps.{
  Kept, Kept-refl, Kept-trans, Kept-map, Keeps-on_record, Keeps-raise_if, Keeps->>=,
  Kept-transaction,
}
use session_peer.Handoff.History.Bodies.{
  Kept-on_known, Keeps-at_epoch, collect_frame-Keeps, prepare-keeps, prepare_again-Keeps,
  Kept-read_record,
}

module _ (library : Library) where
  pub data Step : Ledger → Ledger → Type 0 where
    preparing :
        (intent : Intent) (fresh : String) (moment : Moment) (l : Ledger)
        → find (is_id fresh) l.records ≡ none
        → Step l (transaction library moment false (prepare intent none fresh moment) l).1
    preparing_again :
        (intent : Intent) (correlation fresh : String) (moment : Moment) (l : Ledger)
        → Step l
            (transaction library moment false (prepare intent (some correlation) fresh moment) l).1
    reading :
        (moment : Moment) (read_only : Bool) (correlation : String) (l : Ledger)
        → Step l (read_record library moment read_only correlation l).1
    collecting :
        (moment : Moment) (epoch_id token : String) (frame : Fields) (l : Ledger)
        → Step l (collect library moment epoch_id token frame l).1
    confirming :
        (moment : Moment) (frame : String × String × String) (l : Ledger)
        → Step l (confirm moment library frame l).1
    refusing :
        (wishes : Wishes) (reason : WaitReason) (start : Start) (moment : Moment) (ident : String)
        (l : Ledger)
        → Step l (on_known library moment ident (refuse wishes reason start) l).1
    attempting :
        (wishes : Wishes) (cutoff now : ℕ) (start : Start) (moment : Moment) (ident : String)
        (l : Ledger)
        → Step l (on_known library moment ident (attempt wishes cutoff now start) l).1
    settling :
        (outcome : Native) (operation : Option String) (moment : Moment) (ident : String)
        (l : Ledger)
        → Step l (on_known library moment ident (settle outcome operation) l).1
    withdrawing :
        (moment : Moment) (ident : String) (l : Ledger)
        → Step l (on_known library moment ident withdraw l).1
    waiting :
        (short : Bool) (verified : Option String) (start : Start) (moment : Moment) (ident : String)
        (l : Ledger)
        → Step l
            (transaction library moment false
              (on_record ident
                (raise HandoffReason.handoff_id_unknown)
                (open_wait short verified start))
              l).1
    looking :
        (operation : String) (change : Record → Wait → Wait) (moment : Moment) (ident : String)
        (l : Ledger)
        → Step l (on_known library moment ident (on_wait operation change) l).1
    starting :
        (exists : Bool) (moment : Moment) (l : Ledger)
        → Step l (transaction library moment false (start_collector exists) l).1
    quarantining :
        (moment : Moment) (l : Ledger)
        → Step l (transaction library moment false quarantine_restored l).1

  pub data Steps : Ledger → Ledger → Type 0 where
    done : (l : Ledger) → Steps l l
    next : (k l m : Ledger) → Step k l → Steps l m → Steps k m

  Kept-Step : {l m : Ledger} → Step l m → Kept l m
  unfolding quarantine_restored start_collector collect confirm
  Kept-Step (preparing intent fresh moment l unused) =
      prepare-keeps library intent fresh moment l unused
  Kept-Step (preparing_again intent correlation fresh moment l) =
      Kept-transaction library moment false _
        (prepare_again-Keeps library intent correlation fresh moment) l
  Kept-Step (reading moment read_only correlation l) =
      Kept-read_record library moment read_only correlation l
  Kept-Step (collecting moment epoch_id token frame l) =
      Kept-transaction library moment _ _ (collect_frame-Keeps library moment epoch_id token frame)
        l
  Kept-Step (confirming moment frame l) =
      Kept-transaction library moment false _
        (Keeps-at_epoch library frame.0 frame.1 _
          (λ r r' a h. Follows-confirm moment frame.2 r r' h))
        l
  Kept-Step (refusing wishes reason start moment ident l) =
      Kept-on_known library moment ident _ l (λ r r' a h. Follows-refuse wishes reason start r r' h)
  Kept-Step (attempting wishes cutoff now start moment ident l) =
      Kept-on_known library moment ident _ l
        (λ r r' a h. Follows-attempt wishes cutoff now start r r' h)
  Kept-Step (settling outcome operation moment ident l) =
      Kept-on_known library moment ident _ l (λ r r' a h. Follows-settle outcome operation r r' h)
  Kept-Step (withdrawing moment ident l) =
      Kept-on_known library moment ident _ l
        (λ r r' a h. rw (sym (ap (λ p. p.1) h)) (Follows-withdraw r))
  Kept-Step (waiting short verified start moment ident l) =
      Kept-transaction library moment false _
        (Keeps-on_record ident _ _ (λ l l' a h. ground arith)
          (λ r r' a h. Follows-open_wait short verified start r r' h))
        l
  Kept-Step (looking operation change moment ident l) =
      Kept-on_known library moment ident _ l (λ r r' a h. Follows-on_wait operation change r r' h)
  Kept-Step (starting exists moment l) =
      Kept-transaction library moment false (start_collector exists)
        (Keeps->>= _ _ (Keeps-raise_if exists HandoffReason.receipt_channel_exists)
          (λ _ l l' a h. rw (sym (ap (λ p. p.1) h)) (Kept-map expire_authority Follows-expire l)))
        l
  Kept-Step (quarantining moment l) =
      Kept-transaction library moment false quarantine_restored
        (λ l l' a h. rw (sym (ap (λ p. p.1) h)) (Kept-map quarantine Follows-quarantine l)) l

  -- Any sequence of transactions leaves every record in the ledger, with the target, the generation and
  -- the time that it was prepared with; one that is no longer prepared never is again, and from then on
  -- its capability is the one that it had, or none.
  pub Kept-Steps : {l m : Ledger} → Steps l m → Kept l m
  Kept-Steps (done l) = Kept-refl l
  Kept-Steps (next k l m step steps) = Kept-trans k l m (Kept-Step step) (Kept-Steps steps)
