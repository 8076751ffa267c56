-- ===== src/Recovery/Tests.antt =====
-- Runs of session_peer_relay/recovery.py: a device that is restored with a request in its journal.
use session_peer.Common.{
  ℕ, String, Bool, true, false, Option, none, some, List, [], ◌∷◌, ◌≡◌, refl, ok, rejected, crash,
  ◌==◌, string_eq, is_some,
}
use session_peer.Common.Sql.{find}
use session_peer.Store.State.{Store, Request, RequestStatus, Tombstone, Platform}
use session_peer.Store.Reasons.{Reason, recovery_gates_incomplete}
use session_peer.Store.Journal as Journal
use session_peer.Store.Journal.{names}
use session_peer.Recovery.Routes.{Keeper}
use session_peer.Store.Samples.{platform, key_a, key_b, empty, laptop, laptop_key}
use session_peer.Recovery.State.{
  Plan, PlanStatus, Progress, Device, Notary, Report, not_processed, already_processed,
}
use session_peer.Recovery.Begin.{begin}
use session_peer.Recovery.Activate.{activate, is_archive}
use session_peer.Recovery.Reconcile.{reconcile}
use session_peer.Recovery.Status.{report}
use session_peer.Recovery.Gates.{activate_ready, begin_waits, is_ready}
use session_peer.Recovery.Quarantine.{begin_quarantines, inquire_each, Inquiry, ask, classify}
use session_peer.Recovery.Repeats.{reconcile_again}

-- an identifier and a label stand for the identifier that is derived from them
abbrev notary : Notary
notary = record { derived = λ ident label. label; listing = λ texts. "listing" }

abbrev keeper : Keeper
keeper = record { split = λ text. none; sign = λ d. "proof"; verified = λ cert d text. true }

abbrev tombstone : Tombstone
tombstone = record { principal = key_a; generation = 2; snapshot = 1700000000; reason = "restored" }

abbrev message : Request
message = record {
  peer = key_a;
  id = "m1";
  hash = "hello";
  status = RequestStatus.pending;
  result = none;
}

abbrev restored : Store
restored = record empty {
  peers = laptop ∷ [];
  peer_keys = laptop_key ∷ [];
  requests = message ∷ [];
  tombstones = tombstone ∷ [];
}

abbrev fresh : Device
fresh = record { store = empty; plan = none }

abbrev begun : Device
begun = (begin platform notary true restored "r1" fresh).1

abbrev ready_plan : Plan
ready_plan = record {
  id = "r1";
  status = PlanStatus.pending;
  old_principal = key_a;
  old_generation = 2;
  snapshot = 1700000000;
  new_principal = key_b;
  control = record { name = none; operation = "r1"; status = Progress.pending };
  peers = [];
  native_effects = record { peer = key_a; request = "m1"; classification = already_processed } ∷ [];
  outgoing_receipts = [];
  operations = [];
}

abbrev report_of : Device → Report
report_of d = elim d.plan [ none ↦ report true ready_plan | some p ↦ report true p ]

began : begin platform notary true restored "r1" fresh ≡ (ok (report_of begun), begun)
unfolding begin session_peer.Store.State.recovery_required find
    session_peer.Recovery.Begin.begin_new session_peer.Recovery.Begin.plan_peers
    session_peer.Recovery.Status.atomically session_peer.Recovery.Status.save
    session_peer.Recovery.Status.status session_peer.Recovery.Status.load
began = refl

begin_waits_example :
    activate platform notary true restored begun ≡ (rejected recovery_gates_incomplete, begun)
unfolding find
begin_waits_example =
    begin_waits platform notary true true restored "r1" fresh begun (report_of begun) began refl
      refl

abbrev settled : Device
settled = (reconcile platform notary true "o1" true key_a "m1" not_processed begun).1

reconciled_once :
    reconcile platform notary true "o1" true key_a "m1" not_processed begun
    ≡ (ok (report_of settled), settled)
unfolding reconcile session_peer.Common.Text.is_hex64 session_peer.Recovery.Status.load begin
    session_peer.Store.State.recovery_required find session_peer.Recovery.Begin.begin_new
    session_peer.Recovery.Begin.plan_peers session_peer.Recovery.Status.atomically
    session_peer.Recovery.Status.save session_peer.Recovery.Status.status
    session_peer.Recovery.Reconcile.reconcile_new
reconciled_once = refl

-- a report and a reconciliation after the begin
abbrev inquiries : List Inquiry
inquiries = ask true ∷ classify true "o1" true key_a "m1" not_processed ∷ []

nothing_journalled :
    find (names key_b "m2") (inquire_each platform notary keeper inquiries begun).store.requests
    ≡ none
unfolding find inquire_each session_peer.Recovery.Quarantine.inquire reconcile
    session_peer.Common.Text.is_hex64 session_peer.Recovery.Status.load
    session_peer.Recovery.Status.status begin session_peer.Store.State.recovery_required
    session_peer.Recovery.Begin.begin_new session_peer.Recovery.Begin.plan_peers
    session_peer.Recovery.Status.atomically session_peer.Recovery.Status.save
    session_peer.Recovery.Reconcile.reconcile_new
nothing_journalled = refl

begin_quarantines_example :
    Journal.begin platform key_b "m2" "hello"
      (inquire_each platform notary keeper inquiries begun).store
    ≡ (
      rejected Reason.recovery_required,
      (inquire_each platform notary keeper inquiries begun).store,
    )
unfolding find
begin_quarantines_example =
    begin_quarantines platform notary keeper true restored "r1" fresh begun (report_of begun)
      inquiries key_b "m2" "hello" began refl refl nothing_journalled

reconcile_again_example :
    (p : Plan) × (settled.plan ≡ some p)
    × (reconcile platform notary false "o1" true key_a "m1" not_processed settled
        ≡ (ok (report false p), settled))
reconcile_again_example =
    reconcile_again platform notary true false "o1" true key_a "m1" not_processed begun settled
      (report_of settled) reconciled_once

abbrev ready : Device
ready = record { store = empty; plan = some ready_plan }

activated : activate platform notary true restored ready ≡ (
  ok (report_of (activate platform notary true restored ready).1),
  (activate platform notary true restored ready).1,
)
unfolding activate session_peer.Recovery.Status.load find session_peer.Recovery.Status.remaining
    session_peer.Recovery.Activate.activate_plan session_peer.Recovery.Status.atomically
    session_peer.Recovery.Status.save session_peer.Recovery.Status.status
activated = refl

activate_ready_example :
    (p : Plan) × (some ready_plan ≡ some p)
    × (is_archive platform notary p (some tombstone) ≡ true)
    × (is_ready p ≡ true)
unfolding find
activate_ready_example =
    activate_ready platform notary true restored ready
      (activate platform notary true restored ready).1
      (report_of (activate platform notary true restored ready).1) activated
