-- ===== src/Handoff/Samples.antt =====
-- Ledgers, a machine and a collector to run session_peer_core/handoff.py on.
use session_peer.Common.{String, true, false, none, some, [], ◌∷◌, ◌+◌}
use session_peer.Common.Json.{Fields, bool, num, null, obj, dict}
use session_peer.Handoff.State.{
  Record, Ledger, Binding, Capability, Wait, Goal, WaitStatus, prepared, terminal, not_attempted,
  submitted,
}
use session_peer.Handoff.Texts.{Library}
use session_peer.Handoff.Transactions.{Moment}
use session_peer.Handoff.Intents.{Intent}
use session_peer.Handoff.Wire.{Wire}
use session_peer.Handoff.Waits.{Start}
use session_peer.Handoff.Send.{Wishes}

abbrev pub hex64 : String
hex64 = "0123456789abcdef0123456789abcdef0123456789abcdef0123456789abcdef"

abbrev pub ident : String
ident = "11111111-1111-4111-8111-111111111111"

abbrev pub other : String
other = "22222222-2222-4222-9222-222222222222"

abbrev pub epoch : String
epoch = "33333333-3333-4333-a333-333333333333"

abbrev pub clock_id : String
clock_id = "44444444-4444-4444-b444-444444444444"

abbrev pub receipt_id : String
receipt_id = "55555555-5555-4555-8555-555555555555"

abbrev pub token : String
token = "AAAAAAAAAAAAAAAAAAAAAAAAAAAAAAAAAAAAAAAAAAA"

-- one digest for every text, one token for all bytes, and the sizes of small texts
abbrev pub library : Library
library = record {
  dumps = λ _. "[]";
  sha256 = λ _. hex64;
  decode64 = λ _.
      0 ∷ 0 ∷ 0 ∷ 0 ∷ 0 ∷ 0 ∷ 0 ∷ 0 ∷ 0 ∷ 0 ∷ 0 ∷ 0 ∷ 0 ∷ 0 ∷ 0 ∷ 0 ∷ 0 ∷ 0 ∷ 0 ∷ 0 ∷ 0 ∷ 0 ∷ 0 ∷ 0
      ∷ 0 ∷ 0 ∷ 0 ∷ 0 ∷ 0 ∷ 0 ∷ 0 ∷ 0 ∷ [];
  encode64 = λ _. token;
  json_size = λ _. 300;
  record_size = λ _. 900;
  ledger_size = λ _. 2000;
}

abbrev pub moment : Moment
moment = record { boot = some hex64; clock = λ n. 1000 + n; utc = 1700000000000 }

abbrev pub binding : Binding
binding = record {
  agent = "claude";
  destination = "local" ∷ [];
  target = "4711";
  home = none;
  payload_digest = hex64;
}

abbrev pub intent : Intent
intent = record { binding = binding; generation = some "gen-1"; context = none }

abbrev pub fresh : Record
fresh = record {
  id = ident;
  binding = binding;
  generation = some "gen-1";
  phase = prepared;
  submission = not_attempted;
  native = none;
  waits = [];
  ack = none;
  created = 500;
  created_utc = 1700000000000;
  capability = none;
  history_boot = some hex64;
  receipt = none;
  observe = false;
  ack_requested = false;
  context = none;
}

abbrev pub capability : Capability
capability = record {
  hash = hex64;
  clock_epoch = clock_id;
  expires = 86400000000500;
  revoked = false;
}

abbrev pub profile : Fields
profile = dict (
    ("ok", bool true)
    ∷ ("target", obj (dict (("pid", num 4711) ∷ ("name", null) ∷ [])))
    ∷ ("chars", num 12)
    ∷ ("dryRun", bool false)
    ∷ [])

abbrev pub waiting : Wait
waiting = record {
  goal = Goal.acknowledged;
  status = WaitStatus.pending;
  operation = other;
  deadline_utc = 1700000060000;
  deadline = 2000;
  clock_epoch = some clock_id;
  reason = none;
}

-- submitted, with a receipt to come
abbrev pub sent : Record
sent = record fresh {
  phase = terminal;
  submission = submitted;
  native = some profile;
  waits = waiting ∷ [];
  capability = some capability;
  ack_requested = true;
}

abbrev pub ledger : Ledger
ledger = record { epoch = epoch; records = fresh ∷ [] }

abbrev pub sent_ledger : Ledger
sent_ledger = record { epoch = epoch; records = sent ∷ [] }

abbrev pub wishes : Wishes
wishes = record { observe = false; request_ack = true; wait_for = none }

abbrev pub start : Start
start = record {
  goal = Goal.acknowledged;
  deadline = 2000;
  clock_epoch = some clock_id;
  initial = none;
  reason = none;
  operation = other;
  now = 1001;
  utc = 1700000000000;
}

abbrev pub wire : Wire
wire = record {
  epoch = epoch;
  correlation = ident;
  generation = "gen-1";
  receipt = receipt_id;
  capability = token;
}
