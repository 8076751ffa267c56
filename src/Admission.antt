-- ===== src/Admission.antt =====
-- session_peer_relay/app.py, the connections that a Receiver admits: `spawn`, the admission after the
-- TLS handshake in `handle`, `abort`, `release`, the completion of a handler and `close`. A set is a
-- list without repetitions. Whether closing a socket fails is an argument.
pub mod Limits
pub mod Places
mod Tests
use session_peer.Common.{
  ℕ, suc, Bool, true, false, List, [], ◌∷◌, ◌==◌, nat_eq, ◌&&◌, not, leb, length, if◌then◌else◌,
}
use session_peer.Common.Sql.{delete, insert_ignore, exists}

-- a connection over TCP or through the Relay, by its identity
pub data Raw : Type 0 where
  direct relayed : ℕ → Raw

abbrev pub same_raw : Raw → Raw → Bool
same_raw (direct a) (direct b) = a == b
same_raw (relayed a) (relayed b) = a == b
same_raw _ _ = false

abbrev pub is_relayed : Raw → Bool
is_relayed (relayed _) = true
is_relayed (direct _) = false

pub record Receiver : Type 0 where
  pub connections : List Raw
  pub direct_preauth : List Raw
  pub relay_preauth : List Raw
  pub authenticated : List Raw
  pub closing : Bool
  pub closing_refused : ℕ
  pub direct_refused : ℕ
  pub relay_refused : ℕ
  pub authenticated_refused : ℕ
  pub abort_failed : ℕ
  pub handler_failed : ℕ

abbrev pub fresh : Receiver
fresh = record {
  connections = [];
  direct_preauth = [];
  relay_preauth = [];
  authenticated = [];
  closing = false;
  closing_refused = 0;
  direct_refused = 0;
  relay_refused = 0;
  authenticated_refused = 0;
  abort_failed = 0;
  handler_failed = 0;
}

abbrev pub direct_limit : ℕ
direct_limit = 16

abbrev pub relay_limit : ℕ
relay_limit = 2

abbrev pub authenticated_limit : ℕ
authenticated_limit = 8

-- `raw in set`, `set.add(raw)` and `set.discard(raw)`
abbrev pub contains : Raw → List Raw → Bool
contains raw = exists (same_raw raw)

abbrev pub add : Raw → List Raw → List Raw
add raw = insert_ignore (same_raw raw) raw

abbrev pub discard : Raw → List Raw → List Raw
discard raw = delete (same_raw raw)

pub release : Raw → Receiver → Receiver
release raw r = record r {
  connections = discard raw r.connections;
  direct_preauth = discard raw r.direct_preauth;
  relay_preauth = discard raw r.relay_preauth;
  authenticated = discard raw r.authenticated;
}

pub abort : Bool → Raw → Receiver → Receiver
unfolding release
abort fails raw r =
    release raw (if fails then record r { abort_failed = suc r.abort_failed } else r)

pub accept : Raw → Receiver → Receiver
accept raw r = record r {
  connections = add raw r.connections;
  direct_preauth = if is_relayed raw then r.direct_preauth else add raw r.direct_preauth;
  relay_preauth = if is_relayed raw then add raw r.relay_preauth else r.relay_preauth;
}

pub refuse : Raw → Receiver → Receiver
refuse raw r = record r {
  relay_refused = if is_relayed raw then suc r.relay_refused else r.relay_refused;
  direct_refused = if is_relayed raw then r.direct_refused else suc r.direct_refused;
}

abbrev pub is_full : Raw → Receiver → Bool
is_full raw r =
    if is_relayed raw
    then leb relay_limit (length r.relay_preauth)
    else leb direct_limit (length r.direct_preauth)

pub spawn : Bool → Raw → Receiver → Receiver
unfolding abort accept refuse
spawn fails raw r =
    if r.closing
    then abort fails raw (record r { closing_refused = suc r.closing_refused })
    else if is_full raw r
    then abort fails raw (refuse raw r)
    else accept raw r

-- `if channel.peer:` in `handle`; a refused connection ends in the `finally` of `handle`
pub authenticate : Bool → Raw → Receiver → Receiver
unfolding abort
authenticate fails raw r =
    if leb authenticated_limit (length r.authenticated)
    then abort fails raw (record r { authenticated_refused = suc r.authenticated_refused })
    else record r {
      authenticated = add raw r.authenticated;
      direct_preauth = discard raw r.direct_preauth;
      relay_preauth = discard raw r.relay_preauth;
    }

-- the callback of `spawn` when its task is done
pub completed : Bool → Bool → Raw → Receiver → Receiver
unfolding abort
completed fails failed raw r =
    let t = if contains raw r.connections then abort fails raw r else r in
    release raw (if failed then record t { handler_failed = suc t.handler_failed } else t)

-- what may happen to a Receiver, one after another
pub data Event : Type 0 where
  spawns authenticates ends : Bool → Raw → Event
  completes : Bool → Bool → Raw → Event
  closes : Event

pub step : Event → Receiver → Receiver
unfolding spawn authenticate completed abort
step (spawns fails raw) r = spawn fails raw r
step (authenticates fails raw) r = authenticate fails raw r
step (ends fails raw) r = abort fails raw r
step (completes fails failed raw) r = completed fails failed raw r
step closes r = record r { closing = true }

pub run : List Event → Receiver → Receiver
unfolding step
run [] r = r
run (e ∷ es) r = run es (step e r)
