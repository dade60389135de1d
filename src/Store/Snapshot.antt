-- ===== src/Store/Snapshot.antt =====
-- `ReconcileActiveSnapshot` of app/internal/store/hardening.go: the snapshot of sish replaces what
-- the database knew up to its sequence.
use tunnel_service.Prelude.{
  ℕ, String, Text, Bool, true, false, not, ◌&&◌, ◌||◌, Option, none, some, List, [], ◌∷◌, ◌==◌, ltb,
  leb, str_eq, if◌then◌else◌, any, update_where,
}
use tunnel_service.Model.{
  Time, ActiveTunnel, TunnelSnapshot, EventCursor, live, disconnected, is_disconnected, is_web, ok,
  err, check_violation, missing_snapshot_source, stale_snapshot, retired_source,
}
use tunnel_service.Store.Db.{Db}
use tunnel_service.Store.Tx.{Tx, ◌>>◌, pure, modify, check}
use tunnel_service.Store.Bind.{is_granted}
use tunnel_service.Store.Tunnels.{is_retired}

-- The text before the first '.', if there is one behind the first byte.
upto_dot : Text → Option Text
upto_dot [] = none
upto_dot (c ∷ s) =
    let rest = upto_dot s in
    if c == b'.' then some [] else elim rest [ none ↦ none | some l ↦ some (c ∷ l) ]

unfoldable pub host_label : Text → Option Text
unfolding upto_dot
host_label host = elim (upto_dot host) [
  | none ↦ none
  | some [] ↦ none
  | some (c ∷ l) ↦ some (c ∷ l)
]

-- The label whose reservation a tunnel of the snapshot needs; a tunnel over TCP needs none.
unfoldable pub snapshot_label : ActiveTunnel → Option Text
unfolding host_label
snapshot_label t = if is_web t.protocol then host_label t.hostname else some []

unfoldable pub is_kept : ActiveTunnel → Db → Bool
is_kept t db = elim (snapshot_label t) [ none ↦ false | some label ↦ is_granted t label db ]

-- UPDATE active_tunnels SET status='disconnected',… WHERE status<>'disconnected' AND …
unfoldable pub drop_tunnels : (ActiveTunnel → Bool) → ℕ → Time → Db → Db
drop_tunnels p sequence at db = record db {
  tunnels =
      update_where (λ t. not (is_disconnected t.status) && p t)
        (λ t. record t {
          status = disconnected;
          disconnected_at = some at;
          event_sequence = sequence;
        })
        db.tunnels;
}

retire : String → Db → Db
retire source db =
    if str_eq source "" || any (λ s. str_eq s source) db.retired_sources
    then db
    else record db { retired_sources = source ∷ db.retired_sources }

-- A source other than the current one takes over.
switch_source : TunnelSnapshot → Time → Tx (Unit {0})
unfolding drop_tunnels retire
switch_source s at = do
  check (λ db. (not (is_retired s.source_id db))) retired_source
  modify (λ db. retire db.sync.source_id db)
  modify (λ db. record db { cursors = [] })
  modify (drop_tunnels (λ t. true) 0 at)

unfoldable pub adopt_source : TunnelSnapshot → Time → Tx (Unit {0})
unfolding switch_source
adopt_source s at db =
    if str_eq s.source_id db.sync.source_id then ok (tt, db) else switch_source s at db

-- UPDATE tunnel_event_cursor SET sequence=?,disconnected=1 WHERE source_id=? AND sequence<=?
unfoldable pub close_cursors : TunnelSnapshot → Db → Db
close_cursors s db = record db {
  cursors =
      update_where (λ c. str_eq c.source_id s.source_id && leb c.sequence s.sequence)
        (λ c. record c { sequence = s.sequence; disconnected = true }) db.cursors;
}

-- INSERT INTO tunnel_event_cursor … ON CONFLICT(tunnel_id) DO UPDATE SET …
unfoldable pub put_cursor : String → TunnelSnapshot → Db → Db
put_cursor id s db =
    let here = λ (c : EventCursor). str_eq c.tunnel_id id in
    let set = λ (c : EventCursor). record c {
      source_id = s.source_id;
      sequence = s.sequence;
      disconnected = false;
    } in
    if any here db.cursors
    then record db { cursors = update_where here set db.cursors }
    else record db {
      cursors =
          record {
            tunnel_id = id;
            source_id = s.source_id;
            sequence = s.sequence;
            disconnected = false;
          }
          ∷ db.cursors;
    }

-- What the upsert of a snapshot's tunnel writes over a row; owner, key and protocol stay.
abbrev pub refreshed : ActiveTunnel → ℕ → ActiveTunnel → ActiveTunnel
refreshed t sequence o = record o {
  hostname = t.hostname;
  tcp_port = t.tcp_port;
  source_ip = t.source_ip;
  generation = t.generation;
  event_sequence = sequence;
  disconnected_at = none;
  status = live;
}

abbrev pub inserted : ActiveTunnel → ℕ → ActiveTunnel
inserted t sequence = record t { event_sequence = sequence; disconnected_at = none; status = live }

-- INSERT INTO active_tunnels … ON CONFLICT(id) DO UPDATE SET … WHERE the sequence does not fall
unfoldable pub restore_tunnel : ActiveTunnel → ℕ → Tx (Unit {0})
restore_tunnel t sequence db =
    let older = λ (o : ActiveTunnel). str_eq o.id t.id && leb o.event_sequence sequence in
    if ltb 65535 t.tcp_port
    then err check_violation
    else if any (λ o. str_eq o.id t.id) db.tunnels
    then ok (tt, record db { tunnels = update_where older (refreshed t sequence) db.tunnels })
    else ok (tt, record db { tunnels = inserted t sequence ∷ db.tunnels })

unfoldable pub restore_one : TunnelSnapshot → ActiveTunnel → Tx (Unit {0})
unfolding put_cursor
restore_one s t db =
    if is_kept t db then restore_tunnel t s.sequence (put_cursor t.id s db) else ok (tt, db)

unfoldable pub restore_all : TunnelSnapshot → List ActiveTunnel → Tx (Unit {0})
restore_all s [] = pure tt
restore_all s (t ∷ ts) = do restore_one s t; restore_all s ts

-- UPDATE tunnel_sync_state SET source_id=?,last_sequence=?,available=1,…
unfoldable pub set_synced : TunnelSnapshot → Time → Db → Db
set_synced s at db = record db {
  sync = record {
    source_id = s.source_id;
    available = true;
    last_sequence = s.sequence;
    last_success_at = some at;
    last_error_at = none;
  };
}

-- The statements before the loop over the snapshot's tunnels.
unfoldable pub begin_snapshot : TunnelSnapshot → Time → Tx (Unit {0})
unfolding adopt_source drop_tunnels close_cursors
begin_snapshot s at = do
  check (λ _. not (str_eq s.source_id "")) missing_snapshot_source
  check (λ db. not (str_eq s.source_id db.sync.source_id && ltb s.sequence db.sync.last_sequence))
      stale_snapshot
  adopt_source s at
  modify (drop_tunnels (λ t. leb t.event_sequence s.sequence) s.sequence at)
  modify (close_cursors s)

unfoldable pub reconcile_snapshot : TunnelSnapshot → Time → Tx (Unit {0})
unfolding set_synced
reconcile_snapshot s at = do begin_snapshot s at; restore_all s s.tunnels; modify (set_synced s at)
