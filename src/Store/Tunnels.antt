-- ===== src/Store/Tunnels.antt =====
-- The tunnel lifecycle: `ApplyTunnelConnect`, `ApplyTunnelDisconnect`, `ReconcileActiveSnapshot`
-- and `MarkTunnelSyncUnavailable` of app/internal/store/hardening.go.
use tunnel_service.Prelude.{
  ℕ, String, Text, Bool, true, false, not, ◌&&◌, ◌||◌, none, some, ◌∷◌, ◌==◌, ltb, max, str_eq,
  if◌then◌else◌, any, update_where,
}
use tunnel_service.Model.{
  Time, ActiveTunnel, EventCursor, live, stale, disconnected, is_live, ok, err, not_found,
  unique_violation, check_violation, stale_generation, missing_source, stale_source,
}
use tunnel_service.Store.Db.{Db}
use tunnel_service.Store.Tx.{Tx, ◌>>=◌, ◌>>◌, pure, modify, check}
use tunnel_service.Store.Bind.{is_granted}

unfoldable pub is_retired : String → Db → Bool
is_retired source db = any (λ s. str_eq s source) db.retired_sources

unfoldable pub validate_source : String → Tx (Unit {0})
validate_source source db =
    if str_eq source ""
    then err missing_source
    else if is_retired source db
        || (not (str_eq db.sync.source_id "") && not (str_eq db.sync.source_id source))
    then err stale_source
    else ok (tt, db)

-- INSERT INTO lifecycle_events … ON CONFLICT(event_id) DO NOTHING, under UNIQUE(source_id,
-- sequence): whether the event is new.
unfoldable pub record_event : String → String → ℕ → Tx Bool
record_event event source sequence db =
    if any (λ e. str_eq e.event_id event) db.lifecycle_events
    then ok (false, db)
    else if any (λ e. str_eq e.source_id source && e.sequence == sequence) db.lifecycle_events
    then err unique_violation
    else ok (
      true,
      record db {
        lifecycle_events =
            record { event_id = event; source_id = source; sequence = sequence }
            ∷ db.lifecycle_events;
      },
    )

abbrev pub behind : String → ℕ → EventCursor → Bool
behind source sequence c = not (str_eq source c.source_id) || ltb c.sequence sequence

-- INSERT INTO tunnel_event_cursor … ON CONFLICT(tunnel_id) DO UPDATE … WHERE the source differs or
-- the sequence grows: whether the cursor moved.
unfoldable pub move_cursor : String → String → ℕ → Bool → Tx Bool
move_cursor tunnel source sequence gone db =
    let here = λ (c : EventCursor). str_eq c.tunnel_id tunnel in
    let moves = λ (c : EventCursor). here c && behind source sequence c in
    let set = λ (c : EventCursor). record c {
      source_id = source;
      sequence = sequence;
      disconnected = gone;
    } in
    if any here db.cursors
    then ok (any moves db.cursors, record db { cursors = update_where moves set db.cursors })
    else ok (
      true,
      record db {
        cursors =
            record {
              tunnel_id = tunnel;
              source_id = source;
              sequence = sequence;
              disconnected = gone;
            }
            ∷ db.cursors;
      },
    )

abbrev activated : ActiveTunnel → ActiveTunnel
activated t = record t { status = live; disconnected_at = none }

-- INSERT INTO active_tunnels … ON CONFLICT(id) DO UPDATE SET … WHERE the sequence grows, under
-- CHECK(tcp_port BETWEEN 0 AND 65535).
unfoldable pub upsert_tunnel : ActiveTunnel → Tx (Unit {0})
upsert_tunnel t db =
    let newer = λ (o : ActiveTunnel). str_eq o.id t.id && ltb o.event_sequence t.event_sequence in
    if ltb 65535 t.tcp_port
    then err check_violation
    else if any (λ o. str_eq o.id t.id) db.tunnels
    then ok (tt, record db { tunnels = update_where newer (λ o. activated t) db.tunnels })
    else ok (tt, record db { tunnels = activated t ∷ db.tunnels })

unfoldable pub raise_sequence : ℕ → Db → Db
raise_sequence n db = record db {
  sync = record db.sync { last_sequence = max db.sync.last_sequence n };
}

unfoldable pub apply_connect : ActiveTunnel → Text → String → String → Tx (Unit {0})
unfolding raise_sequence
apply_connect t label source event = do
  check (λ db. t.generation == db.generation) stale_generation
  check (λ db. is_granted t label db) not_found
  validate_source source
  new ← record_event event source t.event_sequence
  if not new then pure tt else do
    moved ← move_cursor t.id source t.event_sequence false
    if not moved then pure tt else do upsert_tunnel t; modify (raise_sequence t.event_sequence)

-- UPDATE active_tunnels SET status='disconnected',… WHERE id=? AND event_sequence<?
unfoldable pub close_tunnel : String → ℕ → Time → Db → Db
close_tunnel id sequence at db = record db {
  tunnels =
      update_where (λ t. str_eq t.id id && ltb t.event_sequence sequence)
        (λ t. record t {
          status = disconnected;
          event_sequence = sequence;
          disconnected_at = some at;
        })
        db.tunnels;
}

unfoldable pub apply_disconnect : String → String → String → ℕ → Time → Tx (Unit {0})
unfolding close_tunnel raise_sequence
apply_disconnect id source event sequence at = do
  validate_source source
  new ← record_event event source sequence
  if not new then pure tt else do
    moved ← move_cursor id source sequence true
    if not moved
        then pure tt
        else do modify (close_tunnel id sequence at); modify (raise_sequence sequence)

-- UPDATE active_tunnels SET status='stale' WHERE status='active', and the sync state
unfoldable pub mark_unavailable : Time → Tx (Unit {0})
mark_unavailable at = modify (λ db. record db {
  tunnels = update_where (λ t. is_live t.status) (λ t. record t { status = stale }) db.tunnels;
  sync = record db.sync { available = false; last_error_at = some at };
})
