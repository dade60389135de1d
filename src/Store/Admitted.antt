-- ===== src/Store/Admitted.antt =====
-- What `AuthorizeBind` allows, `ApplyTunnelConnect` of app/internal/store/hardening.go admits.
use tunnel_service.Prelude.{
  ℕ, ◌≤◌, ◌≡◌, ◌≢◌, refl, sym, String, Text, true, false, ◌&&◌, arith, any, pos, str_eq, eq_refl,
  ◌==◌, ==_iff, ltb,
}
use tunnel_service.Model.{
  ActiveTunnel, SshKey, Error, Result, ok, err, is_live, EventCursor, LifecycleEvent, Protocol,
}
use tunnel_service.Store.Db.{Db}
use tunnel_service.Store.Tx.{◌>>=◌}
use tunnel_service.Store.Bind.{authorize_bind, is_granted, is_system, user_bound}
use tunnel_service.Store.Tunnels.{
  validate_source, record_event, move_cursor, upsert_tunnel, apply_connect,
}
use tunnel_service.Store.Known.{is_known}
use tunnel_service.Store.Valid.{IsValid}
use tunnel_service.Store.Entitled.{IsUsable, Reserves}
use tunnel_service.Store.Authorized.{authorize_bind_iff}
use tunnel_service.Store.Granted.{is_granted_iff}

-- Nothing in the database stands in the way of the event: its source is good, and neither the event,
-- its sequence nor the tunnel has been seen.
pub record IsNews (t : ActiveTunnel) (source event : String) (db : Db) : Type 0 where
  pub source_good : validate_source source db ≡ ok (tt, db)
  pub event_new : is_known event db ≡ false
  pub sequence_new :
      any
        (λ (e : LifecycleEvent). str_eq e.source_id source && e.sequence == t.event_sequence)
        db.lifecycle_events
      ≡ false
  pub cursor_new : any (λ (c : EventCursor). str_eq c.tunnel_id t.id) db.cursors ≡ false
  pub tunnel_new : any (λ (o : ActiveTunnel). str_eq o.id t.id) db.tunnels ≡ false

accepted :
    (t : ActiveTunnel) (label : Text) (source event : String) (db : Db) {e : Error}
    → (t.generation == db.generation) ≡ true
    → is_granted t label db ≡ true
    → validate_source source db ≡ ok (tt, db)
    → is_known event db ≡ false
    → any
        (λ (e : LifecycleEvent). str_eq e.source_id source && e.sequence == t.event_sequence)
        db.lifecycle_events
      ≡ false
    → ltb 65535 t.tcp_port ≡ false
    → apply_connect t label source event db ≢ err e
unfolding apply_connect ◌>>=◌ record_event move_cursor upsert_tunnel is_known
accepted t label source event db g h v n s p e = ground arith

added :
    (t : ActiveTunnel) (label : Text) (source event : String) (db db' : Db)
    → IsNews t source event db
    → apply_connect t label source event db ≡ ok (tt, db')
    → any (λ (o : ActiveTunnel). str_eq o.id t.id && is_live o.status) db'.tunnels ≡ true
unfolding apply_connect ◌>>=◌ record_event move_cursor upsert_tunnel is_known any
added t label source event db db' n h = ground (arith, eq_refl t.id)

-- The tunnel of the key over the protocol, with the label or the port, at the generation.
pub record IsOf (t : ActiveTunnel) (k : SshKey) (protocol : Protocol) (port g : ℕ) : Type 0 where
  pub user : t.user_id ≡ k.user_id
  pub key : t.ssh_key_id ≡ pos k.id
  pub by : t.protocol ≡ protocol
  pub at_port : t.tcp_port ≡ port
  pub generation : t.generation ≡ g

module _ (db : Db) (v : IsValid db) (k : SshKey) (u : IsUsable db k) (label : Text)
    (protocol : Protocol) (port : ℕ) where
  granted_of :
      (t : ActiveTunnel)
      → IsOf t k protocol port db.generation
      → Reserves db k.user_id protocol label port
      → is_granted t label db ≡ true
  granted_of t o r =
      let reserves : Reserves db t.user_id t.protocol label t.tcp_port =
        rw (o.user, o.by, o.at_port) r in
      (is_granted_iff db t label v (not_system t o.key)).1 ((k, u, o.key, sym o.user), reserves)
    where
      not_system : (t : ActiveTunnel) → t.ssh_key_id ≡ pos k.id → is_system t ≡ false
      not_system t e = ground arith

  -- In a valid database, a bind of a usable key that is authorized is followed by a connect event
  -- that is accepted: one with the answered key, user and generation, a port that fits 16 bits, and
  -- nothing in the database against its source, event, sequence and tunnel. The tunnel is then live.
  pub authorize_bind-connect :
      (t : ActiveTunnel) (source event : String)
      → authorize_bind k.fingerprint label protocol port db ≡ ok ((user_bound k, db.generation), db)
      → IsOf t k protocol port db.generation
      → port ≤ 65535
      → IsNews t source event db
      → (db' : Db) × (apply_connect t label source event db ≡ ok (tt, db'))
        × (any (λ (o : ActiveTunnel). str_eq o.id t.id && is_live o.status) db'.tunnels ≡ true)
  authorize_bind-connect t source event auth o fits n =
      go (apply_connect t label source event db) refl
    where
      reserves : Reserves db k.user_id protocol label port
      reserves = (authorize_bind_iff label protocol port db k v u).0 auth

      small : ltb 65535 t.tcp_port ≡ false
      small = let e = o.at_port in ground arith

      go :
          (r : Result (Unit {0} × Db))
          → apply_connect t label source event db ≡ r
          → (db' : Db) × (apply_connect t label source event db ≡ ok (tt, db'))
            × (any (λ (o : ActiveTunnel). str_eq o.id t.id && is_live o.status) db'.tunnels ≡ true)
      go (ok (tt, db')) e = (db', e, added t label source event db db' n e)
      go (err x) e = absurd (
          accepted t label source event db ((==_iff t.generation db.generation).1 o.generation)
            (granted_of t o reserves) n.source_good n.event_new n.sequence_new small e)
