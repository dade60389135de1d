-- ===== src/Store/Late.antt =====
-- A connect event that is overtaken by the disconnect event of its tunnel: the cursors of
-- app/internal/store/hardening.go.
use tunnel_service.Prelude.{
  ℕ, ◌≤◌, ◌≡◌, String, Text, Bool, true, false, not, List, arith, any, All, if◌then◌else◌,
}
use tunnel_service.Model.{Time, ActiveTunnel, ok}
use tunnel_service.Store.Db.{Db}
use tunnel_service.Store.Tx.{◌>>=◌, ◌>>◌, pure, modify}
use tunnel_service.Store.Rules.{>>=-eq-ok}
use tunnel_service.Store.Known.{is_known}
use tunnel_service.Store.Tunnels.{
  validate_source, record_event, move_cursor, apply_connect, apply_disconnect, close_tunnel,
  raise_sequence,
}
use tunnel_service.Store.Calls.{Call, run_all}
use tunnel_service.Store.Cursors.{Passed, moves, here, move_cursor-Passed, no_move}
use tunnel_service.Store.Watch.{cursor}
use tunnel_service.Store.Kept.{Spares, run_all-Keeps}

is_new :
    (source event : String) (n : ℕ) (db mid after : Db) {u : Unit {0}} {new : Bool}
    → is_known event db ≡ false
    → validate_source source db ≡ ok (u, mid)
    → record_event event source n mid ≡ ok (new, after)
    → new ≡ true
unfolding is_known validate_source record_event
is_new source event n db mid after e p q = ground arith

closing :
    (id : String) (n : ℕ) (at : Time) (moved : Bool) (db db' : Db)
    → (if not moved then pure tt else (modify (close_tunnel id n at) >> modify (raise_sequence n)))
        db
      ≡ ok (tt, db')
    → db.cursors ≡ db'.cursors
unfolding ◌>>=◌ close_tunnel raise_sequence
closing id n at moved db db' h = ground arith

-- A new disconnect event leaves the cursor of its tunnel at its sequence or past it.
disconnect-Passed :
    (id source event : String) (n : ℕ) (at : Time) (db db' : Db)
    → is_known event db ≡ false
    → apply_disconnect id source event n at db ≡ ok (tt, db')
    → Passed id source n db'
unfolding apply_disconnect
disconnect-Passed id source event n at db db' new h =
    let (u, d1, p1, q1) = >>=-eq-ok (validate_source source) _ db h in
    let (b, d2, p2, q2) = >>=-eq-ok (record_event event source n) _ d1 q1 in
    let (moved, d3, p3, q3) =
      >>=-eq-ok (move_cursor id source n true) _ d2
        (rw (is_new source event n db d1 d2 new p1 p2) at q2) in
    let passed = move_cursor-Passed id source n true d2 d3 p3 in
    let cs = closing id n at moved d3 db' q3 in
    record { there = rw (← cs) passed.there; past = rw (← cs) passed.past }

late_same :
    (t : ActiveTunnel) (label : Text) (source event : String) (db db' : Db)
    → any (here t.id) db.cursors ≡ true
    → any (moves t.id source t.event_sequence) db.cursors ≡ false
    → apply_connect t label source event db ≡ ok (tt, db')
    → db'.tunnels ≡ db.tunnels
unfolding apply_connect ◌>>=◌ record_event move_cursor validate_source
late_same t label source event db db' a b h = ground arith

-- After a new disconnect event at sequence n, and any calls that are neither a snapshot nor an event
-- of another source, a connect event of the same tunnel from the same source, with a sequence of n at
-- most, leaves the tunnels as they are where it is accepted.
pub late_connect :
    (id source event : String) (n : ℕ) (at : Time) (db mid : Db)
    → is_known event db ≡ false
    → apply_disconnect id source event n at db ≡ ok (tt, mid)
    → (calls : List Call) → All (Spares (cursor id source n)) calls
    → (t : ActiveTunnel) (label : Text) (other : String) (db' : Db) → t.id ≡ id
    → t.event_sequence ≤ n
    → apply_connect t label source other (run_all calls mid) ≡ ok (tt, db')
    → db'.tunnels ≡ (run_all calls mid).tunnels
late_connect id source event n at db mid new h calls spare t label other db' same le k =
    let passed : Passed t.id source n (run_all calls mid) = rw same (
      run_all-Keeps (cursor id source n) calls mid spare
        (disconnect-Passed id source event n at db mid new h)) in
    late_same t label source other (run_all calls mid) db' passed.there
      (no_move t.id source t.event_sequence n (run_all calls mid) le passed) k
