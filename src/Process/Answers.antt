-- ===== src/Process/Answers.antt =====
-- What an answer of the API of app/internal/web/internal.go leaves in the database.
use tunnel_service.Prelude.{
  ℕ, ◌≡◌, refl, String, Text, Bool, true, false, not, ◌&&◌, Option, none, some, List, [], ◌∷◌, ◌/◌,
  if◌then◌else◌,
}
use tunnel_service.Model.{Time, Result, ok, err, Protocol, is_web, is_tcp}
use tunnel_service.Store.Db.{Db}
use tunnel_service.Store.Tx.{Tx}
use tunnel_service.Store.Calls.{Call, run_all, perform as perform_call}
use tunnel_service.Service.Traced.{IsCall, IsRead, plain-IsCall}
use tunnel_service.Store.Bind.{authorize_bind}
use tunnel_service.Store.Tunnels.{apply_connect, apply_disconnect}
use tunnel_service.Store.Telemetry.{add_telemetry_batch}
use tunnel_service.Store.Authorized.{authorize_bind_sound}
use tunnel_service.Web.Internal.{
  Response, status, answer, BindAuthorization, TunnelEvent, names_for, has_host, granted, tunnel_of,
  no_content, is_event, is_closing, is_telemetry, to_counts, Endpoint, Caller, authorize, connect,
  disconnect, telemetry, elsewhere, handle, authorize_at, connect_at, wire_port, natural, or_now,
  second, pass_or, protect, refusal, serve,
}

-- An answer of sish's API, whose database is that of a run of calls.
pub record IsAnswer (db : Db) (x : Response × Db) : Type 0 where
  pub calls : List Call
  pub left : x.1 ≡ run_all calls db

untouched : (db : Db) (r : Response) → IsAnswer db (r, db)
unfolding run_all
untouched db r = record { calls = []; left = refl }

answered :
    {A : Type 0} (c : Call) (m : Tx A) (failed : ℕ) (f : A → Response) (db : Db)
    → IsCall c m
    → IsAnswer db (answer db failed f (m db))
unfolding run_all
answered {A} c m failed f db k = go (m db) refl
  where
    go : (r : Result (A × Db)) → m db ≡ r → IsAnswer db (answer db failed f r)
    go (ok (a, db')) e = record { calls = c ∷ []; left = k.leaves db a db' e }
    go (err x) e = record { calls = []; left = refl }

asked :
    {A : Type 0} (m : Tx A) (failed : ℕ) (f : A → Response) (db : Db)
    → IsRead m
    → IsAnswer db (answer db failed f (m db))
unfolding run_all
asked {A} m failed f db k = go (m db) refl
  where
    go : (r : Result (A × Db)) → m db ≡ r → IsAnswer db (answer db failed f r)
    go (ok (a, db')) e = record { calls = []; left = k.same db a db' e }
    go (err x) e = record { calls = []; left = refl }

authorize_bind-IsRead :
    (fp : String) (label : Text) (protocol : Protocol) (port : ℕ)
    → IsRead (authorize_bind fp label protocol port)
authorize_bind-IsRead fp label protocol port = record {
  same = λ db (b, g) db' h. (authorize_bind_sound fp label protocol port db h).0;
}

either :
    (db : Db) (b : Bool) (x y : Response × Db)
    → IsAnswer db x
    → IsAnswer db y
    → IsAnswer db (if b then x else y)
either db true x y h k = h
either db false x y h k = k

past :
    (o : Option ℕ) (inner : Db → Response × Db) (db : Db)
    → IsAnswer db (inner db)
    → IsAnswer db (pass_or o inner db)
past none inner db h = h
past (some code) inner db h = untouched db (status code)

authorize_at-IsAnswer :
    (q : BindAuthorization) (protocol : Protocol) (host : Option (Text × Text)) (db : Db)
    → IsAnswer db (authorize_at q protocol host db)
unfolding authorize_at
authorize_at-IsAnswer q protocol host db =
    let (label, fqdn) = names_for protocol host in
    either db (not (has_host host) && is_web protocol) (status 403, db) _
      (untouched db (status 403))
      (asked (authorize_bind q.fingerprint label protocol (wire_port q.port)) 403 (granted fqdn) db
        (authorize_bind-IsRead q.fingerprint label protocol (wire_port q.port)))

connect_at-IsAnswer :
    (e : TunnelEvent) (protocol : Protocol) (host : Option (Text × Text)) (now : Time) (db : Db)
    → IsAnswer db (connect_at e protocol host now db)
unfolding connect_at perform_call
connect_at-IsAnswer e protocol host now db =
    let (label, fqdn) = names_for protocol host in
    let t = tunnel_of e protocol fqdn now in
    either db (not (has_host host) && not (is_tcp protocol)) (status 400, db) _
      (untouched db (status 400))
      (answered (Call.connect t label e.source_id e.event_id)
        (apply_connect t label e.source_id e.event_id) 503 no_content db
        (plain-IsCall _ _ (λ d. refl)))

module _ (to_lower : ℕ → ℕ) (domain : Text) (now : Time) where
  handle-IsAnswer : (e : Endpoint) (db : Db) → IsAnswer db (handle to_lower domain now e db)
  unfolding handle perform_call
  handle-IsAnswer (authorize (some q)) db = authorize_at-IsAnswer q _ _ db
  handle-IsAnswer (connect (some e)) db =
      either db (is_event e) _ (status 400, db) (connect_at-IsAnswer e _ _ now db)
        (untouched db (status 400))
  handle-IsAnswer (disconnect id (some q)) db =
      let n = natural q.sequence in
      let at = or_now now q.disconnected_at in
      either db (is_closing q) _ (status 400, db)
        (answered (Call.disconnect id q.source_id q.event_id n at)
          (apply_disconnect id q.source_id q.event_id n at) 503 no_content db
          (plain-IsCall _ _ (λ d. refl)))
        (untouched db (status 400))
  handle-IsAnswer (telemetry (some q)) db =
      let counts = to_counts q.events in
      either db (is_telemetry q) _ (status 400, db)
        (answered (Call.telemetry q.event_id (now / second) counts)
          (add_telemetry_batch q.event_id (now / second) counts) 503 no_content db
          (plain-IsCall _ _ (λ d. refl)))
        (untouched db (status 400))
  handle-IsAnswer (authorize none) db = untouched db (status 400)
  handle-IsAnswer (connect none) db = untouched db (status 400)
  handle-IsAnswer (disconnect id none) db = untouched db (status 400)
  handle-IsAnswer (telemetry none) db = untouched db (status 400)
  handle-IsAnswer (elsewhere known) db = untouched db (status (if known then 405 else 404))

  pub serve-IsAnswer :
      (c : Caller) (e : Endpoint) (db : Db) → IsAnswer db (serve to_lower domain now c e db)
  unfolding serve protect
  serve-IsAnswer c e db = past (refusal c) (handle to_lower domain now e) db (handle-IsAnswer e db)
