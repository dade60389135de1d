-- ===== src/Store/Batches.antt =====
-- A telemetry batch that is delivered again: `AddSecurityTelemetryBatch` of
-- app/internal/store/hardening.go.
use tunnel_service.Prelude.{
  ℕ, ◌-◌, ◌%◌, ◌≡◌, String, Bool, true, false, List, [], ◌∷◌, arith, any, str_eq, eq_refl,
  delete_where, leb, &&_parts, any-Row, Row-any, All,
}
use tunnel_service.Model.{ok, TelemetryBatch}
use tunnel_service.Store.Db.{Db}
use tunnel_service.Store.Tx.{◌>>=◌}
use tunnel_service.Store.Calls.{Call, run_all}
use tunnel_service.Store.Watch.{batch, is_since}
use tunnel_service.Store.Kept.{Spares, run_all-Keeps}
use tunnel_service.Store.Telemetry.{
  add_telemetry_batch, record_batch, add_events, add_metric, cleanup_telemetry,
}

abbrev pub is_batch : String → TelemetryBatch → Bool
is_batch event b = str_eq b.event_id event

add_metric-batches :
    (bucket : ℕ) (e : String) (n : ℕ) (db : Db)
    → (add_metric bucket e n db).telemetry_batches ≡ db.telemetry_batches
unfolding add_metric
add_metric-batches bucket e n db = ground arith

add_events-batches :
    (bucket : ℕ) (es : List (String × ℕ)) (db db' : Db)
    → add_events bucket es db ≡ ok (tt, db')
    → db'.telemetry_batches ≡ db.telemetry_batches
unfolding add_events
add_events-batches bucket [] db db' h = ground arith
add_events-batches bucket ((e, n) ∷ es) db db' h = ground (
  arith,
  add_metric-batches bucket e n db,
  add_events-batches bucket es (add_metric bucket e n db) db',
)

-- The new batch is younger than what is dropped with it.
cleanup-any :
    (event : String) (now : ℕ) (db : Db)
    → any
        (is_since event now)
        (cleanup_telemetry now (record db {
          telemetry_batches = record { event_id = event; received_at = now } ∷ db.telemetry_batches;
        })).telemetry_batches
      ≡ true
unfolding cleanup_telemetry any delete_where
cleanup-any event now db = ground (arith, eq_refl event)

abbrev with_batch : String → ℕ → Db → Db
with_batch event now db = record db {
  telemetry_batches = record { event_id = event; received_at = now } ∷ db.telemetry_batches;
}

first_time :
    (event : String) (now : ℕ) (es : List (String × ℕ)) (db db' : Db)
    → any (is_batch event) db.telemetry_batches ≡ false
    → add_telemetry_batch event now es db ≡ ok (tt, db')
    → add_events (now - now % 60) es (cleanup_telemetry now (with_batch event now db))
      ≡ ok (tt, db')
unfolding add_telemetry_batch record_batch ◌>>=◌
first_time event now es db db' e h = ground arith

counted :
    (event : String) (now : ℕ) (es : List (String × ℕ)) (db db' : Db)
    → any (is_batch event) db.telemetry_batches ≡ false
    → add_telemetry_batch event now es db ≡ ok (tt, db')
    → any (is_since event now) db'.telemetry_batches ≡ true
counted event now es db db' e h =
    rw
      (add_events-batches (now - now % 60) es (cleanup_telemetry now (with_batch event now db)) db'
        (first_time event now es db db' e h))
      (cleanup-any event now db)

since-any :
    (event : String) (now : ℕ) (xs : List TelemetryBatch)
    → any (is_since event now) xs ≡ true
    → any (is_batch event) xs ≡ true
since-any event now xs h =
    let (b, r, s) = any-Row (is_since event now) xs h in
    Row-any (is_batch event) r (&&_parts (is_batch event b) (leb now b.received_at) s).0

again :
    (event : String) (now : ℕ) (es : List (String × ℕ)) (db db' : Db)
    → any (is_batch event) db.telemetry_batches ≡ true
    → add_telemetry_batch event now es db ≡ ok (tt, db')
    → db' ≡ db
unfolding add_telemetry_batch record_batch ◌>>=◌
again event now es db db' e h = ground arith

-- A batch that is new and is counted at `now` changes nothing where it is accepted again, at any time
-- and with any events, after any calls whose cleanups of telemetry come within 90 days of `now`.
pub batch_twice :
    (event : String) (now : ℕ) (es : List (String × ℕ)) (db mid : Db)
    → any (is_batch event) db.telemetry_batches ≡ false
    → add_telemetry_batch event now es db ≡ ok (tt, mid)
    → (calls : List Call) → All (Spares (batch event now)) calls
    → (later : ℕ) (fs : List (String × ℕ)) (db' : Db)
    → add_telemetry_batch event later fs (run_all calls mid) ≡ ok (tt, db')
    → db' ≡ run_all calls mid
batch_twice event now es db mid new h calls spare later fs db' k =
    let kept =
      run_all-Keeps (batch event now) calls mid spare (counted event now es db mid new h) in
    again event later fs (run_all calls mid) db' (since-any event now _ kept) k
