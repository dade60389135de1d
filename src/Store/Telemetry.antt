-- ===== src/Store/Telemetry.antt =====
-- Security telemetry of app/internal/store/hardening.go: batches are counted once, in buckets of a
-- minute, and kept for 90 days. Times are in seconds, the precision of these columns.
use tunnel_service.Prelude.{
  ℕ, ◌+◌, ◌-◌, ◌*◌, ◌%◌, String, Bool, true, false, not, ◌&&◌, ◌||◌, List, [], ◌∷◌, ◌==◌, ltb,
  str_eq, if◌then◌else◌, any, update_where, delete_where,
}
use tunnel_service.Model.{SecurityMetric, ok, err, invalid_telemetry}
use tunnel_service.Store.Db.{Db}
use tunnel_service.Store.Tx.{Tx, ◌>>=◌, ◌>>◌, pure, modify, check}

abbrev pub retention : ℕ
retention = 90 * 24 * 3600

unfoldable pub cleanup_telemetry : ℕ → Db → Db
cleanup_telemetry now db = record db {
  security_telemetry =
      delete_where (λ m. ltb m.bucket_start (now - retention)) db.security_telemetry;
  telemetry_batches = delete_where (λ b. ltb b.received_at (now - retention)) db.telemetry_batches;
}

-- INSERT … ON CONFLICT(bucket_start,event_type) DO UPDATE SET count=count+excluded.count
unfoldable pub add_metric : ℕ → String → ℕ → Db → Db
add_metric bucket event n db =
    let here = λ (m : SecurityMetric). m.bucket_start == bucket && str_eq m.event_type event in
    if any here db.security_telemetry
    then record db {
      security_telemetry =
          update_where here (λ m. record m { count = m.count + n }) db.security_telemetry;
    }
    else record db {
      security_telemetry =
          record { bucket_start = bucket; event_type = event; count = n } ∷ db.security_telemetry;
    }

unfoldable pub add_events : ℕ → List (String × ℕ) → Tx (Unit {0})
add_events bucket [] db = ok (tt, db)
add_events bucket ((event, n) ∷ rest) db =
    let next = add_events bucket rest (add_metric bucket event n db) in
    if str_eq event "" || ltb n 1 then err invalid_telemetry else next

-- INSERT INTO telemetry_batches … ON CONFLICT DO NOTHING: whether the batch is new.
unfoldable pub record_batch : String → ℕ → Tx Bool
record_batch event_id now db =
    if any (λ b. str_eq b.event_id event_id) db.telemetry_batches
    then ok (false, db)
    else ok (
      true,
      record db {
        telemetry_batches =
            record { event_id = event_id; received_at = now } ∷ db.telemetry_batches;
      },
    )

abbrev is_empty {ℓ} : {A : Type ℓ} → List A → Bool
is_empty [] = true
is_empty (x ∷ xs) = false

unfoldable pub add_telemetry_batch : String → ℕ → List (String × ℕ) → Tx (Unit {0})
add_telemetry_batch event_id now events = do
  check (λ _. not (str_eq event_id "") && not (is_empty events)) invalid_telemetry
  new ← record_batch event_id now
  if not new then pure tt else do modify (cleanup_telemetry now); add_events (now - now % 60) events
