-- ===== src/Store/Outbox.antt =====
-- The outbox queries: `PendingOutbox`, `CompleteOutbox` and `RetryOutbox` of
-- app/internal/store/hardening.go.
use tunnel_service.Prelude.{
  ℕ, ◌+◌, ◌*◌, ◌^◌, Text, Bool, true, not, ◌&&◌, Option, none, some, List, [], ◌==◌, ltb, min,
  if◌then◌else◌, any, select, count, update_where, take,
}
use tunnel_service.Model.{Time, OutboxItem, ok, err, not_found}
use tunnel_service.Store.Db.{Db}
use tunnel_service.Store.Tx.{Tx}
use tunnel_service.Store.Stamp.{second, stamp_lt}

abbrev pub is_due : Time → Option Time → Bool
is_due now none = true
is_due now (some t) = not (stamp_lt now t)

-- The due rows that are not completed, by id: the table is in that order.
unfoldable pub pending_outbox : Time → ℕ → Db → List OutboxItem
pending_outbox now limit db =
    take limit (select (λ i. not i.completed && is_due now i.available_at) db.outbox)

unfoldable pub complete_outbox : ℕ → Tx (Unit {0})
complete_outbox id db =
    let hit = λ (i : OutboxItem). i.id == id && not i.completed in
    if any hit db.outbox
    then ok (
      tt,
      record db {
        outbox = update_where hit (λ i. record i { completed = true; last_error = [] }) db.outbox;
      },
    )
    else err not_found

-- time.Second << min(attempts, 8), and at most five minutes
unfoldable pub retry_delay : ℕ → Time
retry_delay attempts =
    let delay = second * 2 ^ min attempts 8 in
    if ltb (300 * second) delay then 300 * second else delay

unfoldable pub retry_outbox : ℕ → ℕ → Text → Time → Db → Db
retry_outbox id attempts last_error now db = record db {
  outbox =
      update_where (λ i. i.id == id && not i.completed)
        (λ i. record i {
          attempts = attempts;
          available_at = some (now + retry_delay attempts);
          last_error = take 500 last_error;
        })
        db.outbox;
}

unfoldable pub pending_outbox_count : Db → ℕ
pending_outbox_count db = count (λ i. not i.completed) db.outbox
