-- ===== src/Store/Tests/Once.antt =====
-- The properties of tokens, batches and times at concrete calls.
use tunnel_service.Prelude.{
  ℕ, ◌≡◌, ◌≢◌, ◌↔◌, refl, inl, inr, Text, codes, true, false, none, some, List, [], ◌∷◌, arith, pos,
  here, any, ◌%◌, ◌/◌, ◌<◌, ◌≤◌, ◌+◌, lower_text, str_eq, ◌==◌, All, All-intro,
}
use tunnel_service.Model.{ok}
use tunnel_service.Store.Db.{Db}
use tunnel_service.Store.Tx.{◌>>=◌}
use tunnel_service.Store.Calls.{Call, perform, run, run_all}
use tunnel_service.Store.Stamp.{second, stamp_lt, stamp_lt-whole}
use tunnel_service.Prelude.{◌&&◌}
use tunnel_service.Prelude.{sum_where, count, update_where}
use tunnel_service.Store.Auth.{consume_oauth_state}
use tunnel_service.Store.Telemetry.{add_telemetry_batch}
use tunnel_service.Store.Outbox.{retry_delay}
use tunnel_service.Store.OneTime.{consume_twice}
use tunnel_service.Store.Batches.{is_batch, batch_twice}
use tunnel_service.Store.Backoff.{retry_delay_exact}
use tunnel_service.Prelude.{◌*◌, ◌^◌, ◌≤◌, min}
use tunnel_service.Store.Tests.{sample}

stamp_lt-whole_example : stamp_lt (second + 1) second ≡ true
stamp_lt-whole_example = stamp_lt-whole (second + 1) second refl refl (omega arith)

abbrev waiting : Db
waiting = record sample { oauth_states = record { state_hash = "h"; expires_at = 90 } ∷ [] }

abbrev spent : Db
spent = record waiting { oauth_states = [] }

state_spent : consume_oauth_state "h" 50 waiting ≡ ok (true, spent)
unfolding consume_oauth_state tunnel_service.Prelude.find tunnel_service.Prelude.delete_where
state_spent = refl

-- Another state is opened in between.
abbrev reopened : List Call
reopened = Call.open_oauth "g" 90 ∷ Call.expire_auth 55 ∷ []

consume_twice_example :
    consume_oauth_state "h" 60 (run_all reopened spent) ≡ ok (false, run_all reopened spent)
consume_twice_example =
    consume_twice "h" 50 waiting spent true state_spent reopened (refl, (tt, tt)) 60

abbrev metered : Db
metered = run (Call.telemetry "b1" 120 (("denied", 3) ∷ [])) sample

batch_counted : add_telemetry_batch "b1" 120 (("denied", 3) ∷ []) sample ≡ ok (tt, metered)
unfolding add_telemetry_batch ◌>>=◌ tunnel_service.Store.Telemetry.record_batch any
    tunnel_service.Store.Telemetry.add_events run tunnel_service.Store.Telemetry.add_metric perform
    tunnel_service.Store.Telemetry.cleanup_telemetry
batch_counted = refl

-- Another batch and a cleanup come in between.
abbrev meanwhile : List Call
meanwhile = Call.telemetry "b2" 125 (("denied", 1) ∷ []) ∷ Call.expire_telemetry 126 ∷ []

abbrev later : Db
later = run_all meanwhile metered

b1_new : any (is_batch "b1") sample.telemetry_batches ≡ false
unfolding any
b1_new = refl

batch_again : add_telemetry_batch "b1" 130 (("denied", 5) ∷ []) later ≡ ok (tt, later)
unfolding add_telemetry_batch ◌>>=◌ tunnel_service.Store.Telemetry.record_batch any run run_all
    perform tunnel_service.Store.Telemetry.add_events tunnel_service.Store.Telemetry.add_metric
    tunnel_service.Store.Telemetry.cleanup_telemetry tunnel_service.Prelude.delete_where
batch_again = refl

batch_twice_example : later ≡ later
batch_twice_example =
    batch_twice "b1" 120 (("denied", 3) ∷ []) sample metered b1_new batch_counted meanwhile
      (omega arith, (omega arith, tt)) 130 (("denied", 5) ∷ []) later batch_again

retry_delay_exact_example : (retry_delay 9 ≡ second * 2 ^ min 9 8) × (retry_delay 9 ≤ 256 * second)
retry_delay_exact_example = retry_delay_exact 9
