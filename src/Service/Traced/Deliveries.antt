-- ===== src/Service/Traced/Deliveries.antt =====
-- The rounds of app/internal/service/outbox.go and tunnels.go are traced.
use tunnel_service.Prelude.{ℕ, zero, suc, Text, Option, none, some, List, [], ◌∷◌}
use tunnel_service.Model.{
  Time, Result, Error, ok, err, not_found, OutboxItem, Payload, Kind, SshKey, TunnelSnapshot,
}
use tunnel_service.Store.Outbox.{pending_outbox}
use tunnel_service.Service.World.{Io, ◌>>◌, done}
use tunnel_service.Service.Worker.{
  Controller, with_row, write_key, remove_key, process, reschedule, settle, handle, handle_all,
  drain_rounds, drain,
}
use tunnel_service.Service.Synchronizer.{give_up, unless_synced, sync_round}
use tunnel_service.Service.Traced.{
  IsTraced, done-IsTraced, fail-IsTraced, lift-IsTraced, bind-IsTraced, read-IsTraced, rows-IsRead,
  traced_rules,
}
use tunnel_service.Service.Traced.Calls.{call_rules}
use tunnel_service.Service.Traced.Files.{
  write_file-IsTraced, remove_file-IsTraced, sync_locked-IsTraced,
}

with_row-IsTraced :
    (r : Result SshKey) (f : SshKey → Io (Unit {0}))
    → ((k : SshKey) → IsTraced (f k))
    → IsTraced (with_row r f)
with_row-IsTraced (ok k) f t = t k
with_row-IsTraced (err not_found) f t = done-IsTraced tt
with_row-IsTraced (err e) f t = fail-IsTraced e

write_key-IsTraced : (id : ℕ) → IsTraced (write_key id)
unfolding write_key
write_key-IsTraced id = search (traced_rules, with_row-IsTraced, write_file-IsTraced)

remove_key-IsTraced : (uid id : ℕ) → IsTraced (remove_key uid id)
unfolding remove_key
remove_key-IsTraced zero id = search (traced_rules, with_row-IsTraced, remove_file-IsTraced)
remove_key-IsTraced (suc uid) id = remove_file-IsTraced (suc uid) id

module _ (to_lower : ℕ → ℕ) (domain : Text) (message : Error → Text) (tunnels : Controller) where
  process-IsTraced :
      (k : Kind) (p : Payload) → IsTraced (process to_lower domain message tunnels k p)
  unfolding process
  process-IsTraced Kind.pubkey_write p = write_key-IsTraced p.key_id
  process-IsTraced Kind.pubkey_remove p = remove_key-IsTraced p.user_id p.key_id
  process-IsTraced Kind.pubkey_reconcile p = sync_locked-IsTraced
  process-IsTraced Kind.disconnect_key p = lift-IsTraced _
  process-IsTraced Kind.disconnect_user p = lift-IsTraced _
  process-IsTraced Kind.disconnect_port p = lift-IsTraced _
  process-IsTraced Kind.disconnect_host p = lift-IsTraced _
  process-IsTraced Kind.unknown p = fail-IsTraced _

  reschedule-IsTraced :
      (now : Time) (i : OutboxItem) (e : Error)
      → IsTraced (reschedule to_lower domain message tunnels now i e)
  unfolding reschedule
  reschedule-IsTraced now i e = search (traced_rules, call_rules)

  settle-IsTraced :
      (now : Time) (i : OutboxItem) (r : Result (Unit {0}))
      → IsTraced (settle to_lower domain message tunnels now i r)
  unfolding settle
  settle-IsTraced now i (ok u) = done-IsTraced tt
  settle-IsTraced now i (err e) = reschedule-IsTraced now i e

  handle-IsTraced :
      (now : Time) (i : OutboxItem) → IsTraced (handle to_lower domain message tunnels now i)
  unfolding handle
  handle-IsTraced now i = search (traced_rules, call_rules, process-IsTraced, settle-IsTraced)

  handle_all-IsTraced :
      (now : Time) (is : List OutboxItem)
      → IsTraced (handle_all to_lower domain message tunnels now is)
  unfolding handle_all
  handle_all-IsTraced now [] = done-IsTraced tt
  handle_all-IsTraced now (i ∷ is) =
      bind-IsTraced _ _ (handle-IsTraced now i) (λ u. handle_all-IsTraced now is)

  drain_rounds-IsTraced :
      (n : ℕ) (now : Time) → IsTraced (drain_rounds to_lower domain message tunnels n now)
  unfolding drain_rounds
  drain_rounds-IsTraced zero now = done-IsTraced tt
  drain_rounds-IsTraced (suc n) now =
      bind-IsTraced _ _ (read-IsTraced _ (rows-IsRead (pending_outbox now 32)))
        (each (drain_rounds-IsTraced n now))
    where
      each :
          IsTraced (drain_rounds to_lower domain message tunnels n now)
          → (items : List OutboxItem)
          → IsTraced (elim items [
            | [] ↦ done tt
            | i ∷ is ↦ do
              handle_all to_lower domain message tunnels now (i ∷ is)
              drain_rounds to_lower domain message tunnels n now
          ])
      each t [] = done-IsTraced tt
      each t (i ∷ is) = bind-IsTraced _ _ (handle_all-IsTraced now (i ∷ is)) (λ u. t)

  pub drain-IsTraced : (now : Time) → IsTraced (drain to_lower domain message tunnels now)
  unfolding drain
  drain-IsTraced now = drain_rounds-IsTraced 10 now

give_up-IsTraced : (now : Time) → IsTraced (give_up now)
unfolding give_up
give_up-IsTraced now = search (traced_rules, call_rules)

unless_synced-IsTraced : (now : Time) (r : Result (Unit {0})) → IsTraced (unless_synced now r)
unless_synced-IsTraced now (ok u) = done-IsTraced tt
unless_synced-IsTraced now (err e) = give_up-IsTraced now

pub sync_round-IsTraced : (s : Option TunnelSnapshot) (now : Time) → IsTraced (sync_round s now)
unfolding sync_round
sync_round-IsTraced none now = give_up-IsTraced now
sync_round-IsTraced (some s) now = search (traced_rules, call_rules, unless_synced-IsTraced)
