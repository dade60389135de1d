-- ===== src/Service/Worker.antt =====
-- The outbox worker of app/internal/service/outbox.go. Its clock stands still in one pass.
use tunnel_service.Prelude.{
  ℕ, zero, suc, ◌+◌, Text, Bool, not, ◌&&◌, ◌||◌, List, [], ◌∷◌, ◌++◌, ◌==◌, if◌then◌else◌, text_eq,
  map,
}
use tunnel_service.Model.{
  Time, Result, Error, ok, err, not_found, unknown_event, OutboxItem, Payload, Kind, SshKey,
}
use tunnel_service.Store.Tx.{demand, modify}
use tunnel_service.Store.Keys.{key_by_id}
use tunnel_service.Store.Outbox.{pending_outbox, complete_outbox, retry_outbox}
use tunnel_service.Service.World.{Io, ◌>>=◌, ◌>>◌, done, fail, lift, attempt, stored}
use tunnel_service.Service.Names.{trim_space}
use tunnel_service.Service.Resources.{empty}
use tunnel_service.Service.Keys.{rows, sync_locked}
use tunnel_service.Service.KeyFiles.{write_file, remove_file}

-- `TunnelController`, which sish answers.
pub record Controller : Type 0 where
  pub drop_key : ℕ → ℕ → Result (Unit {0})
  pub drop_user : ℕ → ℕ → Result (Unit {0})
  pub drop_host : Text → ℕ → Result (Unit {0})
  pub drop_port : ℕ → ℕ → Result (Unit {0})

-- A row that is not there needs nothing; another error is returned.
abbrev pub with_row : Result SshKey → (SshKey → Io (Unit {0})) → Io (Unit {0})
with_row (ok k) f = f k
with_row (err not_found) f = done tt
with_row (err e) f = fail e

-- `strings.TrimSuffix(s, ".")`
unfoldable pub trim_dot : Text → Text
trim_dot [] = []
trim_dot (c ∷ []) = if c == b'.' then [] else c ∷ []
trim_dot (c ∷ d ∷ s) = c ∷ trim_dot (d ∷ s)

-- `strings.HasSuffix`
unfoldable pub has_suffix : Text → Text → Bool
has_suffix [] suffix = text_eq [] suffix
has_suffix (c ∷ s) suffix = text_eq (c ∷ s) suffix || has_suffix s suffix

unfoldable pub write_key : ℕ → Io (Unit {0})
write_key id = do r ← attempt (stored (demand (key_by_id id))); with_row r write_file

unfoldable pub remove_key : ℕ → ℕ → Io (Unit {0})
remove_key zero id = do
  r ← attempt (stored (demand (key_by_id id)))
  with_row r (λ k. remove_file k.user_id id)
remove_key (suc uid) id = remove_file (suc uid) id

module _ (to_lower : ℕ → ℕ) (domain : Text) (message : Error → Text) (tunnels : Controller) where
  unfoldable pub full_host : Text → Text
  unfolding trim_dot has_suffix
  full_host hostname =
      let host = map to_lower (trim_dot (trim_space hostname)) in
      let zone = map to_lower (trim_dot (trim_space domain)) in
      if not (empty zone) && not (has_suffix host (b'.' ∷ zone))
      then host ++ (b'.' ∷ zone)
      else host

  unfoldable pub process : Kind → Payload → Io (Unit {0})
  unfolding write_key remove_key sync_locked full_host
  process Kind.pubkey_write p = write_key p.key_id
  process Kind.pubkey_remove p = remove_key p.user_id p.key_id
  process Kind.pubkey_reconcile p = sync_locked
  process Kind.disconnect_key p = lift (tunnels.drop_key p.key_id p.generation)
  process Kind.disconnect_user p = lift (tunnels.drop_user p.user_id p.generation)
  process Kind.disconnect_port p = lift (tunnels.drop_port p.port p.generation)
  process Kind.disconnect_host p = lift (tunnels.drop_host (full_host p.hostname) p.generation)
  process Kind.unknown p = fail unknown_event

  unfoldable pub reschedule : Time → OutboxItem → Error → Io (Unit {0})
  reschedule now i e = do
    attempt (stored (modify (retry_outbox i.id (i.attempts + 1) (message e) now)))
    done tt

  unfoldable pub settle : Time → OutboxItem → Result (Unit {0}) → Io (Unit {0})
  unfolding reschedule
  settle now i (ok tt) = done tt
  settle now i (err e) = reschedule now i e

  -- An event that is handled is completed; any error puts it off.
  unfoldable pub handle : Time → OutboxItem → Io (Unit {0})
  unfolding settle
  handle now i = do
    r ← attempt (do process i.event.kind i.event.payload; stored (complete_outbox i.id))
    settle now i r

  unfoldable pub handle_all : Time → List OutboxItem → Io (Unit {0})
  handle_all now [] = done tt
  handle_all now (i ∷ is) = do handle now i; handle_all now is

  -- The rounds of `drain`: it stops at an error of the query and where no event is due.
  unfoldable pub drain_rounds : ℕ → Time → Io (Unit {0})
  unfolding rows
  drain_rounds zero now = done tt
  drain_rounds (suc n) now = do
    items ← stored (rows (pending_outbox now 32))
    elim items [ [] ↦ done tt | i ∷ is ↦ do handle_all now (i ∷ is); drain_rounds n now ]

  unfoldable pub drain : Time → Io (Unit {0})
  drain now = drain_rounds 10 now

  unfoldable pub rescheduled : Time → OutboxItem → Result (Unit {0}) → Io (Unit {0})
  unfolding reschedule
  rescheduled now i (ok tt) = stored (complete_outbox i.id)
  rescheduled now i (err e) = do reschedule now i e; fail e

  unfoldable pub once : Time → List OutboxItem → Io (Unit {0})
  unfolding rescheduled
  once now [] = done tt
  once now (i ∷ is) = do r ← attempt (process i.event.kind i.event.payload); rescheduled now i r

  unfoldable pub process_once : Time → Io (Unit {0})
  unfolding once rows
  process_once now = do items ← stored (rows (pending_outbox now 1)); once now items
