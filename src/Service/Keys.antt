-- ===== src/Service/Keys.antt =====
-- The operations of app/internal/service/service.go on SSH keys and on users, and Reconcile. Their
-- mutex `keyMu` runs them one at a time.
use tunnel_service.Prelude.{
  ℕ, String, Text, Bool, true, false, not, ◌&&◌, none, some, Option, List, [], ◌∷◌, ◌==◌,
  if◌then◌else◌,
}
use tunnel_service.Model.{
  Result, Error, ok, err, unique_violation, duplicate_key, suspended_user, forbidden,
  admin_protected, SshKey, active, suspended, is_active, is_admin,
}
use tunnel_service.Store.Db.{Db}
use tunnel_service.Store.Tx.{Tx, AuditEntry, demand}
use tunnel_service.Store.Keys.{
  user_by_id, key_by_id, keys_by_user, authorized_keys, insert_key_atomic, set_key_enabled,
  set_key_enabled_atomic, delete_key, delete_key_atomic,
}
use tunnel_service.Store.Users.{set_user_status_atomic}
use tunnel_service.Service.World.{Io, ◌>>=◌, ◌>>◌, done, fail, lift, attempt, stored}
use tunnel_service.Service.Names.{trim_space, clean_name}
use tunnel_service.Service.PublicKey.{Ssh, validate_public_key}
use tunnel_service.Service.KeyFiles.{write_file, remove_file, reconcile_files}

-- A query of many rows.
unfoldable pub rows : {A : Type 0} → (Db → List A) → Tx (List A)
rows q db = ok (q db, db)

unfoldable pub ensure_active : ℕ → Io (Unit {0})
ensure_active uid = do
  u ← stored (demand (user_by_id uid))
  if is_active u.status then done tt else fail suspended_user

-- `syncLocked`
unfoldable pub sync_locked : Io (Unit {0})
unfolding rows
sync_locked = do keys ← stored (rows authorized_keys); reconcile_files keys

-- `Reconcile`
unfoldable pub reconcile : Io (Unit {0})
unfolding sync_locked
reconcile = sync_locked

-- An audit entry of the actor, on the target.
abbrev pub entry : ℕ → ℕ → String → String → Option ℕ → String → AuditEntry
entry actor target action type id ip = record {
  actor = some actor;
  target = some target;
  action = action;
  resource_type = type;
  resource_id = id;
  source_ip = ip;
  metadata = "";
}

abbrev pub unless_unique : {A : Type 0} → Error → Error → Io A
unless_unique e unique_violation = fail e
unless_unique e other = fail other

abbrev pub inserted : Error → Result ℕ → Io ℕ
inserted e (ok id) = done id
inserted e (err x) = unless_unique e x

-- An insert whose UNIQUE violation is reported as the error.
unfoldable pub insert_or : Error → Tx ℕ → Io ℕ
insert_or e m = do r ← attempt (stored m); inserted e r

unfoldable pub publish_key : ℕ → Io (Unit {0})
publish_key id = do k ← stored (demand (key_by_id id)); write_file k

unfoldable pub after_delete : ℕ → Error → Result (Unit {0}) → Io ℕ
after_delete id e (ok tt) = fail e
after_delete id e (err d) = do attempt (stored (set_key_enabled id false)); fail e

-- A row is taken back only once its file is gone.
unfoldable pub after_remove : ℕ → Error → Result (Unit {0}) → Io ℕ
unfolding after_delete
after_remove id e (ok tt) = do r ← attempt (stored (delete_key id)); after_delete id e r
after_remove id e (err x) = fail e

-- The end of AddKey; joined errors are the first of them.
unfoldable pub finish_key : ℕ → ℕ → Result (Unit {0}) → Io ℕ
unfolding after_remove
finish_key uid id (ok tt) = done id
finish_key uid id (err e) = do r ← attempt (remove_file uid id); after_remove id e r

module _ {K : Type 0} (ssh : Ssh K) where
  unfoldable pub add_key : ℕ → Text → Text → String → Io ℕ
  unfolding ensure_active insert_or publish_key finish_key
  add_key uid name raw ip = do
    ensure_active uid
    lift (clean_name name)
    (key, fp) ← lift (validate_public_key ssh raw)
    id ← insert_or duplicate_key (
        insert_key_atomic uid (trim_space name) key fp
          (entry uid uid "ssh_key.add" "ssh_key" none ip))
    r ← attempt (publish_key id)
    finish_key uid id r

unfoldable pub allow : ℕ → Bool → ℕ → Io (Unit {0})
allow actor admin owner = if not admin && not (owner == actor) then fail forbidden else done tt

abbrev enable_action : Bool → Bool → String
enable_action false true = "ssh_key.enable"
enable_action false false = "ssh_key.disable"
enable_action true true = "admin.ssh_key.enable"
enable_action true false = "admin.ssh_key.disable"

abbrev pub unpublish : Bool → SshKey → Io (Unit {0})
unpublish true k = do attempt (remove_file k.user_id k.id); done tt
unpublish false k = done tt

unfoldable pub after_flag : SshKey → Bool → Result (Unit {0}) → Io (Unit {0})
after_flag k enabled (ok tt) = done tt
after_flag k enabled (err e) = do unpublish enabled k; fail e

unfoldable pub file_change : SshKey → Bool → Io (Unit {0})
file_change k true = write_file (record k { enabled = true })
file_change k false = remove_file k.user_id k.id

-- `Service.SetKeyEnabled`
unfoldable pub switch_key : ℕ → Bool → ℕ → Bool → String → Io (Unit {0})
unfolding ensure_active allow file_change after_flag
switch_key actor admin id enabled ip = do
  k ← stored (demand (key_by_id id))
  allow actor admin k.user_id
  ensure_active k.user_id
  file_change k enabled
  r ← attempt (
      stored (
        set_key_enabled_atomic id enabled
          (entry actor k.user_id (enable_action admin enabled) "ssh_key" (some id) ip)))
  after_flag k enabled r

-- `Service.DeleteKey`
unfoldable pub discard_key : ℕ → Bool → ℕ → String → Io (Unit {0})
unfolding allow
discard_key actor admin id ip = do
  k ← stored (demand (key_by_id id))
  allow actor admin k.user_id
  remove_file k.user_id k.id
  stored (
      delete_key_atomic id k.user_id (
        entry actor k.user_id (if admin then "admin.ssh_key.revoke" else "ssh_key.delete") "ssh_key"
          (some id) ip))

unfoldable pub remove_files : List SshKey → Io (Unit {0})
remove_files [] = done tt
remove_files (k ∷ ks) = do remove_file k.user_id k.id; remove_files ks

unfoldable pub suspend : ℕ → ℕ → String → Io (Unit {0})
unfolding remove_files rows
suspend actor target ip = do
  keys ← stored (rows (keys_by_user target))
  remove_files keys
  stored (
      set_user_status_atomic target suspended
        (entry actor target "admin.user.suspend" "user" (some target) ip))

unfoldable pub resume : ℕ → ℕ → String → Io (Unit {0})
unfolding sync_locked
resume actor target ip = do
  stored (
      set_user_status_atomic target active
        (entry actor target "admin.user.unsuspend" "user" (some target) ip))
  attempt sync_locked
  done tt

-- `Service.SetUserSuspended`
unfoldable pub set_user_suspended : ℕ → ℕ → Bool → String → Io (Unit {0})
unfolding suspend resume
set_user_suspended actor target stop ip = do
  u ← stored (demand (user_by_id target))
  if is_admin u.role && stop
      then fail admin_protected
      else if stop
      then suspend actor target ip
      else resume actor target ip
