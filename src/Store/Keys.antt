-- ===== src/Store/Keys.antt =====
-- The SSH keys: queries of app/internal/store/store.go, transactions of hardening.go.
use tunnel_service.Prelude.{
  ℕ, ◌+◌, String, Text, Bool, true, false, not, ◌&&◌, Option, some, List, [], ◌∷◌, ◌==◌, str_eq,
  if◌then◌else◌, any, find, select, update_where, delete_where, is_id,
}
use tunnel_service.Model.{
  User, SshKey, ActiveTunnel, is_active, is_up, Payload, Kind, OutboxEvent, DedupeKey, Effect, ok,
  err, not_found, unique_violation, disconnecting,
}
use tunnel_service.Store.Db.{Db}
use tunnel_service.Store.Tx.{
  Tx, ◌>>=◌, ◌>>◌, pure, modify, demand, AuditEntry, insert_audit, insert_outbox, next_generation,
}

abbrev pub empty_payload : Payload
empty_payload = record { key_id = 0; user_id = 0; generation = 0; hostname = []; port = 0 }

unfoldable pub user_by_id : ℕ → Db → Option User
user_by_id id db = find (λ u. u.id == id) db.users

unfoldable pub active_user : ℕ → Db → Option User
active_user id db = find (λ u. u.id == id && is_active u.status) db.users

-- SELECT … FROM ssh_keys k JOIN users u ON u.id=k.user_id WHERE k.id=?
unfoldable pub key_by_id : ℕ → Db → Option SshKey
key_by_id id db = find (λ k. k.id == id && any (λ u. u.id == k.user_id) db.users) db.ssh_keys

unfoldable pub keys_by_user : ℕ → Db → List SshKey
keys_by_user uid db =
    select (λ k. any (λ u. u.id == k.user_id) db.users && k.user_id == uid) db.ssh_keys

-- SELECT … WHERE k.enabled=1 AND u.status='active'
unfoldable pub authorized_keys : Db → List SshKey
authorized_keys db =
    select (λ k. any (λ u. u.id == k.user_id && is_active u.status) db.users && k.enabled)
      db.ssh_keys

-- UPDATE active_tunnels SET status='disconnecting' WHERE … AND status IN ('active','stale')
unfoldable pub disconnect_where : (ActiveTunnel → Bool) → Db → Db
disconnect_where p db = record db {
  tunnels =
      update_where (λ t. p t && is_up t.status) (λ t. record t { status = disconnecting })
        db.tunnels;
}

unfoldable pub with_key : ℕ → Text → Text → String → Db → Db
with_key uid name key fp db = record db {
  ssh_keys =
      record {
        id = db.next_key_id;
        user_id = uid;
        name = name;
        public_key = key;
        fingerprint = fp;
        enabled = true;
      }
      ∷ db.ssh_keys;
  next_key_id = db.next_key_id + 1;
}

-- INSERT INTO ssh_keys …, under UNIQUE(fingerprint)
unfoldable pub insert_key : ℕ → Text → Text → String → Tx ℕ
insert_key uid name key fp db =
    if any (λ k. str_eq k.fingerprint fp) db.ssh_keys
    then err unique_violation
    else ok (db.next_key_id, with_key uid name key fp db)

unfoldable pub insert_key_atomic : ℕ → Text → Text → String → AuditEntry → Tx ℕ
insert_key_atomic uid name key fp a = do
  u ← demand (active_user uid)
  id ← insert_key u.id name key fp
  insert_audit (record a { resource_id = some id })
  insert_outbox (record {
    kind = Kind.pubkey_write;
    dedupe_key = DedupeKey.initial_write id;
    payload = record empty_payload { key_id = id };
  })
  pure id

unfoldable pub with_flag : ℕ → Bool → Db → Db
with_flag id enabled db = record db {
  ssh_keys = update_where (λ k. k.id == id) (λ k. record k { enabled = enabled }) db.ssh_keys;
}

-- UPDATE ssh_keys SET enabled=? WHERE id=?, and `requireAffected`
unfoldable pub set_key_enabled : ℕ → Bool → Tx (Unit {0})
set_key_enabled id enabled db =
    if any (λ k. k.id == id) db.ssh_keys then ok (tt, with_flag id enabled db) else err not_found

unfoldable pub without_key : ℕ → Db → Db
without_key id db = record db { ssh_keys = delete_where (λ k. k.id == id) db.ssh_keys }

-- DELETE FROM ssh_keys WHERE id=?, and `requireAffected`
unfoldable pub delete_key : ℕ → Tx (Unit {0})
delete_key id db =
    if any (λ k. k.id == id) db.ssh_keys then ok (tt, without_key id db) else err not_found

-- The key whose owner is active.
unfoldable pub active_key : ℕ → Db → Option SshKey
active_key id db =
    find (λ k. k.id == id && any (λ u. u.id == k.user_id && is_active u.status) db.users)
      db.ssh_keys

abbrev same_flag : Bool → Bool → Bool
same_flag true b = b
same_flag false b = not b

drop_tunnels_of_key : ℕ → ℕ → Tx (Unit {0})
drop_tunnels_of_key id g = do
  modify (disconnect_where (λ t. is_id t.ssh_key_id id))
  insert_outbox (record {
    kind = Kind.disconnect_key;
    dedupe_key = DedupeKey.at_generation g (Effect.drop_key id);
    payload = record empty_payload { key_id = id; generation = g };
  })

key_event : ℕ → ℕ → Bool → OutboxEvent
key_event id g true = record {
  kind = Kind.pubkey_write;
  dedupe_key = DedupeKey.at_generation g (Effect.write_key id);
  payload = record empty_payload { key_id = id; generation = g };
}
key_event id g false = record {
  kind = Kind.pubkey_remove;
  dedupe_key = DedupeKey.at_generation g (Effect.remove_key_file id);
  payload = record empty_payload { key_id = id; generation = g };
}

unfoldable pub change_key_enabled : ℕ → Bool → AuditEntry → Tx (Unit {0})
unfolding key_event drop_tunnels_of_key
change_key_enabled id enabled a = do
  g ← next_generation
  set_key_enabled id enabled
  insert_audit a
  insert_outbox (key_event id g enabled)
  if enabled then pure tt else drop_tunnels_of_key id g

unfoldable pub set_key_enabled_atomic : ℕ → Bool → AuditEntry → Tx (Unit {0})
unfolding change_key_enabled
set_key_enabled_atomic id enabled a = do
  k ← demand (active_key id)
  if same_flag k.enabled enabled then pure tt else change_key_enabled id enabled a

unfoldable pub delete_key_atomic : ℕ → ℕ → AuditEntry → Tx (Unit {0})
delete_key_atomic id user_id a = do
  g ← next_generation
  insert_outbox (record {
    kind = Kind.pubkey_remove;
    dedupe_key = DedupeKey.at_generation g (Effect.remove_key id);
    payload = record empty_payload { key_id = id; user_id = user_id; generation = g };
  })
  insert_outbox (record {
    kind = Kind.disconnect_key;
    dedupe_key = DedupeKey.at_generation g (Effect.drop_key id);
    payload = record empty_payload { key_id = id; generation = g };
  })
  modify (disconnect_where (λ t. is_id t.ssh_key_id id))
  insert_audit a
  delete_key id
