-- ===== src/Store/Users.antt =====
-- Users and the control plane's own resources: `SetUserStatusAtomic` and `EnsureSystemResources`
-- of app/internal/store/hardening.go, `UpsertDiscordUser` of store.go.
use tunnel_service.Prelude.{
  ℕ, ◌+◌, String, Text, Bool, true, false, not, ◌&&◌, Option, ◌∷◌, ◌==◌, str_eq, text_eq,
  if◌then◌else◌, any, find, update_where, delete_where,
}
use tunnel_service.Model.{
  User, Role, UserStatus, active, suspended, SystemKey, Kind, DedupeKey, Effect, ok, err, not_found,
  unique_violation, system_conflict,
}
use tunnel_service.Store.Db.{Db}
use tunnel_service.Store.Tx.{
  Tx, ◌>>=◌, ◌>>◌, pure, modify, check, demand, AuditEntry, insert_audit, insert_outbox,
  next_generation,
}
use tunnel_service.Store.Keys.{user_by_id, disconnect_where, empty_payload}
use tunnel_service.Store.Reservations.{same_label}

pub record Profile : Type 0 where
  pub discord_id : String
  pub username : String
  pub display_name : String
  pub email : String
  pub avatar_url : String
  pub role : Role

unfoldable pub with_profile : Profile → Db → Db
with_profile p db = record db {
  users =
      update_where (λ u. str_eq u.discord_id p.discord_id)
        (λ u. record u {
          username = p.username;
          display_name = p.display_name;
          email = p.email;
          avatar_url = p.avatar_url;
          role = p.role;
        })
        db.users;
}

unfoldable pub with_user : Profile → Db → Db
with_user p db = record db {
  users =
      record {
        id = db.next_user_id;
        discord_id = p.discord_id;
        username = p.username;
        display_name = p.display_name;
        email = p.email;
        avatar_url = p.avatar_url;
        role = p.role;
        status = active;
      }
      ∷ db.users;
  next_user_id = db.next_user_id + 1;
}

-- INSERT INTO users … ON CONFLICT(discord_id) DO UPDATE SET …; a new row has status 'active'.
unfoldable pub upsert_user : Profile → Tx (Unit {0})
upsert_user p db =
    if any (λ u. str_eq u.discord_id p.discord_id) db.users
    then ok (tt, with_profile p db)
    else ok (tt, with_user p db)

unfoldable pub user_by_discord_id : String → Db → Option User
user_by_discord_id id db = find (λ u. str_eq u.discord_id id) db.users

abbrev pub same_status : UserStatus → UserStatus → Bool
same_status active active = true
same_status suspended suspended = true
same_status _ _ = false

abbrev other_status : UserStatus → UserStatus
other_status active = suspended
other_status suspended = active

abbrev turns : ℕ → UserStatus → User → Bool
turns id status u = u.id == id && same_status u.status (other_status status)

unfoldable pub with_status : ℕ → UserStatus → Db → Db
with_status id status db = record db {
  users = update_where (turns id status) (λ u. record u { status = status }) db.users;
}

-- UPDATE users SET status=? WHERE id=? AND status=?, and `requireAffected`
unfoldable pub set_user_status : ℕ → UserStatus → Tx (Unit {0})
set_user_status id status db =
    if any (turns id status) db.users then ok (tt, with_status id status db) else err not_found

unfoldable pub end_sessions : ℕ → Db → Db
end_sessions id db = record db { sessions = delete_where (λ s. s.user_id == id) db.sessions }

close_user : ℕ → ℕ → Tx (Unit {0})
unfolding end_sessions
close_user id g = do
  modify (end_sessions id)
  modify (disconnect_where (λ t. t.user_id == id))
  insert_outbox (record {
    kind = Kind.disconnect_user;
    dedupe_key = DedupeKey.at_generation g (Effect.drop_user id);
    payload = record empty_payload { user_id = id; generation = g };
  })

unfoldable pub change_user_status : ℕ → UserStatus → AuditEntry → Tx (Unit {0})
unfolding close_user
change_user_status id status a = do
  g ← next_generation
  set_user_status id status
  if same_status status suspended then close_user id g else pure tt
  insert_outbox (record {
    kind = Kind.pubkey_reconcile;
    dedupe_key = DedupeKey.at_generation g (Effect.reconcile_user id);
    payload = record empty_payload { generation = g };
  })
  insert_audit a

unfoldable pub set_user_status_atomic : ℕ → UserStatus → AuditEntry → Tx (Unit {0})
unfolding change_user_status
set_user_status_atomic id status a = do
  u ← demand (user_by_id id)
  if same_status u.status status then pure tt else change_user_status id status a

-- INSERT INTO system_ssh_keys … ON CONFLICT(name) DO UPDATE SET …, under UNIQUE(fingerprint).
unfoldable pub upsert_system_key : Text → Text → String → Tx (Unit {0})
upsert_system_key name key fp db =
    if any (λ k. str_eq k.fingerprint fp && not (text_eq k.name name)) db.system_keys
    then err unique_violation
    else if any (λ k. text_eq k.name name) db.system_keys
    then ok (
      tt,
      record db {
        system_keys =
            update_where (λ k. text_eq k.name name)
              (λ k. record k { public_key = key; fingerprint = fp; enabled = true }) db.system_keys;
      },
    )
    else ok (
      tt,
      record db {
        system_keys =
            record {
              id = db.next_system_key_id;
              name = name;
              public_key = key;
              fingerprint = fp;
              enabled = true;
            }
            ∷ db.system_keys;
        next_system_key_id = db.next_system_key_id + 1;
      },
    )

unfoldable pub system_key_by_name : Text → Db → Option SystemKey
system_key_by_name name db = find (λ k. text_eq k.name name) db.system_keys

-- DELETE FROM system_subdomains WHERE system_key_id=? AND name<>?
unfoldable pub drop_other_labels : ℕ → Text → Db → Db
drop_other_labels id label db = record db {
  system_subdomains =
      delete_where (λ d. d.system_key_id == id && not (same_label d.name label))
        db.system_subdomains;
}

-- INSERT INTO system_subdomains … ON CONFLICT(name) DO UPDATE SET system_key_id=…
unfoldable pub point_label : ℕ → Text → Db → Db
point_label id label db = record db {
  system_subdomains =
      if any (λ d. same_label d.name label) db.system_subdomains
      then update_where (λ d. same_label d.name label) (λ d. record d { system_key_id = id })
          db.system_subdomains
      else record { name = label; system_key_id = id } ∷ db.system_subdomains;
}

unfoldable pub ensure_system_resources : Text → Text → String → Text → Tx (Unit {0})
unfolding drop_other_labels point_label
ensure_system_resources name key fp label = do
  check (λ db. (not (any (λ d. same_label d.name label) db.subdomains))) system_conflict
  upsert_system_key name key fp
  k ← demand (system_key_by_name name)
  modify (drop_other_labels k.id label)
  modify (point_label k.id label)
