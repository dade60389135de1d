-- ===== src/Store/Tests.antt =====
-- A small database, and each property of the store at a concrete call on it.
mod Events
mod Once
mod Snapshots
use tunnel_service.Prelude.{
  ℕ, ◌≡◌, ◌≢◌, ◌↔◌, refl, inl, inr, Text, codes, true, false, none, some, List, [], ◌∷◌, arith, pos,
  here, any, ◌%◌, ◌/◌, ◌<◌, ◌≤◌, ◌+◌, lower_text, str_eq, ◌==◌, All, All-intro,
}
use tunnel_service.Model.{
  User, SshKey, ActiveTunnel, http, live, user, active, suspended, ok, err, Session,
  stale_generation,
}
use tunnel_service.Store.Db.{Db, fresh}
use tunnel_service.Store.Tx.{AuditEntry, ◌>>=◌, insert_audit, insert_outbox, next_generation}
use tunnel_service.Store.Keys.{
  active_key, user_by_id, set_key_enabled_atomic, authorized_keys, disconnect_where, with_flag,
  set_key_enabled,
}
use tunnel_service.Store.Users.{set_user_status_atomic, set_user_status, with_status}
use tunnel_service.Store.Bind.{authorize_bind, is_granted, user_bound}
use tunnel_service.Store.Tunnels.{apply_connect, apply_disconnect, is_retired}
use tunnel_service.Store.Calls.{Call, perform, run, run_all}
use tunnel_service.Store.Revocation.{Revokes-lt, stale_bind-connect}
use tunnel_service.Store.Valid.{IsValid}
use tunnel_service.Store.Invariant.{run_all-IsValid}
use tunnel_service.Store.Entitled.{IsUsable, Reserves}
use tunnel_service.Store.Authorized.{BoundAs, authorize_bind_sound, authorize_bind_iff}
use tunnel_service.Store.Granted.{Entitled, is_granted_iff}
use tunnel_service.Store.Suspension.{suspend_closes, up_of, active_of}
use tunnel_service.Store.Stamp.{second, stamp_lt, stamp_lt-whole}
use tunnel_service.Store.Retired.{retired_source-refused}
use tunnel_service.Store.Known.{is_known}
use tunnel_service.Model.{is_live}
use tunnel_service.Store.Admitted.{IsNews, authorize_bind-connect}
use tunnel_service.Store.Lifecycle.{connect_twice, disconnect_twice}
use tunnel_service.Prelude.{◌&&◌}
use tunnel_service.Model.{TunnelSnapshot, is_up}
use tunnel_service.Store.Snapshot.{
  reconcile_snapshot, begin_snapshot, restore_all, restore_one, is_kept, snapshot_label,
  restore_tunnel,
}
use tunnel_service.Store.Bind.{grants, web_grants}
use tunnel_service.Store.Reservations.{same_label}
use tunnel_service.Prelude.{sum_where, count, update_where}
use tunnel_service.Store.Synced.{Accounted, reconcile_snapshot_accounts}
use tunnel_service.Store.Late.{late_connect}
use tunnel_service.Store.Auth.{consume_oauth_state}
use tunnel_service.Store.Telemetry.{add_telemetry_batch}
use tunnel_service.Store.Outbox.{retry_delay}
use tunnel_service.Store.OneTime.{consume_twice}
use tunnel_service.Store.Batches.{batch_twice}
use tunnel_service.Store.Backoff.{retry_delay_exact}
use tunnel_service.Prelude.{◌*◌, ◌^◌, ◌≤◌, min}

abbrev alice : User
alice = record {
  id = 1;
  discord_id = "100";
  username = "alice";
  display_name = "Alice";
  email = "";
  avatar_url = "";
  role = user;
  status = active;
}

abbrev laptop : SshKey
laptop = record {
  id = 1;
  user_id = 1;
  name = codes "laptop";
  public_key = codes "ssh-ed25519 AAAA";
  fingerprint = "SHA256:a";
  enabled = true;
}

abbrev tunnel : ActiveTunnel
tunnel = record {
  id = "t1";
  user_id = 1;
  ssh_key_id = pos 1;
  protocol = http;
  hostname = codes "blog.example.com";
  source_ip = "10.0.0.1";
  status = live;
  tcp_port = 0;
  generation = 1;
  event_sequence = 3;
  connected_at = 0;
  disconnected_at = none;
}

abbrev sample : Db
sample = record fresh {
  users = alice ∷ [];
  next_user_id = 2;
  sessions = record { token_hash = "s"; user_id = 1; csrf_token = "c"; expires_at = 9 } ∷ [];
  ssh_keys = laptop ∷ [];
  next_key_id = 2;
  subdomains = record { id = 1; user_id = 1; name = codes "Blog" } ∷ [];
  next_subdomain_id = 2;
  tcp_ports = record { id = 1; user_id = 1; port = 12345 } ∷ [];
  next_port_id = 2;
  tunnels = tunnel ∷ [];
  retired_sources = "old" ∷ [];
}

abbrev note : AuditEntry
note = record {
  actor = some 1;
  target = some 1;
  action = "test";
  resource_type = "user";
  resource_id = some 1;
  source_ip = "";
  metadata = "";
}

sample-IsValid : IsValid sample
sample-IsValid = ground arith

laptop-IsUsable : IsUsable sample laptop
laptop-IsUsable = record {
  row = here;
  enabled = refl;
  owner = alice;
  owner_row = here;
  owner_id = refl;
  owner_active = refl;
}

laptop_binds :
    authorize_bind "SHA256:a" (codes "blog") http 0 sample ≡ ok ((user_bound laptop, 1), sample)
unfolding authorize_bind tunnel_service.Store.Bind.enabled_key tunnel_service.Prelude.find any
    tunnel_service.Store.Bind.reserved tunnel_service.Prelude.count
    tunnel_service.Store.Reservations.same_label
laptop_binds = refl

abbrev disable : Call
disable = Call.enable_key 1 false note

laptop_found : active_key 1 (run_all [] sample) ≡ some laptop
unfolding active_key run_all tunnel_service.Prelude.find any
laptop_found = refl

abbrev disabled : Db
disabled = run disable sample

disable_commits : perform disable (run_all [] sample) ≡ ok (tt, disabled)
unfolding run_all perform set_key_enabled_atomic ◌>>=◌ active_key tunnel_service.Prelude.find any
    next_generation set_key_enabled insert_audit tunnel_service.Store.Tx.refers with_flag
    insert_outbox disconnect_where tunnel_service.Store.Tx.same_key run
disable_commits = refl

stale_bind-connect_example :
    apply_connect tunnel (codes "blog") "s1" "e1" (run_all [] disabled) ≡ err stale_generation
stale_bind-connect_example =
    stale_bind-connect "SHA256:a" (codes "blog") http 0 sample laptop_binds [] [] disable disabled
      (laptop, laptop_found, refl) disable_commits tunnel refl (codes "blog") "s1" "e1"

Revokes-lt_example : (run_all [] sample).generation < disabled.generation
Revokes-lt_example =
    Revokes-lt disable (run_all [] sample) disabled (laptop, laptop_found, refl) disable_commits

run_all-IsValid_example : IsValid (
    run_all
      (Call.login
          (record {
            discord_id = "100";
            username = "alice";
            display_name = "";
            email = "";
            avatar_url = "";
            role = user;
          })
          "h"
          "c"
          9
          ""
        ∷ Call.reserve_port 1 12345 note
        ∷ Call.reserve_port 1 12345 note
        ∷ [])
      fresh)
run_all-IsValid_example = run_all-IsValid (
    Call.login
      (record {
        discord_id = "100";
        username = "alice";
        display_name = "";
        email = "";
        avatar_url = "";
        role = user;
      })
      "h" "c" 9 ""
    ∷ Call.reserve_port 1 12345 note
    ∷ Call.reserve_port 1 12345 note
    ∷ [])

authorize_bind_sound_example :
    (sample ≡ sample)
    × (◌≡◌ {A = ℕ} 1 1)
    × BoundAs sample "SHA256:a" (codes "blog") http 0 (user_bound laptop)
authorize_bind_sound_example =
    authorize_bind_sound "SHA256:a" (codes "blog") http 0 sample laptop_binds

authorize_bind_iff_example :
    (authorize_bind "SHA256:a" (codes "BLOG") http 0 sample ≡ ok ((user_bound laptop, 1), sample))
    ↔ Reserves sample 1 http (codes "BLOG") 0
authorize_bind_iff_example =
    authorize_bind_iff (codes "BLOG") http 0 sample laptop sample-IsValid laptop-IsUsable

is_granted_iff_example :
    (is_granted tunnel (codes "blog") sample ≡ true) ↔ Entitled sample tunnel (codes "blog")
is_granted_iff_example = is_granted_iff sample tunnel (codes "blog") sample-IsValid refl

alice_found : user_by_id 1 sample ≡ some alice
unfolding user_by_id tunnel_service.Prelude.find
alice_found = refl

abbrev frozen : Db
frozen = run (Call.set_status 1 suspended note) sample

suspend_commits : set_user_status_atomic 1 suspended note sample ≡ ok (tt, frozen)
unfolding set_user_status_atomic ◌>>=◌ user_by_id tunnel_service.Prelude.find next_generation
    set_user_status any insert_outbox disconnect_where with_status tunnel_service.Store.Tx.same_key
    insert_audit tunnel_service.Store.Tx.refers tunnel_service.Prelude.update_where run perform
suspend_commits = refl

suspend_closes_example :
    All (λ (s : Session). s.user_id ≢ 1) frozen.sessions
    × All (λ t. up_of 1 t ≡ false) frozen.tunnels
    × All (λ v. active_of 1 v ≡ false) frozen.users
    × All (λ (k : SshKey). k.user_id ≢ 1) (authorized_keys frozen)
    × (sample.generation < frozen.generation)
suspend_closes_example = suspend_closes 1 note sample frozen alice alice_found refl suspend_commits
