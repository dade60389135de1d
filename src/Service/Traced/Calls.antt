-- ===== src/Service/Traced/Calls.antt =====
-- The transactions that the service runs are calls of the store.
use tunnel_service.Prelude.{ℕ, refl, String, Text, Bool}
use tunnel_service.Model.{Time, UserStatus, TunnelSnapshot}
use tunnel_service.Store.Tx.{modify, AuditEntry}
use tunnel_service.Store.Keys.{
  insert_key_atomic, set_key_enabled, delete_key, set_key_enabled_atomic, delete_key_atomic,
}
use tunnel_service.Store.Reservations.{
  insert_subdomain_atomic, insert_tcp_port_atomic, delete_tcp_port_atomic, delete_subdomain_atomic,
}
use tunnel_service.Store.Users.{Profile, set_user_status_atomic}
use tunnel_service.Store.Auth.{
  login_discord_atomic, delete_session, create_oauth_state, consume_oauth_state, cleanup_auth,
}
use tunnel_service.Store.Tunnels.{mark_unavailable}
use tunnel_service.Store.Snapshot.{reconcile_snapshot}
use tunnel_service.Store.Outbox.{complete_outbox, retry_outbox}
use tunnel_service.Store.Calls.{Call, perform}
use tunnel_service.Service.World.{stored}
use tunnel_service.Service.Traced.{IsTraced, call-IsTraced, result-IsCall, plain-IsCall}

pub insert_key_atomic-IsTraced :
    (uid : ℕ) (name key : Text) (fp : String) (a : AuditEntry)
    → IsTraced (stored (insert_key_atomic uid name key fp a))
unfolding perform
insert_key_atomic-IsTraced uid name key fp a = call-IsTraced (Call.add_key uid name key fp a) _ (
    result-IsCall (Call.add_key uid name key fp a) (insert_key_atomic uid name key fp a)
      (λ db. refl))

pub set_key_enabled_atomic-IsTraced :
    (id : ℕ) (b : Bool) (a : AuditEntry) → IsTraced (stored (set_key_enabled_atomic id b a))
unfolding perform
set_key_enabled_atomic-IsTraced id b a =
    call-IsTraced (Call.enable_key id b a) _
      (plain-IsCall (Call.enable_key id b a) (set_key_enabled_atomic id b a) (λ db. refl))

pub delete_key_atomic-IsTraced :
    (id uid : ℕ) (a : AuditEntry) → IsTraced (stored (delete_key_atomic id uid a))
unfolding perform
delete_key_atomic-IsTraced id uid a =
    call-IsTraced (Call.remove_key id uid a) _
      (plain-IsCall (Call.remove_key id uid a) (delete_key_atomic id uid a) (λ db. refl))

pub delete_key-IsTraced : (id : ℕ) → IsTraced (stored (delete_key id))
unfolding perform
delete_key-IsTraced id =
    call-IsTraced (Call.withdraw_key id) _
      (plain-IsCall (Call.withdraw_key id) (delete_key id) (λ db. refl))

pub set_key_enabled-IsTraced : (id : ℕ) (b : Bool) → IsTraced (stored (set_key_enabled id b))
unfolding perform
set_key_enabled-IsTraced id b =
    call-IsTraced (Call.flag_key id b) _
      (plain-IsCall (Call.flag_key id b) (set_key_enabled id b) (λ db. refl))

pub insert_subdomain_atomic-IsTraced :
    (uid : ℕ) (name : Text) (a : AuditEntry)
    → IsTraced (stored (insert_subdomain_atomic uid name a))
unfolding perform
insert_subdomain_atomic-IsTraced uid name a = call-IsTraced (Call.reserve_subdomain uid name a) _ (
    result-IsCall (Call.reserve_subdomain uid name a) (insert_subdomain_atomic uid name a)
      (λ db. refl))

pub delete_subdomain_atomic-IsTraced :
    (id : ℕ) (name : Text) (a : AuditEntry) → IsTraced (stored (delete_subdomain_atomic id name a))
unfolding perform
delete_subdomain_atomic-IsTraced id name a = call-IsTraced (Call.release_subdomain id name a) _ (
    plain-IsCall (Call.release_subdomain id name a) (delete_subdomain_atomic id name a)
      (λ db. refl))

pub insert_tcp_port_atomic-IsTraced :
    (uid port : ℕ) (a : AuditEntry) → IsTraced (stored (insert_tcp_port_atomic uid port a))
unfolding perform
insert_tcp_port_atomic-IsTraced uid port a =
    call-IsTraced (Call.reserve_port uid port a) _ (
      result-IsCall (Call.reserve_port uid port a) (insert_tcp_port_atomic uid port a) (λ db. refl))

pub delete_tcp_port_atomic-IsTraced :
    (id port : ℕ) (a : AuditEntry) → IsTraced (stored (delete_tcp_port_atomic id port a))
unfolding perform
delete_tcp_port_atomic-IsTraced id port a =
    call-IsTraced (Call.release_port id port a) _
      (plain-IsCall (Call.release_port id port a) (delete_tcp_port_atomic id port a) (λ db. refl))

pub set_user_status_atomic-IsTraced :
    (id : ℕ) (s : UserStatus) (a : AuditEntry) → IsTraced (stored (set_user_status_atomic id s a))
unfolding perform
set_user_status_atomic-IsTraced id s a =
    call-IsTraced (Call.set_status id s a) _
      (plain-IsCall (Call.set_status id s a) (set_user_status_atomic id s a) (λ db. refl))

pub delete_session-IsTraced : (h : String) → IsTraced (stored (modify (delete_session h)))
unfolding perform
delete_session-IsTraced h =
    call-IsTraced (Call.logout h) _
      (plain-IsCall (Call.logout h) (modify (delete_session h)) (λ db. refl))

pub cleanup_auth-IsTraced : (now : Time) → IsTraced (stored (modify (cleanup_auth now)))
unfolding perform
cleanup_auth-IsTraced now =
    call-IsTraced (Call.expire_auth now) _
      (plain-IsCall (Call.expire_auth now) (modify (cleanup_auth now)) (λ db. refl))

pub create_oauth_state-IsTraced :
    (h : String) (last : Time) → IsTraced (stored (create_oauth_state h last))
unfolding perform
create_oauth_state-IsTraced h last =
    call-IsTraced (Call.open_oauth h last) _
      (plain-IsCall (Call.open_oauth h last) (create_oauth_state h last) (λ db. refl))

pub consume_oauth_state-IsTraced :
    (h : String) (now : Time) → IsTraced (stored (consume_oauth_state h now))
unfolding perform
consume_oauth_state-IsTraced h now =
    call-IsTraced (Call.consume_oauth h now) _
      (result-IsCall (Call.consume_oauth h now) (consume_oauth_state h now) (λ db. refl))

pub login_discord_atomic-IsTraced :
    (p : Profile) (h csrf : String) (last : Time) (ip : String)
    → IsTraced (stored (login_discord_atomic p h csrf last ip))
unfolding perform
login_discord_atomic-IsTraced p h csrf last ip = call-IsTraced (Call.login p h csrf last ip) _ (
    result-IsCall (Call.login p h csrf last ip) (login_discord_atomic p h csrf last ip)
      (λ db. refl))

pub reconcile_snapshot-IsTraced :
    (s : TunnelSnapshot) (now : Time) → IsTraced (stored (reconcile_snapshot s now))
unfolding perform
reconcile_snapshot-IsTraced s now =
    call-IsTraced (Call.snapshot s now) _
      (plain-IsCall (Call.snapshot s now) (reconcile_snapshot s now) (λ db. refl))

pub mark_unavailable-IsTraced : (now : Time) → IsTraced (stored (mark_unavailable now))
unfolding perform
mark_unavailable-IsTraced now =
    call-IsTraced (Call.lose_sish now) _
      (plain-IsCall (Call.lose_sish now) (mark_unavailable now) (λ db. refl))

pub complete_outbox-IsTraced : (id : ℕ) → IsTraced (stored (complete_outbox id))
unfolding perform
complete_outbox-IsTraced id =
    call-IsTraced (Call.complete id) _
      (plain-IsCall (Call.complete id) (complete_outbox id) (λ db. refl))

pub retry_outbox-IsTraced :
    (id attempts : ℕ) (e : Text) (now : Time)
    → IsTraced (stored (modify (retry_outbox id attempts e now)))
unfolding perform
retry_outbox-IsTraced id attempts e now = call-IsTraced (Call.retry id attempts e now) _ (
    plain-IsCall (Call.retry id attempts e now) (modify (retry_outbox id attempts e now))
      (λ db. refl))

pub ruleset call_rules = (
  insert_key_atomic-IsTraced, set_key_enabled_atomic-IsTraced, delete_key_atomic-IsTraced,
  delete_key-IsTraced, set_key_enabled-IsTraced, insert_subdomain_atomic-IsTraced,
  delete_subdomain_atomic-IsTraced, insert_tcp_port_atomic-IsTraced,
  delete_tcp_port_atomic-IsTraced, set_user_status_atomic-IsTraced, delete_session-IsTraced,
  cleanup_auth-IsTraced, create_oauth_state-IsTraced, consume_oauth_state-IsTraced,
  login_discord_atomic-IsTraced, reconcile_snapshot-IsTraced, mark_unavailable-IsTraced,
  complete_outbox-IsTraced, retry_outbox-IsTraced,
)
