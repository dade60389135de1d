-- ===== src/Service/Traced/Operations.antt =====
-- The operations of app/internal/service/service.go are traced.
use tunnel_service.Prelude.{ℕ, String, Text, Bool, true, false, List, [], ◌∷◌}
use tunnel_service.Model.{Result, Error, ok, err, SshKey, unique_violation}
use tunnel_service.Store.Tx.{Tx}
use tunnel_service.Service.World.{stored}
use tunnel_service.Service.PublicKey.{Ssh}
use tunnel_service.Service.Keys.{
  unless_unique, inserted, insert_or, publish_key, after_delete, after_remove, finish_key, add_key,
  allow, unpublish, after_flag, file_change, switch_key, discard_key, remove_files, suspend, resume,
  set_user_suspended,
}
use tunnel_service.Service.Resources.{
  no_record, reserve_subdomain, reserve_tcp_port, release_tcp_port, release_subdomain,
}
use tunnel_service.Service.Traced.{
  IsTraced, done-IsTraced, fail-IsTraced, bind-IsTraced, attempt-IsTraced, traced_rules,
}
use tunnel_service.Service.Traced.Calls.{call_rules}
use tunnel_service.Service.Traced.Files.{
  write_file-IsTraced, remove_file-IsTraced, sync_locked-IsTraced, ensure_active-IsTraced,
}

unless_unique-IsTraced : {A : Type 0} (e x : Error) → IsTraced (unless_unique {A = A} e x)
unless_unique-IsTraced e unique_violation = fail-IsTraced e
unless_unique-IsTraced e other = fail-IsTraced other

inserted-IsTraced : (e : Error) (r : Result ℕ) → IsTraced (inserted e r)
inserted-IsTraced e (ok id) = done-IsTraced id
inserted-IsTraced e (err x) = unless_unique-IsTraced e x

insert_or-IsTraced : (e : Error) (m : Tx ℕ) → IsTraced (stored m) → IsTraced (insert_or e m)
unfolding insert_or
insert_or-IsTraced e m t =
    bind-IsTraced _ _ (attempt-IsTraced (stored m) t) (λ r. inserted-IsTraced e r)

publish_key-IsTraced : (id : ℕ) → IsTraced (publish_key id)
unfolding publish_key
publish_key-IsTraced id = search (traced_rules, write_file-IsTraced)

after_delete-IsTraced :
    (id : ℕ) (e : Error) (r : Result (Unit {0})) → IsTraced (after_delete id e r)
unfolding after_delete
after_delete-IsTraced id e (ok u) = fail-IsTraced e
after_delete-IsTraced id e (err d) = search (traced_rules, call_rules)

after_remove-IsTraced :
    (id : ℕ) (e : Error) (r : Result (Unit {0})) → IsTraced (after_remove id e r)
unfolding after_remove
after_remove-IsTraced id e (ok u) = search (traced_rules, call_rules, after_delete-IsTraced)
after_remove-IsTraced id e (err d) = fail-IsTraced e

finish_key-IsTraced : (uid id : ℕ) (r : Result (Unit {0})) → IsTraced (finish_key uid id r)
unfolding finish_key
finish_key-IsTraced uid id (ok u) = done-IsTraced id
finish_key-IsTraced uid id (err e) =
    search (traced_rules, remove_file-IsTraced, after_remove-IsTraced)

pub add_key-IsTraced :
    {K : Type 0} (ssh : Ssh K) (uid : ℕ) (name raw : Text) (ip : String)
    → IsTraced (add_key ssh uid name raw ip)
unfolding add_key
add_key-IsTraced ssh uid name raw ip =
    search
      (
        traced_rules, call_rules, ensure_active-IsTraced, insert_or-IsTraced, publish_key-IsTraced,
        finish_key-IsTraced,
      )
      depth 12

allow-IsTraced : (actor : ℕ) (admin : Bool) (owner : ℕ) → IsTraced (allow actor admin owner)
unfolding allow
allow-IsTraced actor admin owner = search traced_rules

unpublish-IsTraced : (b : Bool) (k : SshKey) → IsTraced (unpublish b k)
unpublish-IsTraced true k = search (traced_rules, remove_file-IsTraced)
unpublish-IsTraced false k = done-IsTraced tt

after_flag-IsTraced : (k : SshKey) (b : Bool) (r : Result (Unit {0})) → IsTraced (after_flag k b r)
unfolding after_flag
after_flag-IsTraced k b (ok u) = done-IsTraced tt
after_flag-IsTraced k b (err e) = search (traced_rules, unpublish-IsTraced)

file_change-IsTraced : (k : SshKey) (b : Bool) → IsTraced (file_change k b)
unfolding file_change
file_change-IsTraced k true = write_file-IsTraced _
file_change-IsTraced k false = remove_file-IsTraced _ _

pub switch_key-IsTraced :
    (actor : ℕ) (admin : Bool) (id : ℕ) (b : Bool) (ip : String)
    → IsTraced (switch_key actor admin id b ip)
unfolding switch_key
switch_key-IsTraced actor admin id b ip =
    search
      (
        traced_rules, call_rules, allow-IsTraced, ensure_active-IsTraced, file_change-IsTraced,
        after_flag-IsTraced,
      )
      depth 12

pub discard_key-IsTraced :
    (actor : ℕ) (admin : Bool) (id : ℕ) (ip : String) → IsTraced (discard_key actor admin id ip)
unfolding discard_key
discard_key-IsTraced actor admin id ip =
    search (traced_rules, call_rules, allow-IsTraced, remove_file-IsTraced)

remove_files-IsTraced : (ks : List SshKey) → IsTraced (remove_files ks)
unfolding remove_files
remove_files-IsTraced [] = done-IsTraced tt
remove_files-IsTraced (k ∷ ks) =
    bind-IsTraced _ _ (remove_file-IsTraced k.user_id k.id) (λ u. remove_files-IsTraced ks)

suspend-IsTraced : (actor target : ℕ) (ip : String) → IsTraced (suspend actor target ip)
unfolding suspend
suspend-IsTraced actor target ip = search (traced_rules, call_rules, remove_files-IsTraced)

resume-IsTraced : (actor target : ℕ) (ip : String) → IsTraced (resume actor target ip)
unfolding resume
resume-IsTraced actor target ip = search (traced_rules, call_rules, sync_locked-IsTraced)

pub set_user_suspended-IsTraced :
    (actor target : ℕ) (stop : Bool) (ip : String)
    → IsTraced (set_user_suspended actor target stop ip)
unfolding set_user_suspended
set_user_suspended-IsTraced actor target stop ip =
    search (traced_rules, suspend-IsTraced, resume-IsTraced)

no_record-IsTraced : (r : Result Bool) → IsTraced (no_record r)
no_record-IsTraced (err e) = fail-IsTraced _
no_record-IsTraced (ok true) = fail-IsTraced _
no_record-IsTraced (ok false) = done-IsTraced tt

pub reserve_subdomain-IsTraced :
    (to_lower : ℕ → ℕ) (dns : Text → Result Bool) (own : Text) (uid : ℕ) (raw : Text) (ip : String)
    → IsTraced (reserve_subdomain to_lower dns own uid raw ip)
unfolding reserve_subdomain
reserve_subdomain-IsTraced to_lower dns own uid raw ip =
    search
      (traced_rules, call_rules, ensure_active-IsTraced, insert_or-IsTraced, no_record-IsTraced)
      depth 12

pub reserve_tcp_port-IsTraced :
    (uid : ℕ) (raw : Text) (ip : String) → IsTraced (reserve_tcp_port uid raw ip)
unfolding reserve_tcp_port
reserve_tcp_port-IsTraced uid raw ip =
    search (traced_rules, call_rules, ensure_active-IsTraced, insert_or-IsTraced)

pub release_tcp_port-IsTraced :
    (actor : ℕ) (admin : Bool) (id : ℕ) (ip : String)
    → IsTraced (release_tcp_port actor admin id ip)
unfolding release_tcp_port
release_tcp_port-IsTraced actor admin id ip = search (traced_rules, call_rules, allow-IsTraced)

pub release_subdomain-IsTraced :
    (actor : ℕ) (admin : Bool) (id : ℕ) (ip : String)
    → IsTraced (release_subdomain actor admin id ip)
unfolding release_subdomain
release_subdomain-IsTraced actor admin id ip = search (traced_rules, call_rules, allow-IsTraced)
