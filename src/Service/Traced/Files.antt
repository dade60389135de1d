-- ===== src/Service/Traced/Files.antt =====
-- The operations of app/internal/service/service.go are traced.
use tunnel_service.Prelude.{ℕ, ◌≡◌, refl, List, [], ◌∷◌, any, Bool-cases, inl, inr}
use tunnel_service.Model.{SshKey}
use tunnel_service.Store.Calls.{run_all}
use tunnel_service.Service.World.{
  World, KeyFile, next_fault, rest_of, Fault, works, fails_before, fails_after,
}
use tunnel_service.Service.KeyFiles.{
  write_file, unlink, absent, remove_file, sweep, write_files, read_dir, entries_of,
  reconcile_files, is_file, is_wanted, without_file,
}
use tunnel_service.Service.Keys.{ensure_active, sync_locked}
use tunnel_service.Service.Traced.{
  IsTraced, done-IsTraced, filed-IsTraced, bind-IsTraced, if-IsTraced, traced_rules,
}

pub write_file-IsTraced : (k : SshKey) → IsTraced (write_file k)
unfolding write_file
write_file-IsTraced k = search traced_rules

unlink-IsTraced : (uid kid : ℕ) → IsTraced (unlink uid kid)
unfolding unlink run_all
unlink-IsTraced uid kid = record {
  at = λ w. elim (Bool-cases (any (is_file uid kid) w.files)) [
    | inl e ↦ rw e ((filed-IsTraced (without_file uid kid)).at w)
    | inr e ↦ rw e ([], go (next_fault w.faults) (rest_of w))
  ];
}
  where
    go : (t : Fault) (w : World) → (absent t w).1.db ≡ w.db
    go works w = refl
    go fails_before w = refl
    go fails_after w = refl

pub remove_file-IsTraced : (uid kid : ℕ) → IsTraced (remove_file uid kid)
unfolding remove_file
remove_file-IsTraced uid kid = search (traced_rules, unlink-IsTraced)

pub sweep-IsTraced : (keys : List SshKey) (fs : List KeyFile) → IsTraced (sweep keys fs)
unfolding sweep
sweep-IsTraced keys [] = done-IsTraced tt
sweep-IsTraced keys (f ∷ fs) = if-IsTraced (is_wanted keys f) _ _ (sweep-IsTraced keys fs) (
    bind-IsTraced _ _ (filed-IsTraced (without_file f.user_id f.key_id))
      (λ _. sweep-IsTraced keys fs))

pub write_files-IsTraced : (ks : List SshKey) → IsTraced (write_files ks)
unfolding write_files
write_files-IsTraced [] = done-IsTraced tt
write_files-IsTraced (k ∷ ks) =
    bind-IsTraced _ _ (write_file-IsTraced k) (λ _. write_files-IsTraced ks)

read_dir-IsTraced : IsTraced read_dir
unfolding read_dir run_all
read_dir-IsTraced = record { at = λ w. ([], same (next_fault w.faults) (rest_of w)) }
  where
    same : (t : Fault) (w : World) → (entries_of t w).1.db ≡ w.db
    same works w = refl
    same fails_before w = refl
    same fails_after w = refl

reconcile_files-IsTraced : (keys : List SshKey) → IsTraced (reconcile_files keys)
unfolding reconcile_files
reconcile_files-IsTraced keys =
    search (traced_rules, read_dir-IsTraced, sweep-IsTraced, write_files-IsTraced)

pub sync_locked-IsTraced : IsTraced sync_locked
unfolding sync_locked
sync_locked-IsTraced = search (traced_rules, reconcile_files-IsTraced)

pub ensure_active-IsTraced : (uid : ℕ) → IsTraced (ensure_active uid)
unfolding ensure_active
ensure_active-IsTraced uid = search traced_rules
