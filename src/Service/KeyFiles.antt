-- ===== src/Service/KeyFiles.antt =====
-- The key files: `PublicKeyWriter` of app/internal/integration/pubkeys.go. Only the names that
-- `managedKeyFile` matches are modelled: nothing else of the directory is read or written.
use tunnel_service.Prelude.{
  ℕ, Bool, ◌&&◌, ◌||◌, List, [], ◌∷◌, ◌++◌, ◌==◌, if◌then◌else◌, any, delete_where,
}
use tunnel_service.Model.{SshKey, Result, ok, err, invalid_key_ids, storage}
use tunnel_service.Service.Names.{trim_space}
use tunnel_service.Service.World.{
  KeyFile, World, Io, ◌>>=◌, ◌>>◌, done, fail, filed, next_fault, rest_of, Fault, works,
  fails_before, fails_after,
}

-- The path of a file, which names its user and its key.
unfoldable pub is_file : ℕ → ℕ → KeyFile → Bool
is_file uid kid f = f.user_id == uid && f.key_id == kid

unfoldable pub without_file : ℕ → ℕ → List KeyFile → List KeyFile
unfolding is_file
without_file uid kid files = delete_where (is_file uid kid) files

-- `atomicWrite`: the rename puts the whole content in place, so a file is old or new.
unfoldable pub with_file : SshKey → List KeyFile → List KeyFile
unfolding without_file
with_file k files =
    record { user_id = k.user_id; key_id = k.id; content = trim_space k.public_key ++ (10 ∷ []) }
    ∷ without_file k.user_id k.id files

unfoldable pub write_file : SshKey → Io (Unit {0})
unfolding with_file
write_file k = if k.id == 0 || k.user_id == 0 then fail invalid_key_ids else filed (with_file k)

abbrev pub absent : Fault → World → Result (Unit {0}) × World
absent fails_before w = (err storage, w)
absent works w = (ok tt, w)
absent fails_after w = (ok tt, w)

-- `os.Remove`: a file that is not there is removed, and its directory is not synced.
unfoldable pub unlink : ℕ → ℕ → Io (Unit {0})
unfolding without_file
unlink uid kid w =
    if any (is_file uid kid) w.files
    then filed (without_file uid kid) w
    else absent (next_fault w.faults) (rest_of w)

unfoldable pub remove_file : ℕ → ℕ → Io (Unit {0})
unfolding unlink
remove_file uid kid = if uid == 0 || kid == 0 then fail invalid_key_ids else unlink uid kid

unfoldable pub is_wanted : List SshKey → KeyFile → Bool
unfolding is_file
is_wanted keys f = any (λ k. is_file k.user_id k.id f) keys

-- The loop over the directory: a file of no wanted key is removed.
unfoldable pub sweep : List SshKey → List KeyFile → Io (Unit {0})
unfolding without_file
sweep keys [] = done tt
sweep keys (f ∷ fs) =
    if is_wanted keys f
    then sweep keys fs
    else (do filed (without_file f.user_id f.key_id); sweep keys fs)

-- The loop over the wanted keys. A Go map has no order: that of the list stands for it.
unfoldable pub write_files : List SshKey → Io (Unit {0})
unfolding write_file
write_files [] = done tt
write_files (k ∷ ks) = do write_file k; write_files ks

abbrev pub entries_of : Fault → World → Result (List KeyFile) × World
entries_of works w = (ok w.files, w)
entries_of fault w = (err storage, w)

-- os.ReadDir, of the managed files.
unfoldable pub read_dir : Io (List KeyFile)
read_dir w = entries_of (next_fault w.faults) (rest_of w)

unfoldable pub reconcile_files : List SshKey → Io (Unit {0})
unfolding sweep write_files read_dir
reconcile_files keys = do
  filed (λ fs. fs)
  entries ← read_dir
  sweep keys entries
  write_files keys
  filed (λ fs. fs)
