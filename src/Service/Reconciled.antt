-- ===== src/Service/Reconciled.antt =====
-- What a reconciliation of the key files leaves: `Reconcile` of app/internal/service/service.go and
-- of app/internal/integration/pubkeys.go.
use tunnel_service.Prelude.{
  ℕ, ◌≡◌, ◌∙◌, refl, Bool, true, false, ◌&&◌, ◌||◌, List, [], ◌∷◌, arith, any, All, All-intro,
  All-Row, Row, Row-cases, Row-delete_where, delete_where, Bool-cases, inl, inr, ◌⊎◌, ◌==◌,
}
use tunnel_service.Model.{SshKey, ok, invalid_key_ids}
use tunnel_service.Store.Db.{Db}
use tunnel_service.Store.Keys.{authorized_keys}
use tunnel_service.Service.World.{
  World, KeyFile, done, fail, filed, stored, works, fails_before, fails_after, Fault, change_files,
  transact, next_fault, rest_of,
}
use tunnel_service.Service.World.Parts.{>>=-parts}
use tunnel_service.Service.KeyFiles.{
  is_file, without_file, with_file, write_file, is_wanted, sweep, write_files, read_dir, entries_of,
  reconcile_files,
}
use tunnel_service.Service.Republish.{with_file-has}
use tunnel_service.Service.Keys.{rows, reconcile}

-- A change of the files that returns no error is made, and changes nothing else.
filed-parts :
    (f : List KeyFile → List KeyFile) (w w' : World)
    → filed f w ≡ (ok tt, w')
    → (w'.files ≡ f w.files) × (w'.db ≡ w.db)
unfolding filed
filed-parts f w w' h = go (next_fault w.faults) h
  where
    go :
        (t : Fault)
        → change_files t f (rest_of w) ≡ (ok tt, w')
        → (w'.files ≡ f w.files) × (w'.db ≡ w.db)
    go works k = ground arith
    go fails_before k = cc
    go fails_after k = cc

gone :
    (f g : KeyFile) (files : List KeyFile)
    → Row g (without_file f.user_id f.key_id files)
    → Row g files × (is_file f.user_id f.key_id g ≡ false)
unfolding without_file
gone f g files r = Row-delete_where (is_file f.user_id f.key_id) files r

abbrev Kept : List SshKey → World → List KeyFile → KeyFile → Type 0
Kept keys w entries g =
    Row g w.files
    × All (λ e. (is_file e.user_id e.key_id g ≡ false) ⊎ (is_wanted keys e ≡ true)) entries

sweep-Kept :
    (keys : List SshKey) (entries : List KeyFile) (w w' : World)
    → sweep keys entries w ≡ (ok tt, w')
    → (w'.db ≡ w.db) × ((g : KeyFile) → Row g w'.files → Kept keys w entries g)
unfolding sweep done
sweep-Kept keys [] w w' h = let e : w ≡ w' = cc in (rw e refl, λ g r. (rw e r, tt))
sweep-Kept keys (f ∷ fs) w w' h = elim (Bool-cases (is_wanted keys f)) [
  | inl e ↦
      let (same, kept) = sweep-Kept keys fs w w' (rw e at h) in
      (same, λ g r. let (row, all) = kept g r in (row, (inr e, all)))
  | inr e ↦
      let (u, mid, p, q) = >>=-parts (filed (without_file f.user_id f.key_id)) _ w (rw e at h) in
      let (files, db) = filed-parts (without_file f.user_id f.key_id) w mid p in
      let (same, kept) = sweep-Kept keys fs mid w' q in
      (
        same ∙ db,
        λ g r.
            let (row, all) = kept g r in
            let (old, off) = gone f g w.files (rw files at row) in (old, (inl off, all)),
      )
]

written-Row :
    (k : SshKey) (g : KeyFile) (files : List KeyFile)
    → Row g (with_file k files)
    → Row g files ⊎ (is_file k.user_id k.id g ≡ true)
unfolding with_file is_file without_file
written-Row k g files r = elim (Row-cases r) [
  | inl e ↦ inr (rw e (ground arith))
  | inr s ↦ inl (Row-delete_where (is_file k.user_id k.id) files s).0
]

survives :
    (a b uid kid : ℕ) (files : List KeyFile)
    → any (is_file uid kid) files ≡ true
    → ((a == uid && b == kid) || any (is_file uid kid) (delete_where (is_file a b) files)) ≡ true
unfolding any is_file delete_where
survives a b uid kid [] h = ground arith
survives a b uid kid (f ∷ fs) h = ground (arith, survives a b uid kid fs)

-- A file that is there stays, or is replaced under its name.
written-any :
    (k : SshKey) (uid kid : ℕ) (files : List KeyFile)
    → any (is_file uid kid) files ≡ true
    → any (is_file uid kid) (with_file k files) ≡ true
unfolding with_file is_file any without_file
written-any k uid kid files h = survives k.user_id k.id uid kid files h

write_file-parts :
    (k : SshKey) (w w' : World)
    → write_file k w ≡ (ok tt, w')
    → (w'.files ≡ with_file k w.files) × (w'.db ≡ w.db)
unfolding write_file fail
write_file-parts k w w' h = elim (Bool-cases (k.id == 0 || k.user_id == 0)) [
  | inl e ↦ let bad : fail {A = Unit {0}} invalid_key_ids w ≡ (ok tt, w') = rw e at h in cc
  | inr e ↦ filed-parts (with_file k) w w' (rw e at h)
]

write_files-Row :
    (ks : List SshKey) (w w' : World)
    → write_files ks w ≡ (ok tt, w')
    → (w'.db ≡ w.db) × ((g : KeyFile) → Row g w'.files → Row g w.files ⊎ (is_wanted ks g ≡ true))
unfolding write_files is_wanted any done
write_files-Row [] w w' h = let e : w ≡ w' = cc in (rw e refl, λ g r. inl (rw e r))
write_files-Row (k ∷ ks) w w' h =
    let (u, mid, p, q) = >>=-parts (write_file k) _ w h in
    let (files, db) = write_file-parts k w mid p in
    let (same, kept) = write_files-Row ks mid w' q in
    (
      same ∙ db,
      λ g r. elim (kept g r) [
        | inr on ↦ inr (later (is_file k.user_id k.id g) (is_wanted ks g) on)
        | inl row ↦ elim (written-Row k g w.files (rw files at row)) [
          | inl old ↦ inl old
          | inr on ↦ inr (now (is_file k.user_id k.id g) (is_wanted ks g) on)
        ]
      ],
    )
  where
    later : (a b : Bool) → b ≡ true → (a || b) ≡ true
    later a b e = ground arith

    now : (a b : Bool) → a ≡ true → (a || b) ≡ true
    now a b e = ground arith

write_files-any :
    (ks : List SshKey) (w w' : World) (uid kid : ℕ)
    → write_files ks w ≡ (ok tt, w')
    → any (is_file uid kid) w.files ≡ true
    → any (is_file uid kid) w'.files ≡ true
unfolding write_files done
write_files-any [] w w' uid kid h on = let e : w ≡ w' = cc in rw (← e) on
write_files-any (k ∷ ks) w w' uid kid h on =
    let (u, mid, p, q) = >>=-parts (write_file k) _ w h in
    let (files, db) = write_file-parts k w mid p in
    write_files-any ks mid w' uid kid q (rw files (written-any k uid kid w.files on))

write_files-All :
    (ks : List SshKey) (w w' : World)
    → write_files ks w ≡ (ok tt, w')
    → All (λ (k : SshKey). any (is_file k.user_id k.id) w'.files ≡ true) ks
unfolding write_files
write_files-All [] w w' h = tt
write_files-All (k ∷ ks) w w' h =
    let (u, mid, p, q) = >>=-parts (write_file k) _ w h in
    let (files, db) = write_file-parts k w mid p in
    (
      write_files-any ks mid w' k.user_id k.id q (rw files (with_file-has k w.files)),
      write_files-All ks mid w' q,
    )

read_dir-parts :
    (w w' : World) (es : List KeyFile) → read_dir w ≡ (ok es, w') → (es ≡ w'.files) × (w'.db ≡ w.db)
unfolding read_dir
read_dir-parts w w' es h = go (next_fault w.faults) h
  where
    go : (t : Fault) → entries_of t (rest_of w) ≡ (ok es, w') → (es ≡ w'.files) × (w'.db ≡ w.db)
    go works k = ground arith
    go fails_before k = cc
    go fails_after k = cc

rows-parts :
    {A : Type 0} (q : Db → List A) (w w' : World) (xs : List A)
    → stored (rows q) w ≡ (ok xs, w')
    → (xs ≡ q w.db) × (w'.db ≡ w.db)
unfolding stored rows
rows-parts {A} q w w' xs h = go (next_fault w.faults) h
  where
    go :
        (t : Fault) → transact t (rows q) (rest_of w) ≡ (ok xs, w') → (xs ≡ q w.db) × (w'.db ≡ w.db)
    go works k = ground arith
    go fails_before k = cc
    go fails_after k = cc

is_file_self : (g : KeyFile) → is_file g.user_id g.key_id g ≡ true
unfolding is_file
is_file_self g = ground arith

-- Of the files that were there, only the wanted ones are left.
swept :
    (keys : List SshKey) (w : World) (g : KeyFile) → Kept keys w w.files g → is_wanted keys g ≡ true
swept keys w g (row, all) = elim (All-Row _ row all) [
  | inr e ↦ e
  | inl e ↦ let on = is_file_self g in cc
]

reconcile_files-exact :
    (keys : List SshKey) (w w' : World)
    → reconcile_files keys w ≡ (ok tt, w')
    → (w'.db ≡ w.db)
      × All (λ g. is_wanted keys g ≡ true) w'.files
      × All (λ (k : SshKey). any (is_file k.user_id k.id) w'.files ≡ true) keys
unfolding reconcile_files
reconcile_files-exact keys w w' h =
    let (u1, w1, p1, q1) = >>=-parts (filed (λ fs. fs)) _ w h in
    let (es, w2, p2, q2) = >>=-parts read_dir _ w1 q1 in
    let (u3, w3, p3, q3) = >>=-parts (sweep keys es) _ w2 q2 in
    let (u4, w4, p4, q4) = >>=-parts (write_files keys) _ w3 q3 in
    let (all, same) = read_dir-parts w1 w2 es p2 in
    let (db3, kept) = sweep-Kept keys es w2 w3 p3 in
    let (db4, left) = write_files-Row keys w3 w4 p4 in
    let (files, db5) = filed-parts (λ fs. fs) w4 w' q4 in
    (
      db5 ∙ db4 ∙ db3 ∙ same ∙ (filed-parts (λ fs. fs) w w1 p1).1,
      rw files (
          All-intro _ w4.files λ g r. elim (left g r) [
            | inr e ↦ e
            | inl row ↦ swept keys w2 g (rw (all) at (kept g row))
          ]),
      rw files (write_files-All keys w3 w4 p4),
    )

-- A reconciliation that returns no error, whatever faults it could have met, changes no row of the
-- database and leaves key files of authorized keys only, and one for each authorized key.
pub reconcile_exact :
    (w w' : World)
    → reconcile w ≡ (ok tt, w')
    → (w'.db ≡ w.db)
      × All (λ g. is_wanted (authorized_keys w.db) g ≡ true) w'.files
      × All (λ (k : SshKey). any (is_file k.user_id k.id) w'.files ≡ true) (authorized_keys w.db)
unfolding reconcile
reconcile_exact w w' h =
    let (keys, w1, p1, q1) = >>=-parts (stored (rows authorized_keys)) _ w h in
    let (listed, same) = rows-parts authorized_keys w w1 keys p1 in
    let (db, wanted, present) = reconcile_files-exact keys w1 w' q1 in
    (db ∙ same, rw (← listed) wanted, rw (← listed) present)
