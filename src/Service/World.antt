-- ===== src/Service/World.antt =====
-- What the service acts on: the database, the managed key files and the faults of SQLite and the
-- file system still to come. A call of either takes the next fault; none is left for a run without.
pub mod Parts
use tunnel_service.Prelude.{ℕ, Text, List, [], ◌∷◌}
use tunnel_service.Model.{Result, Error, ok, err, storage}
use tunnel_service.Store.Db.{Db}
use tunnel_service.Store.Tx.{Tx}

-- `fails_before` fails with nothing done, `fails_after` fails with the change made: a commit or a
-- rename that took place and is then reported as an error.
pub data Fault : Type 0 where
  works fails_before fails_after : Fault

-- The file control-plane-<user>-<key>.pub.
pub record KeyFile : Type 0 where
  pub user_id : ℕ
  pub key_id : ℕ
  pub content : Text

pub record World : Type 0 where
  pub db : Db
  pub files : List KeyFile
  pub faults : List Fault

-- An error keeps what was done before it.
abbrev pub Io : Type 0 → Type 0
Io A = World → Result A × World

abbrev pub continue : {A B : Type 0} → Result A × World → (A → Io B) → Result B × World
continue (ok a, w) f = f a w
continue (err e, w) f = (err e, w)

unfoldable pub done : {A : Type 0} → A → Io A
done a w = (ok a, w)

unfoldable pub fail : {A : Type 0} → Error → Io A
fail e w = (err e, w)

unfoldable pub lift : {A : Type 0} → Result A → Io A
lift (ok a) w = (ok a, w)
lift (err e) w = (err e, w)

infixl 5 ◌>>=◌ ◌>>◌
-- Opening this opens the actions above too.
unfoldable pub ◌>>=◌ : {A B : Type 0} → Io A → (A → Io B) → Io B
unfolding done fail lift
◌>>=◌ m f w = continue (m w) f

abbrev pub ◌>>◌ : {A B : Type 0} → Io A → Io B → Io B
m >> k = m >>= λ _. k

abbrev pub reify : {A : Type 0} → Result A × World → Result (Result A) × World
reify (r, w) = (ok r, w)

-- A call whose error the caller handles itself.
unfoldable pub attempt : {A : Type 0} → Io A → Io (Result A)
attempt m w = reify (m w)

abbrev pub next_fault : List Fault → Fault
next_fault [] = works
next_fault (f ∷ fs) = f

abbrev pub later_faults : List Fault → List Fault
later_faults [] = []
later_faults (f ∷ fs) = fs

abbrev pub settle : {A : Type 0} → World → Result (A × Db) → Result A × World
settle w (ok (a, db)) = (ok a, record w { db = db })
settle w (err e) = (err e, w)

abbrev pub lose : {A : Type 0} → World → Result (A × Db) → Result A × World
lose w (ok (a, db)) = (err storage, record w { db = db })
lose w (err e) = (err e, w)

abbrev pub transact : {A : Type 0} → Fault → Tx A → World → Result A × World
transact works m w = settle w (m w.db)
transact fails_before m w = (err storage, w)
transact fails_after m w = lose w (m w.db)

abbrev pub rest_of : World → World
rest_of w = record w { faults = later_faults w.faults }

-- A call of the store.
unfoldable pub stored : {A : Type 0} → Tx A → Io A
stored m w = transact (next_fault w.faults) m (rest_of w)

abbrev pub change_files : Fault → (List KeyFile → List KeyFile) → World → Result (Unit {0}) × World
change_files works f w = (ok tt, record w { files = f w.files })
change_files fails_before f w = (err storage, w)
change_files fails_after f w = (err storage, record w { files = f w.files })

-- A change of the key files.
unfoldable pub filed : (List KeyFile → List KeyFile) → Io (Unit {0})
filed f w = change_files (next_fault w.faults) f (rest_of w)
