-- ===== src/Service/World/Parts.antt =====
-- What the calls that return no error have done.
use tunnel_service.Prelude.{◌≡◌, ◌≢◌, refl, ap, sym, ◌∙◌}
use tunnel_service.Model.{Result, ok, err}
use tunnel_service.Store.Db.{Db}
use tunnel_service.Store.Tx.{Tx}
use tunnel_service.Service.World.{
  World, Io, Fault, ◌>>=◌, continue, works, fails_before, fails_after, stored, transact, settle,
  lose, next_fault, rest_of,
}

-- The parts of a sequence that returns no error.
pub >>=-parts :
    {A B : Type 0} (m : Io A) (f : A → Io B) (w : World) {b : B} {w' : World}
    → (m >>= f) w ≡ (ok b, w')
    → (a : A) × (mid : World) × (m w ≡ (ok a, mid)) × (f a mid ≡ (ok b, w'))
unfolding ◌>>=◌
>>=-parts {A} m f w {b} {w'} h = go (m w) refl h
  where
    go :
        (r : Result A × World)
        → m w ≡ r
        → continue r f ≡ (ok b, w')
        → (a : A) × (mid : World) × (m w ≡ (ok a, mid)) × (f a mid ≡ (ok b, w'))
    go (ok a, mid) e k = (a, mid, e, k)
    go (err x, mid) e k = cc

settle-ok :
    {A : Type 0} (v w : World) (r : Result (A × Db)) (a : A)
    → settle v r ≡ (ok a, w)
    → r ≡ ok (a, w.db)
settle-ok v w (ok (b, db)) a h =
    let same : b ≡ a = cc in
    let there : db ≡ w.db = ap (λ x. x.1.db) h in
    ap (λ x. ok (x, db)) same ∙ ap (λ d. ok (a, d)) there
settle-ok v w (err e) a h = cc

lose-ok : {A : Type 0} (v w : World) (r : Result (A × Db)) (a : A) → lose v r ≢ (ok a, w)
lose-ok v w (ok (b, db)) a h = cc
lose-ok v w (err e) a h = cc

-- A call of the store that succeeds is the transaction on the database.
pub stored-ok :
    {A : Type 0} (m : Tx A) (w w' : World) (a : A)
    → stored m w ≡ (ok a, w')
    → m w.db ≡ ok (a, w'.db)
unfolding stored
stored-ok {A} m w w' a h = go (next_fault w.faults) h
  where
    go : (f : Fault) → transact f m (rest_of w) ≡ (ok a, w') → m w.db ≡ ok (a, w'.db)
    go works k = settle-ok (rest_of w) w' (m w.db) a k
    go fails_before k = cc
    go fails_after k = absurd (lose-ok (rest_of w) w' (m w.db) a k)

settle-files :
    {A : Type 0} (v w : World) (r : Result (A × Db)) (a : A)
    → settle v r ≡ (ok a, w)
    → w.files ≡ v.files
settle-files v w (ok (b, db)) a h = ap (λ x. x.1.files) (sym h)
settle-files v w (err e) a h = cc

-- It leaves the files.
pub stored-files :
    {A : Type 0} (m : Tx A) (w w' : World) (a : A) → stored m w ≡ (ok a, w') → w'.files ≡ w.files
unfolding stored
stored-files {A} m w w' a h = go (next_fault w.faults) h
  where
    go : (f : Fault) → transact f m (rest_of w) ≡ (ok a, w') → w'.files ≡ w.files
    go works k = settle-files (rest_of w) w' (m w.db) a k
    go fails_before k = cc
    go fails_after k = absurd (lose-ok (rest_of w) w' (m w.db) a k)
