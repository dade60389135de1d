-- ===== src/Store/Rules.antt =====
-- What a successful transaction does, as a reflexive and transitive relation between the databases
-- before and after it; one rule for each way to build a transaction.
use tunnel_service.Prelude.{
  ap, some, none, ◌≡◌, refl, Bool, true, false, Option, if◌then◌else◌, subst, arith,
}
use tunnel_service.Model.{Error, Result, ok, err}
use tunnel_service.Store.Db.{Db}
use tunnel_service.Store.Tx.{Tx, pure, modify, check, demand, continue, found, ◌>>=◌}

pub record Frame (R : Db → Db → Type 0) : Type 0 where
  pub same : (db : Db) → R db db
  pub steps : (a b c : Db) → R a b → R b c → R a c

-- Where `m` commits, the databases before and after it are related.
pub record Ensures {A : Type 0} (R : Db → Db → Type 0) (m : Tx A) : Type 0 where
  pub at : (db : Db) (a : A) (db' : Db) → m db ≡ ok (a, db') → R db db'

-- The parts of a committed sequence.
pub >>=-eq-ok :
    {A B : Type 0} (m : Tx A) (f : A → Tx B) (db : Db) {b : B} {db' : Db}
    → (m >>= f) db ≡ ok (b, db')
    → (a : A) × (mid : Db) × (m db ≡ ok (a, mid)) × (f a mid ≡ ok (b, db'))
unfolding ◌>>=◌
>>=-eq-ok {A} m f db {b} {db'} h = go (m db) refl h
  where
    go :
        (r : Result (A × Db))
        → m db ≡ r
        → continue r f ≡ ok (b, db')
        → (a : A) × (mid : Db) × (m db ≡ ok (a, mid)) × (f a mid ≡ ok (b, db'))
    go (ok (a, mid)) e k = (a, mid, e, k)
    go (err x) e k = cc

pub demand-bind :
    {A B : Type 0} (q : Db → Option A) (f : A → Tx B) (db : Db) {a : A}
    → q db ≡ some a
    → (demand q >>= f) db ≡ f a db
unfolding ◌>>=◌
demand-bind q f db e = ap (λ o. continue (found o db) f) e

-- A row that is read is what the rest goes on from.
pub demand-eq-ok :
    {A B : Type 0} (q : Db → Option A) (f : A → Tx B) (db : Db) {b : B} {db' : Db}
    → (demand q >>= f) db ≡ ok (b, db')
    → (a : A) × (q db ≡ some a) × (f a db ≡ ok (b, db'))
unfolding ◌>>=◌
demand-eq-ok {A} q f db {b} {db'} h = go (q db) refl h
  where
    go :
        (o : Option A)
        → q db ≡ o
        → continue (found o db) f ≡ ok (b, db')
        → (a : A) × (q db ≡ some a) × (f a db ≡ ok (b, db'))
    go none e k = cc
    go (some a) e k = (a, e, k)

module _ {R : Db → Db → Type 0} (frame : Frame R) where
  pub Ensures-pure : {A : Type 0} (a : A) → Ensures R (pure a)
  unfolding pure
  Ensures-pure a = record {
    at = λ db b db' h. let e : db ≡ db' = cc in subst (R db) e (frame.same db);
  }

  pub Ensures-check : (p : Db → Bool) (e : Error) → Ensures R (check p e)
  unfolding check
  Ensures-check p e = record {
    at = λ db b db' h. let e : db ≡ db' = ground arith in subst (R db) e (frame.same db);
  }

  pub Ensures-demand : {A : Type 0} (q : Db → Option A) → Ensures R (demand q)
  unfolding demand
  Ensures-demand q = record {
    at = λ db b db' h. let e : db ≡ db' = ground arith in subst (R db) e (frame.same db);
  }

  pub Ensures-modify : (f : Db → Db) → ((db : Db) → R db (f db)) → Ensures R (modify f)
  unfolding modify
  Ensures-modify f k = record {
    at = λ db b db' h. let e : f db ≡ db' = cc in subst (R db) e (k db);
  }

  pub Ensures-bind :
      {A B : Type 0} (m : Tx A) (f : A → Tx B)
      → Ensures R m
      → ((a : A) → Ensures R (f a))
      → Ensures R (m >>= f)
  Ensures-bind m f km kf = record {
    at = λ db b db' h.
        let (a, mid, p, q) = >>=-eq-ok m f db h in
        frame.steps db mid db' (km.at db a mid p) ((kf a).at mid b db' q);
  }

  pub Ensures-if :
      {A : Type 0} (b : Bool) (m n : Tx A)
      → Ensures R m
      → Ensures R n
      → Ensures R (if b then m else n)
  Ensures-if true m n km kn = km
  Ensures-if false m n km kn = kn

pub ruleset frame_rules =
    (Ensures-pure, Ensures-check, Ensures-demand, Ensures-modify, Ensures-bind, Ensures-if)
