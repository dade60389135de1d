-- ===== src/Service/Traced.antt =====
-- Actions of the service whose changes of the database are runs of the store's calls.
pub mod Files
pub mod Calls
pub mod Operations
pub mod Deliveries
use tunnel_service.Prelude.{
  ℕ, ◌≡◌, ◌⊎◌, inl, inr, refl, sym, ap, ◌∙◌, Bool, true, false, Option, none, some, List, [], ◌∷◌,
  ◌++◌, if◌then◌else◌,
}
use tunnel_service.Model.{Result, Error, ok, err}
use tunnel_service.Store.Db.{Db}
use tunnel_service.Store.Tx.{
  Tx, ◌>>=◌ as ◌then◌, continue as tx_continue, pure, demand, found, modify,
}
use tunnel_service.Store.Calls.{Call, forget, perform, run, run_all}
use tunnel_service.Service.World.{
  World, KeyFile, Io, Fault, ◌>>=◌, continue, done, fail, lift, attempt, reify, stored, transact,
  settle, lose, works, fails_before, fails_after, next_fault, rest_of, filed, change_files,
}
use tunnel_service.Service.Keys.{rows}

-- From every world, with its faults to come, the action leaves the database of a run of calls.
pub record IsTraced {A : Type 0} (m : Io A) : Type 0 where
  pub at : (w : World) → (cs : List Call) × ((m w).1.db ≡ run_all cs w.db)

-- A transaction that only reads.
pub record IsRead {A : Type 0} (m : Tx A) : Type 0 where
  pub same : (db : Db) (a : A) (db' : Db) → m db ≡ ok (a, db') → db' ≡ db

-- A transaction that is the call.
pub record IsCall {A : Type 0} (c : Call) (m : Tx A) : Type 0 where
  pub leaves : (db : Db) (a : A) (db' : Db) → m db ≡ ok (a, db') → db' ≡ run c db

pub run_all-append :
    (cs ds : List Call) (db : Db) → run_all (cs ++ ds) db ≡ run_all ds (run_all cs db)
unfolding run_all
run_all-append [] ds db = refl
run_all-append (c ∷ cs) ds db = run_all-append cs ds (run c db)

run_all-one : (c : Call) (db : Db) → run_all (c ∷ []) db ≡ run c db
unfolding run_all
run_all-one c db = refl

pub done-IsTraced : {A : Type 0} (a : A) → IsTraced (done a)
unfolding done run_all
done-IsTraced a = record { at = λ w. ([], refl) }

pub fail-IsTraced : {A : Type 0} (e : Error) → IsTraced (fail {A = A} e)
unfolding fail run_all
fail-IsTraced e = record { at = λ w. ([], refl) }

pub lift-IsTraced : {A : Type 0} (r : Result A) → IsTraced (lift r)
unfolding lift run_all
lift-IsTraced (ok a) = record { at = λ w. ([], refl) }
lift-IsTraced (err e) = record { at = λ w. ([], refl) }

pub attempt-IsTraced : {A : Type 0} (m : Io A) → IsTraced m → IsTraced (attempt m)
unfolding attempt
attempt-IsTraced m t = record { at = λ w. t.at w }

pub filed-IsTraced : (f : List KeyFile → List KeyFile) → IsTraced (filed f)
unfolding filed run_all
filed-IsTraced f = record { at = λ w. ([], go (next_fault w.faults) w) }
  where
    go : (t : Fault) (w : World) → (change_files t f (rest_of w)).1.db ≡ w.db
    go works w = refl
    go fails_before w = refl
    go fails_after w = refl

pub bind-IsTraced :
    {A B : Type 0} (m : Io A) (f : A → Io B)
    → IsTraced m
    → ((a : A) → IsTraced (f a))
    → IsTraced (m >>= f)
unfolding ◌>>=◌ run_all
bind-IsTraced {A} {B} m f t k = record { at = λ w. go (m w) w (t.at w) }
  where
    go :
        (r : Result A × World) (w : World)
        → ((cs : List Call) × (r.1.db ≡ run_all cs w.db))
        → (cs : List Call) × ((continue r f).1.db ≡ run_all cs w.db)
    go (ok a, w1) w (cs, e) =
        let (ds, d) = (k a).at w1 in
        (cs ++ ds, d ∙ ap (run_all ds) e ∙ sym (run_all-append cs ds w.db))
    go (err x, w1) w (cs, e) = (cs, e)

pub if-IsTraced :
    {A : Type 0} (b : Bool) (m n : Io A) → IsTraced m → IsTraced n → IsTraced (if b then m else n)
if-IsTraced true m n s t = s
if-IsTraced false m n s t = t

-- A call of the store leaves the database, or leaves what its transaction commits.
stored-cases :
    {A : Type 0} (m : Tx A) (w : World)
    → ((stored m w).1.db ≡ w.db) ⊎ ((a : A) × (m w.db ≡ ok (a, (stored m w).1.db)))
unfolding stored
stored-cases {A} m w = go (next_fault w.faults) (m w.db) refl
  where
    go :
        (t : Fault) (r : Result (A × Db))
        → m w.db ≡ r
        → ((transact t m (rest_of w)).1.db ≡ w.db)
          ⊎ ((a : A) × (m w.db ≡ ok (a, (transact t m (rest_of w)).1.db)))
    go fails_before r e = inl refl
    go works (err x) e = inl (ap (λ q. (settle (rest_of w) q).1.db) e)
    go works (ok (a, db)) e =
        inr (a, e ∙ ap (λ d. ok (a, d)) (ap (λ q. (settle (rest_of w) q).1.db) (sym e)))
    go fails_after (err x) e = inl (ap (λ q. (lose (rest_of w) q).1.db) e)
    go fails_after (ok (a, db)) e =
        inr (a, e ∙ ap (λ d. ok (a, d)) (ap (λ q. (lose (rest_of w) q).1.db) (sym e)))

pub read-IsTraced : {A : Type 0} (m : Tx A) → IsRead m → IsTraced (stored m)
unfolding run_all
read-IsTraced m r = record {
  at =
      λ w. elim (stored-cases m w) [ inl same ↦ ([], same) | inr (a, e) ↦ ([], r.same w.db a _ e) ];
}

pub call-IsTraced : {A : Type 0} (c : Call) (m : Tx A) → IsCall c m → IsTraced (stored m)
unfolding run_all
call-IsTraced c m r = record {
  at = λ w. elim (stored-cases m w) [
    | inl same ↦ ([], same)
    | inr (a, e) ↦ (c ∷ [], r.leaves w.db a _ e)
  ];
}

-- The queries read.
pub demand-IsRead : {A : Type 0} (q : Db → Option A) → IsRead (demand q)
unfolding demand
demand-IsRead {A} q = record { same = λ db a db' h. go (q db) db a db' h }
  where
    go : (o : Option A) (db : Db) (a : A) (db' : Db) → found o db ≡ ok (a, db') → db' ≡ db
    go none db a db' h = cc
    go (some b) db a db' h = cc

pub rows-IsRead : {A : Type 0} (q : Db → List A) → IsRead (rows q)
unfolding rows
rows-IsRead q = record { same = λ db a db' h. cc }

abbrev left : Db → Result (Unit {0} × Db) → Db
left db (ok (u, db')) = db'
left db (err e) = db

run-left : (c : Call) (db : Db) → run c db ≡ left db (perform c db)
unfolding run
run-left c db = go (perform c db)
  where
    go : (r : Result (Unit {0} × Db)) → (elim r [ ok (_, db') ↦ db' | err _ ↦ db ]) ≡ left db r
    go (ok (u, db')) = refl
    go (err e) = refl

-- A call whose result is kept, and one without a result.
pub result-IsCall :
    {A : Type 0} (c : Call) (m : Tx A) → ((db : Db) → perform c db ≡ forget m db) → IsCall c m
unfolding ◌then◌ pure
result-IsCall c m p = record {
  leaves =
      λ db a db' h. sym (run-left c db ∙ ap (left db) (p db) ∙ ap (λ r. left db (forgotten r)) h);
}
  where
    forgotten : {A : Type 0} → Result (A × Db) → Result (Unit {0} × Db)
    forgotten r = tx_continue r (λ _. pure tt)

pub plain-IsCall : (c : Call) (m : Tx (Unit {0})) → ((db : Db) → perform c db ≡ m db) → IsCall c m
plain-IsCall c m p = record {
  leaves = λ db a db' h. sym (run-left c db ∙ ap (left db) (p db) ∙ ap (left db) h);
}

pub ruleset traced_rules = (
  done-IsTraced, fail-IsTraced, lift-IsTraced, attempt-IsTraced, filed-IsTraced, bind-IsTraced,
  if-IsTraced, read-IsTraced, demand-IsRead, rows-IsRead,
)
