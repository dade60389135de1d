-- ===== src/Store/Tx.antt =====
-- Transactions. A transaction that meets an error leaves no state behind, which is the deferred
-- `tx.Rollback()`; one that returns carries the database that it commits.
use tunnel_service.Prelude.{ℕ, ◌+◌, Bool, Option, none, some, List, [], ◌∷◌, ◌++◌, any, ◌==◌}
use tunnel_service.Prelude.{◌&&◌, true, false, if◌then◌else◌, text_eq, String, str_eq}
use tunnel_service.Model.{Error, Result, ok, err, User, foreign_key, not_found}
use tunnel_service.Model.{DedupeKey, Effect, OutboxEvent}
use tunnel_service.Model.{
  initial_write, at_generation, write_key, remove_key_file, remove_key, drop_key, drop_user,
  drop_port, drop_host, reconcile_user,
}
use tunnel_service.Store.Db.{Db}

abbrev pub Tx : Type 0 → Type 0
Tx A = Db → Result (A × Db)

abbrev pub continue : {A B : Type 0} → Result (A × Db) → (A → Tx B) → Result (B × Db)
continue (ok (a, db)) f = f a db
continue (err e) f = err e

unfoldable pub pure : {A : Type 0} → A → Tx A
pure a db = ok (a, db)

unfoldable pub modify : (Db → Db) → Tx (Unit {0})
modify f db = ok (tt, f db)

-- A condition whose failure returns the error.
unfoldable pub check : (Db → Bool) → Error → Tx (Unit {0})
check p e db = if p db then ok (tt, db) else err e

abbrev pub found : {A : Type 0} → Option A → Tx A
found none db = err not_found
found (some a) db = ok (a, db)

-- QueryRow(…).Scan(…): no row is `sql.ErrNoRows`.
unfoldable pub demand : {A : Type 0} → (Db → Option A) → Tx A
demand q db = found (q db) db

infixl 5 ◌>>=◌ ◌>>◌
-- Opening this opens the actions above too.
unfoldable pub ◌>>=◌ : {A B : Type 0} → Tx A → (A → Tx B) → Tx B
unfolding pure modify check demand
◌>>=◌ m f db = continue (m db) f

abbrev pub ◌>>◌ : {A B : Type 0} → Tx A → Tx B → Tx B
m >> k = m >>= λ _. k

pub record AuditEntry : Type 0 where
  pub actor : Option ℕ
  pub target : Option ℕ
  pub action : String
  pub resource_type : String
  pub resource_id : Option ℕ
  pub source_ip : String
  pub metadata : String

-- A reference to `users(id)` that is null or has its row.
unfoldable pub refers : Option ℕ → List User → Bool
refers none users = true
refers (some id) users = any (λ u. u.id == id) users

unfoldable pub insert_audit : AuditEntry → Tx (Unit {0})
insert_audit a db =
    if refers a.actor db.users && refers a.target db.users
    then ok (
      tt,
      record db {
        audit_logs =
            record {
              actor = a.actor;
              target = a.target;
              action = a.action;
              resource_type = a.resource_type;
              resource_id = a.resource_id;
              source_ip = a.source_ip;
              metadata = if str_eq a.metadata "" then "{}" else a.metadata;
            }
            ∷ db.audit_logs;
      },
    )
    else err foreign_key

unfoldable pub same_effect : Effect → Effect → Bool
same_effect (write_key a) (write_key b) = a == b
same_effect (remove_key_file a) (remove_key_file b) = a == b
same_effect (remove_key a) (remove_key b) = a == b
same_effect (drop_key a) (drop_key b) = a == b
same_effect (drop_user a) (drop_user b) = a == b
same_effect (drop_port a) (drop_port b) = a == b
same_effect (reconcile_user a) (reconcile_user b) = a == b
same_effect (drop_host a) (drop_host b) = text_eq a b
same_effect _ _ = false

unfoldable pub same_key : DedupeKey → DedupeKey → Bool
unfolding same_effect
same_key (initial_write a) (initial_write b) = a == b
same_key (at_generation g e) (at_generation h f) = g == h && same_effect e f
same_key _ _ = false

-- INSERT … ON CONFLICT(dedupe_key) DO NOTHING
unfoldable pub insert_outbox : OutboxEvent → Tx (Unit {0})
insert_outbox e db =
    if any (λ i. same_key i.event.dedupe_key e.dedupe_key) db.outbox
    then ok (tt, db)
    else ok (
      tt,
      record db {
        outbox =
            db.outbox
            ++ record {
              id = db.next_outbox_id;
              event = e;
              attempts = 0;
              available_at = none;
              last_error = [];
              completed = false;
            }
              ∷ [];
        next_outbox_id = db.next_outbox_id + 1;
      },
    )

unfoldable pub next_generation : Tx ℕ
next_generation db = let g = db.generation + 1 in ok (g, record db { generation = g })
