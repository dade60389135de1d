-- ===== src/Store/Revocation.antt =====
-- What a revocation does to the binds that were authorized before it.
use tunnel_service.Prelude.{ℕ, ◌<◌, ◌≡◌, String, Text, true, false, List, arith, some, ◌∙◌}
use tunnel_service.Model.{
  User, SshKey, BoundKey, ActiveTunnel, Protocol, active, suspended, ok, err, stale_generation,
}
use tunnel_service.Store.Db.{Db}
use tunnel_service.Store.Tx.{Tx, ◌>>=◌, AuditEntry, next_generation}
use tunnel_service.Store.Rules.{Ensures, >>=-eq-ok, demand-bind}
use tunnel_service.Store.Keys.{
  active_key, user_by_id, set_key_enabled_atomic, delete_key_atomic, change_key_enabled,
}
use tunnel_service.Store.Reservations.{delete_subdomain_atomic, delete_tcp_port_atomic}
use tunnel_service.Store.Users.{set_user_status_atomic, change_user_status}
use tunnel_service.Store.Bind.{authorize_bind}
use tunnel_service.Store.Tunnels.{apply_connect}
use tunnel_service.Store.Calls.{Call, perform, run_all, run_all-Ensures}
use tunnel_service.Store.Generation.{Grows, Grows-Frame, call-Grows, grow_rules}

-- The revocations that Service makes as one transaction with their outbox events: a key deleted, a
-- subdomain or a port released, an enabled key disabled, an active user suspended. The calls with
-- which AddKey takes back a key whose file it could not write, and the registration of the system
-- key, are not among them.
abbrev pub Revokes : Call → Db → Type 0
Revokes (Call.remove_key id uid a) db = Unit
Revokes (Call.release_subdomain id name a) db = Unit
Revokes (Call.release_port id port a) db = Unit
Revokes (Call.enable_key id false a) db =
    (k : SshKey) × (active_key id db ≡ some k) × (k.enabled ≡ true)
Revokes (Call.set_status id suspended a) db =
    (u : User) × (user_by_id id db ≡ some u) × (u.status ≡ active)
Revokes _ db = ⊥

bump_first :
    {A : Type 0} (f : ℕ → Tx A) (db : Db) {x : A} {db' : Db}
    → ((g : ℕ) → Ensures Grows (f g))
    → (next_generation >>= f) db ≡ ok (x, db')
    → db.generation < db'.generation
unfolding next_generation
bump_first f db {x} {db'} grows h =
    let (g, mid, p, q) = >>=-eq-ok next_generation f db h in
    ground (arith, (grows g).at mid x db' q)

disable_changes :
    (id : ℕ) (a : AuditEntry) (db : Db) (k : SshKey)
    → active_key id db ≡ some k
    → k.enabled ≡ true
    → set_key_enabled_atomic id false a db ≡ change_key_enabled id false a db
unfolding set_key_enabled_atomic
disable_changes id a db k found on = demand-bind (active_key id) _ db found ∙ rw on

pub suspend_changes :
    (id : ℕ) (a : AuditEntry) (db : Db) (u : User)
    → user_by_id id db ≡ some u
    → u.status ≡ active
    → set_user_status_atomic id suspended a db ≡ change_user_status id suspended a db
unfolding set_user_status_atomic
suspend_changes id a db u found on = demand-bind (user_by_id id) _ db found ∙ rw on

-- A deletion of a key, a release of a subdomain or a port, a disabling of an enabled key and a
-- suspension of an active user, each as the one transaction that Service makes, raise the generation
-- where they commit.
pub Revokes-lt :
    (c : Call) (db db' : Db)
    → Revokes c db
    → perform c db ≡ ok (tt, db')
    → db.generation < db'.generation
unfolding perform delete_key_atomic delete_subdomain_atomic delete_tcp_port_atomic
    change_key_enabled change_user_status
Revokes-lt (Call.remove_key id uid a) db db' r h =
    bump_first _ db (λ g. search grow_rules depth 20) h
Revokes-lt (Call.release_subdomain id name a) db db' r h =
    bump_first _ db (λ g. search grow_rules depth 20) h
Revokes-lt (Call.release_port id port a) db db' r h =
    bump_first _ db (λ g. search grow_rules depth 20) h
Revokes-lt (Call.enable_key id false a) db db' (k, found, on) h =
    bump_first _ db (λ g. search grow_rules depth 20) (rw (disable_changes id a db k found on) at h)
Revokes-lt (Call.set_status id suspended a) db db' (u, found, on) h =
    bump_first _ db (λ g. search grow_rules depth 20) (rw (suspend_changes id a db u found on) at h)
Revokes-lt (Call.enable_key id true a) db db' r h = elim r [ ]
Revokes-lt (Call.set_status id active a) db db' r h = elim r [ ]
Revokes-lt (Call.add_key x y z w v) db db' r h = elim r [ ]
Revokes-lt _ db db' r h = elim r [ ]

authorize_bind-generation :
    (fp : String) (label : Text) (protocol : Protocol) (port : ℕ) (db : Db) {k : BoundKey} {g : ℕ}
    {db' : Db}
    → authorize_bind fp label protocol port db ≡ ok ((k, g), db')
    → g ≡ db.generation
unfolding authorize_bind
authorize_bind-generation fp label protocol port db h = ground arith

connect_stale :
    (t : ActiveTunnel) (label : Text) (source event : String) (db : Db)
    → t.generation < db.generation
    → apply_connect t label source event db ≡ err stale_generation
unfolding apply_connect ◌>>=◌
connect_stale t label source event db h = ground arith

-- An authorization to bind is refused by the connect event that presents it, once a revocation has
-- committed in between, whatever other calls ran before and after the revocation.
pub stale_bind-connect :
    (fp : String) (label : Text) (protocol : Protocol) (port : ℕ) (db : Db) {k : BoundKey} {g : ℕ}
    {db' : Db}
    → authorize_bind fp label protocol port db ≡ ok ((k, g), db')
    → (before after : List Call) (c : Call) (mid : Db) → Revokes c (run_all before db)
    → perform c (run_all before db) ≡ ok (tt, mid)
    → (t : ActiveTunnel) → t.generation ≡ g
    → (l : Text) (source event : String)
    → apply_connect t l source event (run_all after mid) ≡ err stale_generation
stale_bind-connect fp label protocol port db auth before after c mid r h t e l source event =
    connect_stale t l source event (run_all after mid) (
      omega (
        arith,
        authorize_bind-generation fp label protocol port db auth,
        e,
        run_all-Ensures Grows-Frame call-Grows before db,
        Revokes-lt c (run_all before db) mid r h,
        run_all-Ensures Grows-Frame call-Grows after mid,
      ))
