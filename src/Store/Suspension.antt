-- ===== src/Store/Suspension.antt =====
-- What suspending a user leaves behind: `SetUserStatusAtomic` of app/internal/store/hardening.go.
use tunnel_service.Prelude.{
  ℕ, ◌<◌, ◌≡◌, ◌≢◌, sym, ◌∙◌, Bool, true, false, ◌&&◌, List, some, arith, ◌==◌, ==_iff,
  update_where, delete_where, Row-update_where, Row-delete_where, Row-select, any-Row, &&_parts,
  All, All-intro, All-Row, if◌then◌else◌, Bool-cases, inl, inr,
}
use tunnel_service.Model.{
  User, SshKey, Session, ActiveTunnel, active, suspended, is_active, is_up, ok,
}
use tunnel_service.Store.Db.{Db}
use tunnel_service.Store.Tx.{◌>>=◌, AuditEntry, insert_audit, insert_outbox, next_generation}
use tunnel_service.Store.Keys.{user_by_id, authorized_keys, disconnect_where}
use tunnel_service.Store.Users.{
  set_user_status, set_user_status_atomic, change_user_status, with_status,
}
use tunnel_service.Store.Revocation.{suspend_changes, Revokes-lt}
use tunnel_service.Store.Calls.{Call, perform}

change_fields :
    (id : ℕ) (a : AuditEntry) (db db' : Db)
    → change_user_status id suspended a db ≡ ok (tt, db')
    → (db'.sessions ≡ delete_where (λ s. s.user_id == id) db.sessions)
      × (db'.tunnels ≡ (disconnect_where (λ t. t.user_id == id) db).tunnels)
      × (db'.users ≡ (with_status id suspended db).users)
      × (db'.ssh_keys ≡ db.ssh_keys)
unfolding change_user_status ◌>>=◌ next_generation set_user_status insert_outbox insert_audit
    disconnect_where with_status
change_fields id a db db' h = ground arith

if_row :
    {A : Type 0} (p : A → Bool) (f : A → A) (q : A → Bool) {a b : A}
    → a ≡ (if p b then f b else b)
    → (p b ≡ true → q (f b) ≡ false)
    → (p b ≡ false → q b ≡ false)
    → q a ≡ false
if_row p f q {b = b} e taken passed = elim (Bool-cases (p b)) [
  | inl h ↦ rw (e, h) (taken h)
  | inr h ↦ rw (e, h) (passed h)
]

-- No row after an UPDATE meets `q`, where the UPDATE takes the rows that meet it out of it.
no_row :
    {A : Type 0} (p : A → Bool) (f : A → A) (q : A → Bool) (xs : List A)
    → ((b : A) → p b ≡ true → q (f b) ≡ false)
    → ((b : A) → p b ≡ false → q b ≡ false)
    → All (λ a. q a ≡ false) (update_where p f xs)
no_row p f q xs taken passed =
    All-intro _ (update_where p f xs)
      λ a r. let (b, s, e) = Row-update_where p f xs a r in if_row p f q e (taken b) (passed b)

no_session :
    (id : ℕ) (db : Db)
    → All (λ (s : Session). s.user_id ≢ id) (delete_where (λ s. s.user_id == id) db.sessions)
no_session id db = All-intro _ _ λ s r same.
    let (t, off) = Row-delete_where (λ s. s.user_id == id) db.sessions r in
    let on = (==_iff s.user_id id).1 same in cc

abbrev pub up_of : ℕ → ActiveTunnel → Bool
up_of id t = t.user_id == id && is_up t.status

no_tunnel :
    (id : ℕ) (db : Db)
    → All (λ t. up_of id t ≡ false) (disconnect_where (λ t. t.user_id == id) db).tunnels
unfolding disconnect_where
no_tunnel id db = no_row (up_of id) _ (up_of id) db.tunnels (λ t h. ground arith) (λ t h. h)

abbrev pub active_of : ℕ → User → Bool
active_of id u = u.id == id && is_active u.status

no_active_user :
    (id : ℕ) (db : Db) → All (λ u. active_of id u ≡ false) (with_status id suspended db).users
unfolding with_status
no_active_user id db =
    no_row _ _ (active_of id) db.users (λ u h. ground arith) (λ u h. ground arith)

no_authorized_key :
    (id : ℕ) (db : Db)
    → All (λ u. active_of id u ≡ false) db.users
    → All (λ (k : SshKey). k.user_id ≢ id) (authorized_keys db)
unfolding authorized_keys
no_authorized_key id db off = All-intro _ _ λ k r same.
    let (s, holds) = Row-select _ db.ssh_keys r in
    let (u, row, is) = any-Row _ db.users (&&_parts _ _ holds).0 in
    let out = All-Row _ row off in let on : active_of id u ≡ true = rw (← same) is in cc

-- Suspending an active user, where it commits, leaves none of the user's sessions, none of the
-- user's tunnels up, no active user with that id and no authorized key of that id, and raises the
-- generation.
pub suspend_closes :
    (id : ℕ) (a : AuditEntry) (db db' : Db) (u : User)
    → user_by_id id db ≡ some u
    → u.status ≡ active
    → set_user_status_atomic id suspended a db ≡ ok (tt, db')
    → All (λ (s : Session). s.user_id ≢ id) db'.sessions
      × All (λ t. up_of id t ≡ false) db'.tunnels
      × All (λ v. active_of id v ≡ false) db'.users
      × All (λ (k : SshKey). k.user_id ≢ id) (authorized_keys db')
      × (db.generation < db'.generation)
unfolding perform
suspend_closes id a db db' u found on h =
    let step = sym (suspend_changes id a db u found on) ∙ h in
    let (sessions, tunnels, users, keys) = change_fields id a db db' step in
    let off : All (λ v. active_of id v ≡ false) db'.users = rw users (no_active_user id db) in
    (
      rw sessions (no_session id db),
      rw tunnels (no_tunnel id db),
      off,
      no_authorized_key id db' off,
      Revokes-lt (Call.set_status id suspended a) db db' (u, found, on) h,
    )
