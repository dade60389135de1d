-- ===== src/Store/LoggedIn.antt =====
-- What `LoginDiscordAtomic` of app/internal/store/hardening.go leaves, and that `SessionUser` of
-- store.go finds it.
use tunnel_service.Prelude.{
  ◌&&◌, ◌≡◌, &&_join, refl, subst, ap, sym, ◌∙◌, arith, ℕ, String, Bool, true, Option, none, some,
  List, ◌∷◌, ◌==◌, str_eq, eq_iff, eq_refl, any, find, Row, find-Row, Row-find, Row-any, ==_iff,
  Distinct-Row, Option-cases, inl, inr,
}
use tunnel_service.Model.{Time, User, Session, is_active, ok, not_found}
use tunnel_service.Store.Db.{Db}
use tunnel_service.Store.Tx.{◌>>=◌, pure, check, continue, insert_audit, AuditEntry}
use tunnel_service.Store.Rules.{>>=-eq-ok, demand-eq-ok}
use tunnel_service.Store.Users.{Profile, upsert_user, with_profile, with_user, user_by_discord_id}
use tunnel_service.Store.Auth.{
  consume_oauth_state, insert_session, login_discord_atomic, session_user, session_owner,
}
use tunnel_service.Store.Stamp.{stamp_lt}
use tunnel_service.Store.Valid.{IsValid}
use tunnel_service.Store.Calls.{Call, perform}
use tunnel_service.Store.Invariant.{call-Keeps}

-- A login has stored a session of the token's hash for an active user.
pub record IsLoggedIn (p : Profile) (h csrf : String) (expires : Time) (db : Db) (u : User)
    (after : Db) : Type 0 where
  pub discord_id : u.discord_id ≡ p.discord_id
  pub is_on : is_active u.status ≡ true
  pub row : Row u after.users
  pub sessions :
      after.sessions
      ≡ record { token_hash = h; user_id = u.id; csrf_token = csrf; expires_at = expires }
        ∷ db.sessions
  pub oauth_states : after.oauth_states ≡ db.oauth_states

-- The tables that a login reads later are as they were.
record IsQuiet (a b : Db) : Type 0 where
  pub users : b.users ≡ a.users
  pub sessions : b.sessions ≡ a.sessions
  pub oauth_states : b.oauth_states ≡ a.oauth_states

audit-IsQuiet : (a : AuditEntry) (db db' : Db) → insert_audit a db ≡ ok (tt, db') → IsQuiet db db'
unfolding insert_audit
audit-IsQuiet a db db' h = record {
  users = ground arith;
  sessions = ground arith;
  oauth_states = ground arith;
}

upsert-sessions :
    (p : Profile) (db db' : Db)
    → upsert_user p db ≡ ok (tt, db')
    → (db'.sessions ≡ db.sessions) × (db'.oauth_states ≡ db.oauth_states)
unfolding upsert_user with_profile with_user
upsert-sessions p db db' h = ground arith

insert_session-sessions :
    (s : Session) (db db' : Db)
    → insert_session s db ≡ ok (tt, db')
    → (db'.sessions ≡ s ∷ db.sessions)
      × (db'.oauth_states ≡ db.oauth_states)
      × (db'.users ≡ db.users)
unfolding insert_session
insert_session-sessions s db db' h = ground arith

check-ok :
    (p : Db → Bool) {db db' : Db} → check p not_found db ≡ ok (tt, db') → (p db ≡ true) × (db ≡ db')
unfolding check
check-ok p {db} {db'} h = ground arith

abbrev made : String → String → Time → ℕ → Session
made h csrf expires id = record {
  token_hash = h;
  user_id = id;
  csrf_token = csrf;
  expires_at = expires;
}

user_found :
    (id : String) (db : Db) (u : User)
    → user_by_discord_id id db ≡ some u
    → Row u db.users × (u.discord_id ≡ id)
unfolding user_by_discord_id
user_found id db u e =
    let found = find-Row (λ (x : User). str_eq x.discord_id id) db.users u e in
    (found.0, (eq_iff u.discord_id id).0 found.1)

returned : (v u : User) (a b : Db) → pure v a ≡ ok (u, b) → (v ≡ u) × (a ≡ b)
unfolding pure
returned v u a b h = (cc, cc)

-- The last three steps, from the database in which the user has been found active.
finish-IsLoggedIn :
    (p : Profile) (h csrf : String) (expires : Time) (db d2 d3 d4 : Db) (v : User)
    → user_by_discord_id p.discord_id d2 ≡ some v
    → is_active v.status ≡ true
    → (d2.sessions ≡ db.sessions) × (d2.oauth_states ≡ db.oauth_states)
    → insert_session (made h csrf expires v.id) d2 ≡ ok (tt, d3)
    → IsQuiet d3 d4
    → IsLoggedIn p h csrf expires db v d4
finish-IsLoggedIn p h csrf expires db d2 d3 d4 v q on before i last =
    let new = insert_session-sessions (made h csrf expires v.id) d2 d3 i in
    let found = user_found p.discord_id d2 v q in
    record {
      discord_id = found.1;
      is_on = on;
      row = subst (Row v) (sym (last.users ∙ new.2)) found.0;
      sessions = last.sessions ∙ new.0 ∙ ap (λ s. made h csrf expires v.id ∷ s) before.0;
      oauth_states = last.oauth_states ∙ new.1 ∙ before.1;
    }

pub login_discord_atomic-IsLoggedIn :
    (p : Profile) (h csrf : String) (expires : Time) (ip : String) (db : Db) (u : User) (db' : Db)
    → login_discord_atomic p h csrf expires ip db ≡ ok (u, db')
    → IsLoggedIn p h csrf expires db u db'
unfolding login_discord_atomic
login_discord_atomic-IsLoggedIn p h csrf expires ip db u db' e =
    let (_, d1, e1, k1) = >>=-eq-ok (upsert_user p) _ db e in
    let (v, q, k2) = demand-eq-ok (user_by_discord_id p.discord_id) _ d1 k1 in
    let (_, d2, e2, k3) = >>=-eq-ok (check (λ _. is_active v.status) not_found) _ d1 k2 in
    let (_, d3, e3, k4) = >>=-eq-ok (insert_session _) _ d2 k3 in
    let (_, d4, e4, k5) = >>=-eq-ok (insert_audit _) _ d3 k4 in
    let on = check-ok (λ _. is_active v.status) e2 in
    let (same_user, same_db) = returned v u d4 db' k5 in
    let good =
      finish-IsLoggedIn p h csrf expires db d1 d3 d4 v q on.0 (upsert-sessions p db d1 e1)
        (subst (λ d. insert_session (made h csrf expires v.id) d ≡ ok (tt, d3)) (sym on.1) e3)
        (audit-IsQuiet _ d3 d4 e4) in
    subst (λ x. IsLoggedIn p h csrf expires db x db') same_user
      (subst (IsLoggedIn p h csrf expires db v) same_db good)

-- In a valid database the id of a row finds that row.
by_id :
    (db : Db) (u : User)
    → IsValid db
    → Row u db.users
    → find (λ (v : User). v.id == u.id) db.users ≡ some u
by_id db u valid row = elim (Option-cases (find (λ (v : User). v.id == u.id) db.users)) [
  | inl e ↦ absurd (Row-find (λ (v : User). v.id == u.id) row ((==_iff u.id u.id).1 refl) e)
  | inr (v, e) ↦
      let (r, t) = find-Row (λ (x : User). x.id == u.id) db.users v e in
      e
      ∙ ap (λ x. some x)
          (Distinct-Row (λ (x : User). x.id) db.users valid.users.ids r row
            ((==_iff v.id u.id).0 t))
]

login_discord_atomic-IsValid :
    (p : Profile) (h csrf : String) (expires : Time) (ip : String) (db : Db) (u : User) (db' : Db)
    → IsValid db
    → login_discord_atomic p h csrf expires ip db ≡ ok (u, db')
    → IsValid db'
unfolding perform ◌>>=◌
login_discord_atomic-IsValid p h csrf expires ip db u db' v e =
    (call-Keeps (Call.login p h csrf expires ip)).at db tt db'
      (ap (λ r. continue r (λ _. pure tt)) e) v

pub consumed-IsValid :
    (h : String) (now : Time) (db : Db) {b : Bool} (db' : Db)
    → IsValid db
    → consume_oauth_state h now db ≡ ok (b, db')
    → IsValid db'
unfolding perform ◌>>=◌
consumed-IsValid h now db db' v e =
    (call-Keeps (Call.consume_oauth h now)).at db tt db' (ap (λ r. continue r (λ _. pure tt)) e) v

find_first :
    {A : Type 0} (p : A → Bool) (xs ys : List A) (x : A)
    → xs ≡ x ∷ ys
    → p x ≡ true
    → find p xs ≡ some x
unfolding find
find_first p xs ys x e t = ap (find p) e ∙ rw t refl

owner_found :
    (s : Session) (db : Db) (u : User)
    → find (λ (v : User). v.id == s.user_id) db.users ≡ some u
    → session_owner (some s) db ≡ some (u, s.csrf_token)
unfolding session_owner
owner_found s db u e =
    ap
      (λ o. elim o as (λ x. Option (User × String)) [
        | none ↦ none
        | some v ↦ some (v, s.csrf_token)
      ])
      e

session_owner-eq :
    (o : Option Session) (a b : Db) → a.users ≡ b.users → session_owner o a ≡ session_owner o b
unfolding session_owner
session_owner-eq none a b e = refl
session_owner-eq (some s) a b e =
    ap
      (λ us. elim (find (λ (u : User). u.id == s.user_id) us) as (λ x. Option (User × String)) [
        | none ↦ none
        | some u ↦ some (u, s.csrf_token)
      ])
      e

-- The sessions and the users decide what a session's hash finds.
pub session_user-eq :
    (h : String) (now : Time) (a b : Db)
    → a.sessions ≡ b.sessions
    → a.users ≡ b.users
    → session_user h now a ≡ session_user h now b
unfolding session_user
session_user-eq h now a b s u =
    session_owner-eq _ a b u
    ∙ ap (λ o. session_owner o b)
        (ap
            (λ us.
              find
                (λ (s : Session).
                  str_eq s.token_hash h
                  && (stamp_lt now s.expires_at && any (λ (u : User). u.id == s.user_id) us))
                a.sessions)
            u
          ∙ ap
              (find (λ (s : Session).
                str_eq s.token_hash h
                && (stamp_lt now s.expires_at && any (λ (u : User). u.id == s.user_id) b.users)))
              s)

module _ (p : Profile) (h csrf : String) (expires : Time) (ip : String) (db : Db) (u : User)
    (db' : Db) where
  -- After a login that a valid database has committed, the hash of its session finds its user and its
  -- CSRF token for as long as the session has not expired.
  pub login-session_user :
      IsValid db
      → login_discord_atomic p h csrf expires ip db ≡ ok (u, db')
      → (later : Time) → stamp_lt later expires ≡ true
      → session_user h later db' ≡ some (u, csrf)
  unfolding session_user
  login-session_user v e later on =
      let w = login_discord_atomic-IsLoggedIn p h csrf expires ip db u db' e in
      let known = Row-any (λ (x : User). x.id == u.id) w.row ((==_iff u.id u.id).1 refl) in
      let user =
        by_id db' u (login_discord_atomic-IsValid p h csrf expires ip db u db' v e) w.row in
      let new = made h csrf expires u.id in
      let shows =
        &&_join (str_eq h h) _ (eq_refl h) (
          &&_join (stamp_lt later expires) (any (λ (x : User). x.id == u.id) db'.users) on known) in
      ap (λ o. session_owner o db') (find_first _ db'.sessions db.sessions new w.sessions shows)
      ∙ owner_found new db' u user
