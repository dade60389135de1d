-- ===== src/Startup/Prepared.antt =====
-- What the calls of the store and the file system leave in `main` of app/cmd/control-plane/main.go.
use tunnel_service.Prelude.{
  ◌/◌, ◌≡◌, refl, sym, ap, ◌∙◌, Text, String, Bool, true, false, not, List, All, All-intro, any,
  Row-delete_where, delete_where,
}
use tunnel_service.Model.{Time, Result, ok, err, SshKey, SystemKey, Session, OauthState}
use tunnel_service.Store.Db.{Db}
use tunnel_service.Store.Tx.{modify}
use tunnel_service.Store.Stamp.{stamp_lt}
use tunnel_service.Store.Keys.{authorized_keys}
use tunnel_service.Store.Auth.{cleanup_auth}
use tunnel_service.Store.Users.{ensure_system_resources}
use tunnel_service.Store.Authorized.{IsSystemUsable}
use tunnel_service.Store.Registered.{IsSystemKey, ensure_system_resources-IsSystemUsable}
use tunnel_service.Service.World.{World, KeyFile, Io, attempt, reify, fail, lift, stored}
use tunnel_service.Service.World.Parts.{>>=-parts, stored-ok, stored-files}
use tunnel_service.Service.Keys.{reconcile}
use tunnel_service.Service.KeyFiles.{is_file, is_wanted}
use tunnel_service.Service.Reconciled.{reconcile_exact}
use tunnel_service.Config.{Config}
use tunnel_service.Sish.{SishClient}
use tunnel_service.Web.Internal.{second}
use tunnel_service.Startup.{
  Started, Failure, serving, drop_sessions, drop_states, cleanup_auth_io, drop_metrics,
  drop_batches, cleanup_telemetry_io, or_exit, system_key_name, both, both_run,
}

-- A step that does not exit has returned no error.
pub or_exit-parts :
    {A : Type 0} (f : Failure) (r : Result A × World) (next : World → Started × World)
    (cfg : Config) (c : SishClient) (w' : World)
    → or_exit f r next ≡ (serving cfg c, w')
    → (a : A) × (w : World) × (r ≡ (ok a, w)) × (next w ≡ (serving cfg c, w'))
or_exit-parts f (ok a, w) next cfg c w' h = (a, w, refl, h)
or_exit-parts f (err e, w) next cfg c w' h = cc

attempt-parts :
    {A : Type 0} (m : Io A) (w : World) (r : Result A) (w' : World)
    → attempt m w ≡ (ok r, w')
    → m w ≡ (r, w')
unfolding attempt
attempt-parts m w r w' h = go (m w) h
  where
    go : {A : Type 0} {r : Result A} (p : Result A × World) → reify p ≡ (ok r, w') → p ≡ (r, w')
    go (s, v) e = cc

both-parts :
    (r s : Result (Unit {0})) (w w' : World)
    → both r s w ≡ (ok tt, w')
    → (r ≡ ok tt) × (s ≡ ok tt) × (w ≡ w')
unfolding fail lift
both-parts (ok u) (ok v) w w' h = (refl, refl, cc)
both-parts (ok u) (err e) w w' h = cc
both-parts (err e) s w w' h = cc

modify-ok :
    (f : Db → Db) (w w' : World)
    → stored (modify f) w ≡ (ok tt, w')
    → (w'.db ≡ f w.db) × (w'.files ≡ w.files)
unfolding modify
modify-ok f w w' h =
    let ran : ◌≡◌ {A = Result (Unit {0} × Db)} (ok (tt, f w.db)) (ok (tt, w'.db)) =
      stored-ok (modify f) w w' tt h in
    (db_of ran, stored-files (modify f) w w' tt h)
  where
    db_of : {a b : Db} → ◌≡◌ {A = Result (Unit {0} × Db)} (ok (tt, a)) (ok (tt, b)) → b ≡ a
    db_of e = cc

both_run-ok :
    (f g : Db → Db) (w w' : World)
    → both_run f g w ≡ (ok tt, w')
    → (w'.db ≡ g (f w.db)) × (w'.files ≡ w.files)
unfolding both_run
both_run-ok f g w w' h =
    let (r, w1, p1, q1) = >>=-parts (attempt (stored (modify f))) _ w h in
    let (s, w2, p2, q2) = >>=-parts (attempt (stored (modify g))) _ w1 q1 in
    let (good_r, good_s, same) = both-parts r s w2 w' q2 in
    let (db1, files1) = modify-ok f w w1 (attempt-parts _ w r w1 p1 ∙ ap (λ x. (x, w1)) good_r) in
    let (db2, files2) = modify-ok g w1 w2 (attempt-parts _ w1 s w2 p2 ∙ ap (λ x. (x, w2)) good_s) in
    (ap (λ x. x.db) (sym same) ∙ db2 ∙ ap g db1, ap (λ x. x.files) (sym same) ∙ files2 ∙ files1)

-- The system key owns the label, the key files are those of the authorized keys, and no session and
-- no OAuth state has expired.
pub record IsPrepared (now : Time) (label key : Text) (fp : String) (db : Db) (files : List KeyFile)
    : Type 0 where
  pub system_key : SystemKey
  pub system_usable : IsSystemUsable db label system_key
  pub system_same : IsSystemKey key fp system_key
  pub files_wanted : All (λ g. is_wanted (authorized_keys db) g ≡ true) files
  pub files_present :
      All (λ (k : SshKey). any (is_file k.user_id k.id) files ≡ true) (authorized_keys db)
  pub sessions_good : All (λ (s : Session). stamp_lt now s.expires_at ≡ true) db.sessions
  pub states_good : All (λ (s : OauthState). stamp_lt now s.expires_at ≡ true) db.oauth_states

deleted_good :
    {A : Type 0} (now : Time) (expires : A → Time) (xs : List A)
    → All
        (λ s. stamp_lt now (expires s) ≡ true)
        (delete_where (λ s. not (stamp_lt now (expires s))) xs)
deleted_good now expires xs =
    All-intro _ (delete_where (λ s. not (stamp_lt now (expires s))) xs) λ a r.
      unnegate (stamp_lt now (expires a))
        (Row-delete_where (λ s. not (stamp_lt now (expires s))) xs r).1
  where
    unnegate : (b : Bool) → not b ≡ false → b ≡ true
    unnegate true e = refl
    unnegate false e = sym e

-- The database after the two cleanups.
abbrev cleaned : Time → Db → Db
cleaned now db =
    drop_batches (now / second)
      (drop_metrics (now / second) (drop_states now (drop_sessions now db)))

-- The cleanups keep what the registration and the reconciliation have left.
cleaned-IsPrepared :
    (now : Time) (label key : Text) (fp : String) (db : Db) (files : List KeyFile) (k : SystemKey)
    → IsSystemUsable db label k
    → IsSystemKey key fp k
    → All (λ g. is_wanted (authorized_keys db) g ≡ true) files
    → All (λ (x : SshKey). any (is_file x.user_id x.id) files ≡ true) (authorized_keys db)
    → IsPrepared now label key fp (cleaned now db) files
unfolding cleanup_auth authorized_keys
cleaned-IsPrepared now label key fp db files k usable same wanted present = record {
  system_key = k;
  system_usable = record {
    row = usable.row;
    enabled = usable.enabled;
    owned = usable.owned;
    owned_row = usable.owned_row;
    owner = usable.owner;
    names = usable.names;
  };
  system_same = same;
  files_wanted = wanted;
  files_present = present;
  sessions_good = deleted_good now (λ s. s.expires_at) db.sessions;
  states_good = deleted_good now (λ s. s.expires_at) db.oauth_states;
}

-- The calls of `prepare`, one after the other.
pub in_order :
    (now : Time) (label key : Text) (fp : String) (w w1 w2 w3 w4 : World)
    → stored (ensure_system_resources system_key_name key fp label) w ≡ (ok tt, w1)
    → reconcile w1 ≡ (ok tt, w2)
    → cleanup_auth_io now w2 ≡ (ok tt, w3)
    → cleanup_telemetry_io now w3 ≡ (ok tt, w4)
    → IsPrepared now label key fp w4.db w4.files
unfolding cleanup_auth_io cleanup_telemetry_io
in_order now label key fp w w1 w2 w3 w4 p1 p2 p3 p4 =
    let (k, usable, same) =
      ensure_system_resources-IsSystemUsable system_key_name key fp label w.db w1.db
        (stored-ok _ w w1 tt p1) in
    let (db2, wanted, present) = reconcile_exact w1 w2 p2 in
    let (db3, files3) = both_run-ok (drop_sessions now) (drop_states now) w2 w3 p3 in
    let (db4, files4) =
      both_run-ok (drop_metrics (now / second)) (drop_batches (now / second)) w3 w4 p4 in
    let all : w4.db ≡ cleaned now w1.db =
      db4
      ∙ ap (λ d. drop_batches (now / second) (drop_metrics (now / second) d)) db3
      ∙ ap (cleaned now) db2 in
    rw (all, files4, files3)
      (cleaned-IsPrepared now label key fp w1.db w2.files k usable same wanted present)
