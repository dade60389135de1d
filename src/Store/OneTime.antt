-- ===== src/Store/OneTime.antt =====
-- An OAuth state that has been consumed: `ConsumeOAuthState` of app/internal/store/store.go.
use tunnel_service.Prelude.{
  ◌≡◌, ◌<◌, true, ap, Row, eq_iff, refl, String, Bool, false, Option, none, some, List, arith, find,
  delete_where, str_eq, Option-cases, inl, inr, Row-delete_where, find-Row, All,
}
use tunnel_service.Model.{Time, OauthState, ok}
use tunnel_service.Store.Db.{Db}
use tunnel_service.Store.Calls.{Call, run_all}
use tunnel_service.Store.Watch.{state}
use tunnel_service.Store.Kept.{Spares, run_all-Keeps}
use tunnel_service.Store.Auth.{consume_oauth_state, without_state}

find-delete_where : {A : Type 0} (p : A → Bool) (xs : List A) → find p (delete_where p xs) ≡ none
find-delete_where p xs = elim (Option-cases (find p (delete_where p xs))) [
  | inl e ↦ e
  | inr (a, e) ↦
      let (row, on) = find-Row p (delete_where p xs) a e in
      let (old, off) = Row-delete_where p xs row in cc
]

pub consumed :
    (h : String) (now : Time) (db db' : Db) {b : Bool}
    → consume_oauth_state h now db ≡ ok (b, db')
    → find (λ s. str_eq s.state_hash h) db'.oauth_states ≡ none
unfolding consume_oauth_state
consumed h now db db' {b = b} e = go (find (λ s. str_eq s.state_hash h) db.oauth_states) refl e
  where
    go :
        (o : Option OauthState)
        → find (λ s. str_eq s.state_hash h) db.oauth_states ≡ o
        → without_state h now o db ≡ ok (b, db')
        → find (λ s. str_eq s.state_hash h) db'.oauth_states ≡ none
    go none q k = let same : db ≡ db' = cc in rw (← same) q
    go (some s) q k =
        let same : delete_where (λ s. str_eq s.state_hash h) db.oauth_states ≡ db'.oauth_states =
          ground arith in
        rw (← same) (find-delete_where (λ s. str_eq s.state_hash h) db.oauth_states)

-- A state that is consumed while it is good was there and had not expired.
pub consumed-Row :
    (h : String) (now : Time) (db db' : Db)
    → consume_oauth_state h now db ≡ ok (true, db')
    → (s : OauthState) × Row s db.oauth_states × (s.state_hash ≡ h) × (now < s.expires_at)
unfolding consume_oauth_state
consumed-Row h now db db' e = go (find (λ s. str_eq s.state_hash h) db.oauth_states) refl e
  where
    go :
        (o : Option OauthState)
        → find (λ (s : OauthState). str_eq s.state_hash h) db.oauth_states ≡ o
        → without_state h now o db ≡ ok (true, db')
        → (s : OauthState) × Row s db.oauth_states × (s.state_hash ≡ h) × (now < s.expires_at)
    go none q k = cc
    go (some s) q k =
        let found = find-Row (λ (x : OauthState). str_eq x.state_hash h) db.oauth_states s q in
        (s, found.0, (eq_iff s.state_hash h).0 found.1, ground arith)

-- A state whose row is gone stays refused.
pub consume-gone :
    (h : String) (now : Time) (db : Db)
    → find (λ (s : OauthState). str_eq s.state_hash h) db.oauth_states ≡ none
    → consume_oauth_state h now db ≡ ok (false, db)
unfolding consume_oauth_state
consume-gone h now db e = ap (λ o. without_state h now o db) e

-- An OAuth state that has been consumed, whether it was still good or not, is refused at any time
-- after any calls, as long as none of them opens that state again, and its refusal changes nothing.
pub consume_twice :
    (h : String) (now : Time) (db db' : Db) (b : Bool)
    → consume_oauth_state h now db ≡ ok (b, db')
    → (calls : List Call) → All (Spares (state h)) calls
    → (later : Time)
    → consume_oauth_state h later (run_all calls db') ≡ ok (false, run_all calls db')
consume_twice h now db db' b e calls spare later =
    consume-gone h later (run_all calls db')
      (run_all-Keeps (state h) calls db' spare (consumed h now db db' e))
