-- ===== src/Web/Login/Once.antt =====
-- What a successful `oauthCallback` of app/internal/web/server.go has checked and what it leaves.
use tunnel_service.Prelude.{
  ◌≡◌, refl, ap, sym, subst, ◌∙◌, ◌<◌, String, Bool, true, false, not, Option, none, some, str_eq,
  eq_iff, Row, find, if◌then◌else◌, Bool-cases, inl, inr, &&_parts, List, All,
}
use tunnel_service.Model.{Time, User, OauthState, Result, ok, err}
use tunnel_service.Store.Db.{Db}
use tunnel_service.Store.Tx.{Tx}
use tunnel_service.Store.Calls.{Call, run_all}
use tunnel_service.Store.Watch.{state as state_of, accounts}
use tunnel_service.Store.Kept.{Spares, run_all-Keeps}
use tunnel_service.Store.Auth.{consume_oauth_state, login_discord_atomic, session_user}
use tunnel_service.Store.Stamp.{stamp_lt}
use tunnel_service.Store.Valid.{IsValid}
use tunnel_service.Store.OneTime.{consumed, consumed-Row, consume-gone}
use tunnel_service.Store.LoggedIn.{
  consumed-IsValid, IsLoggedIn, login_discord_atomic-IsLoggedIn, login-session_user,
  session_user-eq,
}
use tunnel_service.Service.World.{
  World, Fault, works, fails_before, fails_after, stored, transact, settle, lose, next_fault,
  rest_of,
}
use tunnel_service.Service.World.Parts.{stored-ok}
use tunnel_service.Web.Session.{Current, of_session, look_up}
use tunnel_service.Web.Login.{
  Callback, Discord, DiscordUser, LoginReply, failed, logged_in, discord_token, discord_user,
  profile_of, session_end, matches, after_login, with_user, with_token, with_state, oauth_callback,
}

module _ (sha : String → String) (hash : String → String) (path_escape : String → String)
    (admins : String → Bool) (discord : Discord) where
  -- The state was the browser's own and was still good, Discord has answered with the account, and
  -- the account's user is active and has the new session; the state is used up.
  pub record IsLogin (q : Callback) (t : String) (w after : World) : Type 0 where
    pub cookie : q.cookie ≡ some q.state
    pub state : OauthState
    pub state_row : Row state w.db.oauth_states
    pub state_hash : state.state_hash ≡ sha q.state
    pub state_good : q.now < state.expires_at
    pub token : String
    pub exchanged : discord_token discord q.code ≡ some token
    pub account : DiscordUser
    pub answered : discord_user discord token ≡ some account
    pub user : User
    pub mid : Db
    pub committed :
        login_discord_atomic
          (profile_of sha hash path_escape admins discord account)
          (hash q.session)
          q.csrf
          (session_end q.now)
          q.source_ip
          mid
        ≡ ok (user, after.db)
    pub session :
        IsLoggedIn
          (profile_of sha hash path_escape admins discord account)
          (hash t)
          q.csrf
          (session_end q.now)
          mid
          user
          after.db
    pub consumed_state : consume_oauth_state (sha q.state) q.now w.db ≡ ok (true, mid)
    pub cookie_set : q.session ≡ t

  abbrev login_of : Callback → DiscordUser → Tx User
  login_of q u =
      login_discord_atomic (profile_of sha hash path_escape admins discord u) (hash q.session)
        q.csrf (session_end q.now) q.source_ip

  abbrev reply_of : Callback → Result Bool × World → LoginReply × World
  reply_of q x = with_state sha hash path_escape admins discord q x

  after_login-ok :
      (session t : String) (x : Result User × World) (w' : World)
      → after_login session x ≡ (logged_in t, w')
      → (u : User) × (x ≡ (ok u, w')) × (session ≡ t)
  after_login-ok session t (ok u, w) w' h = (u, ap (λ y. (ok u, y.1)) h, token_of (ap (λ y. y.0) h))
    where
      token_of : logged_in session ≡ logged_in t → session ≡ t
      token_of e = cc
  after_login-ok session t (err e, w) w' h = cc

  code-ok :
      (q : Callback) (w w' : World) (t : String)
      → (if str_eq q.code ""
          then (failed 400, w)
          else with_token sha hash path_escape admins discord q (discord_token discord q.code) w)
        ≡ (logged_in t, w')
      → with_token sha hash path_escape admins discord q (discord_token discord q.code) w
        ≡ (logged_in t, w')
  code-ok q w w' t h = go (str_eq q.code "") h
    where
      go :
          (b : Bool)
          → (if b
              then (failed 400, w)
              else with_token sha hash path_escape admins discord q
                  (discord_token discord q.code)
                  w)
            ≡ (logged_in t, w')
          → with_token sha hash path_escape admins discord q (discord_token discord q.code) w
            ≡ (logged_in t, w')
      go true k = cc
      go false k = k

  user-IsLogin :
      (q : Callback) (w mid w' : World) (t token : String)
      → (a : q.cookie ≡ some q.state)
      → consume_oauth_state (sha q.state) q.now w.db ≡ ok (true, mid.db)
      → discord_token discord q.code ≡ some token
      → (o : Option DiscordUser) → discord_user discord token ≡ o
      → with_user sha hash path_escape admins discord q o mid ≡ (logged_in t, w')
      → IsLogin q t w w'
  user-IsLogin q w mid w' t token a e x none d h = cc
  user-IsLogin q w mid w' t token a e x (some u) d h =
      let (s, row, same, good) = consumed-Row (sha q.state) q.now w.db mid.db e in
      let (v, ran, shown) = after_login-ok q.session t (stored (login_of q u) mid) w' h in
      let done = stored-ok (login_of q u) mid w' v ran in
      record {
        cookie = a;
        state = s;
        state_row = row;
        state_hash = same;
        state_good = good;
        token = token;
        exchanged = x;
        account = u;
        answered = d;
        user = v;
        mid = mid.db;
        committed = done;
        session =
            subst
              (λ x.
                IsLoggedIn (profile_of sha hash path_escape admins discord u) (hash x) q.csrf
                  (session_end q.now) mid.db v w'.db)
              shown
              (login_discord_atomic-IsLoggedIn _ (hash q.session) q.csrf (session_end q.now)
                q.source_ip mid.db v w'.db done);
        consumed_state = e;
        cookie_set = shown;
      }

  token-IsLogin :
      (q : Callback) (w mid w' : World) (t : String)
      → (a : q.cookie ≡ some q.state)
      → consume_oauth_state (sha q.state) q.now w.db ≡ ok (true, mid.db)
      → (o : Option String) → discord_token discord q.code ≡ o
      → with_token sha hash path_escape admins discord q o mid ≡ (logged_in t, w')
      → IsLogin q t w w'
  token-IsLogin q w mid w' t a e none x h = cc
  token-IsLogin q w mid w' t a e (some token) x h =
      user-IsLogin q w mid w' t token a e x (discord_user discord token) refl h

  state-IsLogin :
      (q : Callback) (w w' : World) (t : String)
      → (a : q.cookie ≡ some q.state) → (x : Result Bool × World)
      → stored (consume_oauth_state (sha q.state) q.now) w ≡ x
      → reply_of q x ≡ (logged_in t, w')
      → IsLogin q t w w'
  state-IsLogin q w w' t a (err e, v) s h = cc
  state-IsLogin q w w' t a (ok false, v) s h = cc
  state-IsLogin q w w' t a (ok true, v) s h =
      token-IsLogin q w v w' t a (stored-ok (consume_oauth_state (sha q.state) q.now) w v true s)
        (discord_token discord q.code) refl (code-ok q v w' t h)

  matches-cookie : (c : Option String) (state : String) → matches c state ≡ true → c ≡ some state
  matches-cookie none state h = cc
  matches-cookie (some c) state h =
      let parts = &&_parts (not (str_eq state "")) (str_eq state c) h in
      ap (λ x. some x) (sym ((eq_iff state c).0 parts.1))

  -- A callback that logs in.
  pub oauth_callback-IsLogin :
      (q : Callback) (w w' : World) (t : String)
      → oauth_callback sha hash path_escape admins discord q w ≡ (logged_in t, w')
      → IsLogin q t w w'
  unfolding oauth_callback
  oauth_callback-IsLogin q w w' t h = elim (Bool-cases (matches q.cookie q.state)) [
    | inl e ↦
        let k = rw e at h in
        state-IsLogin q w w' t (matches-cookie q.cookie q.state e)
          (stored (consume_oauth_state (sha q.state) q.now) w) refl k
    | inr e ↦ let k = rw e at h in cc
  ]

  refused_again :
      (q : Callback) (w : World)
      → find (λ (s : OauthState). str_eq s.state_hash (sha q.state)) w.db.oauth_states ≡ none
      → (f : Fault)
      → (reply_of q (transact f (consume_oauth_state (sha q.state) q.now) (rest_of w))).0
        ≡ failed 400
  refused_again q w gone works =
      ap (λ x. (reply_of q (settle (rest_of w) x)).0) (consume-gone (sha q.state) q.now w.db gone)
  refused_again q w gone fails_before = refl
  refused_again q w gone fails_after =
      ap (λ x. (reply_of q (lose (rest_of w) x)).0) (consume-gone (sha q.state) q.now w.db gone)

  -- After a callback that logs in, and any calls of the store that do not open its state again, every
  -- callback with the same state is refused with status 400, whatever its cookie, code, tokens and
  -- time, and whatever calls of the store fail.
  pub oauth_callback_twice :
      (q : Callback) (w w' : World) (t : String)
      → oauth_callback sha hash path_escape admins discord q w ≡ (logged_in t, w')
      → (calls : List Call) → All (Spares (state_of (sha q.state))) calls
      → (v : World) → v.db ≡ run_all calls w'.db
      → (again : Callback) → again.state ≡ q.state
      → (oauth_callback sha hash path_escape admins discord again v).0 ≡ failed 400
  unfolding oauth_callback stored
  oauth_callback_twice q w w' t h calls spare v after again e =
      let good = oauth_callback-IsLogin q w w' t h in
      let in_mid = consumed (sha q.state) q.now w.db good.mid good.consumed_state in
      let left : find (λ (s : OauthState). str_eq s.state_hash (sha q.state)) w'.db.oauth_states
          ≡ none =
        rw good.session.oauth_states in_mid in
      let kept = run_all-Keeps (state_of (sha q.state)) calls w'.db spare left in
      let gone : find (λ (s : OauthState). str_eq s.state_hash (sha again.state)) v.db.oauth_states
          ≡ none =
        rw (e, after) kept in
      elim (Bool-cases (matches again.cookie again.state)) [
        | inl m ↦ rw m (refused_again again v gone (next_fault v.faults))
        | inr m ↦ rw m refl
      ]

  -- After a callback that logs in, in a valid database, and any calls but logins, logouts, changes of
  -- a status and cleanups of sessions, the cookie that it has set is good at any time before the
  -- session's end, as the text of the column orders times: its hash finds an active user with the
  -- Discord account's id and the callback's CSRF token.
  pub oauth_callback-look_up :
      (q : Callback) (w w' : World) (t : String)
      → IsValid w.db
      → oauth_callback sha hash path_escape admins discord q w ≡ (logged_in t, w')
      → (calls : List Call) → All (Spares (accounts w'.db.sessions w'.db.users)) calls
      → (later : Time) → stamp_lt later (session_end q.now) ≡ true
      → (c : Current) × (look_up (some (hash t)) later (run_all calls w'.db) ≡ some c)
        × (c.csrf ≡ q.csrf)
        × (a : DiscordUser) × (k : String) × (discord_token discord q.code ≡ some k)
        × (discord_user discord k ≡ some a)
        × (c.user.discord_id ≡ a.id)
  unfolding profile_of
  oauth_callback-look_up q w w' t v h calls spare later on =
      let good = oauth_callback-IsLogin q w w' t h in
      let valid = consumed-IsValid (sha q.state) q.now w.db good.mid v good.consumed_state in
      let found =
        login-session_user _ (hash q.session) q.csrf (session_end q.now) q.source_ip good.mid
          good.user w'.db valid good.committed later on in
      let (sessions, users) =
        run_all-Keeps (accounts w'.db.sessions w'.db.users) calls w'.db spare (refl, refl) in
      let c : Current = record { user = good.user; csrf = q.csrf } in
      let seen : look_up (some (hash t)) later (run_all calls w'.db) ≡ some c =
        ap of_session (session_user-eq (hash t) later (run_all calls w'.db) w'.db sessions users)
        ∙ ap (λ x. of_session (session_user (hash x) later w'.db)) (sym good.cookie_set)
        ∙ ap of_session found
        ∙ rw good.session.is_on refl in
      (
        c, seen, refl, good.account, good.token, good.exchanged, good.answered,
        good.session.discord_id,
      )
