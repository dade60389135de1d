-- ===== src/Store/Watch.antt =====
-- What a run of calls can be asked to keep: that an OAuth state is gone, that a batch of telemetry is
-- counted, that a cursor has passed a sequence, and the rows of sessions and users.
use tunnel_service.Prelude.{
  ◌∙◌, ℕ, ◌≤◌, ◌+◌, ◌-◌, ◌≡◌, refl, sym, subst, true, false, not, String, arith, Bool, List, [],
  ◌∷◌, any, find, none, Option, some, leb, ltb, str_eq, ◌&&◌, delete_where,
}
use tunnel_service.Model.{User, Session, Time, OauthState, TelemetryBatch, ok}
use tunnel_service.Store.Db.{Db}
use tunnel_service.Store.Rules.{Ensures}
use tunnel_service.Store.Stamp.{stamp_lt}
use tunnel_service.Store.Auth.{create_oauth_state, consume_oauth_state, without_state, cleanup_auth}
use tunnel_service.Store.Tunnels.{move_cursor}
use tunnel_service.Store.Telemetry.{retention, record_batch, cleanup_telemetry}
use tunnel_service.Store.Cursors.{Passed, move_cursor-keeps-Passed}

-- What is watched: the state with a digest; the batch with an id, received at a time or later; the
-- cursor of a tunnel at a sequence of a source or past it; the rows of sessions and users.
pub data Watch : Type 0 where
  state : String → Watch
  batch : String → ℕ → Watch
  cursor : String → String → ℕ → Watch
  accounts : List Session → List User → Watch

abbrev pub is_since : String → ℕ → TelemetryBatch → Bool
is_since event at b = str_eq b.event_id event && leb at b.received_at

abbrev pub Holds : Watch → Db → Type 0
Holds (state h) db = find (λ (s : OauthState). str_eq s.state_hash h) db.oauth_states ≡ none
Holds (batch event at) db = any (is_since event at) db.telemetry_batches ≡ true
Holds (cursor id source n) db = Passed id source n db
Holds (accounts ss us) db = (db.sessions ≡ ss) × (db.users ≡ us)

abbrev pub Keeps : Watch → Db → Db → Type 0
Keeps w a b = Holds w a → Holds w b

-- The state is not opened again.
abbrev pub Unopened : Watch → String → Type 0
Unopened (state h) g = str_eq g h ≡ false
Unopened _ g = Unit

-- A cleanup is within the retention of the batch.
abbrev pub InTime : Watch → ℕ → Type 0
InTime (batch event at) now = now ≤ at + retention
InTime _ now = Unit

abbrev pub FromSource : Watch → String → Type 0
FromSource (cursor id source n) s = s ≡ source
FromSource _ s = Unit

abbrev pub NoCursor : Watch → Type 0
NoCursor (cursor id source n) = ⊥
NoCursor _ = Unit

abbrev pub NoAccounts : Watch → Type 0
NoAccounts (accounts ss us) = ⊥
NoAccounts _ = Unit

Passed-same :
    (id source : String) (n : ℕ) (a b : Db)
    → b.cursors ≡ a.cursors
    → Passed id source n a
    → Passed id source n b
Passed-same id source n a b r k = record { there = rw r k.there; past = rw r k.past }

pub Keeps-same :
    (w : Watch) (a b : Db)
    → b.oauth_states ≡ a.oauth_states
    → b.telemetry_batches ≡ a.telemetry_batches
    → b.cursors ≡ a.cursors
    → b.sessions ≡ a.sessions
    → b.users ≡ a.users
    → Keeps w a b
Keeps-same (state h) a b p q r t u k =
    subst (λ xs. find (λ (s : OauthState). str_eq s.state_hash h) xs ≡ none) (sym p) k
Keeps-same (batch event at) a b p q r t u k =
    subst (λ xs. any (is_since event at) xs ≡ true) (sym q) k
Keeps-same (cursor id source n) a b p q r t u k = Passed-same id source n a b r k
Keeps-same (accounts ss us) a b p q r t u k = (t ∙ k.0, u ∙ k.1)

-- What snapshots change is not watched but by cursors.
pub Keeps-but_cursors :
    (w : Watch) (a b : Db)
    → NoCursor w
    → b.oauth_states ≡ a.oauth_states
    → b.telemetry_batches ≡ a.telemetry_batches
    → b.sessions ≡ a.sessions
    → b.users ≡ a.users
    → Keeps w a b
Keeps-but_cursors (state h) a b f p q t u k =
    subst (λ xs. find (λ (s : OauthState). str_eq s.state_hash h) xs ≡ none) (sym p) k
Keeps-but_cursors (batch event at) a b f p q t u k =
    subst (λ xs. any (is_since event at) xs ≡ true) (sym q) k
Keeps-but_cursors (accounts ss us) a b f p q t u k = (t ∙ k.0, u ∙ k.1)
Keeps-but_cursors (cursor id source n) a b f p q t u k = elim f [ ]

-- What logins and suspensions change is not watched but by accounts.
pub Keeps-but_accounts :
    (w : Watch) (a b : Db)
    → NoAccounts w
    → b.oauth_states ≡ a.oauth_states
    → b.telemetry_batches ≡ a.telemetry_batches
    → b.cursors ≡ a.cursors
    → Keeps w a b
Keeps-but_accounts (state h) a b f p q r k =
    subst (λ xs. find (λ (s : OauthState). str_eq s.state_hash h) xs ≡ none) (sym p) k
Keeps-but_accounts (batch event at) a b f p q r k =
    subst (λ xs. any (is_since event at) xs ≡ true) (sym q) k
Keeps-but_accounts (cursor id source n) a b f p q r k = Passed-same id source n a b r k
Keeps-but_accounts (accounts ss us) a b f p q r k = elim f [ ]

find-delete_where :
    {A : Type 0} (p q : A → Bool) (xs : List A)
    → find p xs ≡ none
    → find p (delete_where q xs) ≡ none
unfolding find delete_where
find-delete_where p q [] h = refl
find-delete_where p q (x ∷ xs) h = ground (arith, find-delete_where p q xs)

any-delete_where :
    {A : Type 0} (p q : A → Bool) (xs : List A)
    → ((x : A) → p x ≡ true → q x ≡ false)
    → any p xs ≡ true
    → any p (delete_where q xs) ≡ true
unfolding any delete_where
any-delete_where p q [] k h = h
any-delete_where p q (x ∷ xs) k h = ground (arith, k x, any-delete_where p q xs k)

pub create_oauth_state-Keeps :
    (w : Watch) (h : String) (exp : Time)
    → Unopened w h
    → Ensures (Keeps w) (create_oauth_state h exp)
unfolding create_oauth_state find
create_oauth_state-Keeps (state g) h exp u = record { at = λ db x db' e k. ground arith }
create_oauth_state-Keeps (batch event at) h exp u = record { at = λ db x db' e k. ground arith }
create_oauth_state-Keeps (cursor id source n) h exp u = record {
  at = λ db x db' e k. Passed-same id source n db db' (ground arith) k;
}
create_oauth_state-Keeps (accounts ss us) h exp u = record { at = λ db x db' e k. ground arith }

pub consume_oauth_state-Keeps :
    (w : Watch) (h : String) (now : Time) → Ensures (Keeps w) (consume_oauth_state h now)
unfolding consume_oauth_state
consume_oauth_state-Keeps (state g) h now = record {
  at = λ db x db' e k.
      go db (find (λ (s : OauthState). str_eq s.state_hash h) db.oauth_states) x db' e k;
}
  where
    go :
        (db : Db) (o : Option OauthState) (x : Bool) (db' : Db)
        → without_state h now o db ≡ ok (x, db')
        → Holds (state g) db
        → Holds (state g) db'
    go db none x db' e k = let same : db ≡ db' = cc in subst (Holds (state g)) same k
    go db (some s) x db' e k =
        let left : delete_where (λ (s : OauthState). str_eq s.state_hash h) db.oauth_states
            ≡ db'.oauth_states =
          ground arith in
        subst (λ xs. find (λ (s : OauthState). str_eq s.state_hash g) xs ≡ none) left
          (find-delete_where (λ s. str_eq s.state_hash g) (λ s. str_eq s.state_hash h)
            db.oauth_states k)
consume_oauth_state-Keeps (batch event at) h now = record { at = λ db x db' e k. ground arith }
consume_oauth_state-Keeps (cursor id source n) h now = record {
  at = λ db x db' e k. Passed-same id source n db db' (ground arith) k;
}
consume_oauth_state-Keeps (accounts ss us) h now = record { at = λ db x db' e k. ground arith }

pub cleanup_auth-Keeps :
    (w : Watch) (now : Time) (db : Db) → NoAccounts w → Keeps w db (cleanup_auth now db)
unfolding cleanup_auth
cleanup_auth-Keeps (state h) now db f k =
    find-delete_where (λ s. str_eq s.state_hash h) (λ s. not (stamp_lt now s.expires_at))
      db.oauth_states k
cleanup_auth-Keeps (batch event at) now db f k = k
cleanup_auth-Keeps (cursor id source n) now db f k =
    Passed-same id source n db (cleanup_auth now db) refl k
cleanup_auth-Keeps (accounts ss us) now db f k = elim f [ ]

pub cleanup_telemetry-Keeps :
    (w : Watch) (now : ℕ) (db : Db) → InTime w now → Keeps w db (cleanup_telemetry now db)
unfolding cleanup_telemetry
cleanup_telemetry-Keeps (state h) now db i k = k
cleanup_telemetry-Keeps (batch event at) now db i k =
    any-delete_where (is_since event at) (λ b. ltb b.received_at (now - retention))
      db.telemetry_batches (λ b s. ground arith) k
cleanup_telemetry-Keeps (cursor id source n) now db i k =
    Passed-same id source n db (cleanup_telemetry now db) refl k
cleanup_telemetry-Keeps (accounts ss us) now db i k = k

pub record_batch-Keeps : (w : Watch) (e : String) (now : ℕ) → Ensures (Keeps w) (record_batch e now)
unfolding record_batch any
record_batch-Keeps (state h) e now = record { at = λ db x db' r k. ground arith }
record_batch-Keeps (batch event at) e now = record { at = λ db x db' r k. ground arith }
record_batch-Keeps (cursor id source n) e now = record {
  at = λ db x db' r k. Passed-same id source n db db' (ground arith) k;
}
record_batch-Keeps (accounts ss us) e now = record { at = λ db x db' r k. ground arith }

pub move_cursor-Keeps :
    (w : Watch) (t s : String) (n : ℕ) (gone : Bool)
    → FromSource w s
    → Ensures (Keeps w) (move_cursor t s n gone)
unfolding move_cursor
move_cursor-Keeps (state h) t s n gone f = record { at = λ db x db' r k. ground arith }
move_cursor-Keeps (batch event at) t s n gone f = record { at = λ db x db' r k. ground arith }
move_cursor-Keeps (cursor id source m) t s n gone f = record {
  at = λ db x db' r k. move_cursor-keeps-Passed id source t m n gone db db' (rw f at r) k;
}
move_cursor-Keeps (accounts ss us) t s n gone f = record { at = λ db x db' r k. ground arith }
