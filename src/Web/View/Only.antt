-- ===== src/Web/View/Only.antt =====
-- The rows that the queries of app/internal/store/store.go and hardening.go for one user read.
use tunnel_service.Prelude.{
  ℕ, ◌≡◌, refl, ap, ◌∙◌, inl, inr, arith, String, Bool, true, not, ◌&&◌, ◌||◌, some, List, [], ◌∷◌,
  map, ◌==◌, Option, is_negated_id, if◌then◌else◌, false, select, find, any, take, Row, here, there,
  Row-any, Row-select, Bool-cases, is_id,
}
use tunnel_service.Model.{
  User, SshKey, SystemKey, Subdomain, TcpPort, ActiveTunnel, AuditLog, is_disconnected,
}
use tunnel_service.Store.Db.{Db}
use tunnel_service.Store.Listing.{
  Order, TunnelRow, of_actor, joined, tunnel_sync_state, owned_by, page_of, keys_page,
  subdomains_page, tcp_ports_page, keys_by_user, subdomains_by_user, tcp_ports_by_user,
  active_tunnels, active_tunnels_page, tunnel_row, key_name, recent_audit, is_some_id, of_user,
}
use tunnel_service.Service.World.{World}

abbrev pub is_own_key : ℕ → List ActiveTunnel → SshKey → Bool
is_own_key id tunnels k =
    k.user_id == id || any (λ t. t.user_id == id && is_id t.ssh_key_id k.id) tunnels

-- Of another user's key, its id, its owner's id and its name are left.
abbrev pub blanked : ℕ → SshKey → SshKey
blanked id k =
    if k.user_id == id then k else record k { public_key = []; fingerprint = ""; enabled = false }

-- The database without the rows of other users: of the keys, those of the user are left, and of
-- those that a tunnel of the user names the ids and the name.
unfoldable pub only : ℕ → Db → Db
only id db = record db {
  users = select (λ u. u.id == id) db.users;
  sessions = [];
  oauth_states = [];
  ssh_keys = map (blanked id) (select (is_own_key id db.tunnels) db.ssh_keys);
  subdomains = select (λ d. d.user_id == id) db.subdomains;
  tcp_ports = select (λ p. p.user_id == id) db.tcp_ports;
  system_subdomains = [];
  audit_logs = select (λ a. is_some_id id a.actor) db.audit_logs;
  outbox = [];
  tunnels = select (λ t. t.user_id == id) db.tunnels;
  lifecycle_events = [];
  cursors = [];
  security_telemetry = [];
  telemetry_batches = [];
}

abbrev pub hide : ℕ → World → World
hide id w = record w { db = only id w.db }

module _ {ℓ} {A : Type ℓ} where
  select-select :
      (p q : A → Bool) (xs : List A)
      → ((x : A) → p x ≡ true → q x ≡ true)
      → select p (select q xs) ≡ select p xs
  unfolding select
  select-select p q [] k = refl
  select-select p q (x ∷ xs) k =
      let rest = select-select p q xs k in
      let own = k x in
      elim (Bool-cases (p x)) [
        | inl e ↦ rw (own e, e) (ap (λ t. x ∷ t) rest)
        | inr e ↦ elim (Bool-cases (q x)) [ inl f ↦ rw (f, e) rest | inr f ↦ rw (f, e) rest ]
      ]

  find-select :
      (p q : A → Bool) (xs : List A)
      → ((x : A) → p x ≡ true → q x ≡ true)
      → find p (select q xs) ≡ find p xs
  unfolding select find
  find-select p q [] k = refl
  find-select p q (x ∷ xs) k =
      let rest = find-select p q xs k in
      let own = k x in
      elim (Bool-cases (p x)) [
        | inl e ↦ rw (own e, e) refl
        | inr e ↦ elim (Bool-cases (q x)) [ inl f ↦ rw (f, e) rest | inr f ↦ rw (f, e) rest ]
      ]

  map-Row {κ} :
      {B : Type κ} (f g : A → B) (xs : List A)
      → ((x : A) → Row x xs → f x ≡ g x)
      → map f xs ≡ map g xs
  map-Row f g [] k = refl
  map-Row f g (x ∷ xs) k = cc (k x here, map-Row f g xs (λ y r. k y (there r)))

owned_by-cons :
    {A : Type 0} (owner : A → ℕ) (us vs : List User) (x : A) (xs : List A)
    → find (λ u. u.id == owner x) us ≡ find (λ u. u.id == owner x) vs
    → owned_by owner us xs ≡ owned_by owner vs xs
    → owned_by owner us (x ∷ xs) ≡ owned_by owner vs (x ∷ xs)
unfolding owned_by
owned_by-cons owner us vs x xs e h =
    ap (joined x (find _ us)) h ∙ ap (λ u. joined x u (owned_by owner vs xs)) e

-- The rows of one user join to that user.
owned_by-own :
    {A : Type 0} (owner : A → ℕ) (id : ℕ) (users : List User) (xs : List A)
    → owned_by owner (select (λ u. u.id == id) users) (select (λ x. owner x == id) xs)
      ≡ owned_by owner users (select (λ x. owner x == id) xs)
unfolding select owned_by
owned_by-own owner id users [] = refl
owned_by-own owner id users (x ∷ xs) = elim (Bool-cases (owner x == id)) [
  | inr e ↦ rw e (owned_by-own owner id users xs)
  | inl e ↦ rw e (
      owned_by-cons owner (select (λ u. u.id == id) users) users x (select (λ y. owner y == id) xs)
        (find-select (λ (u : User). u.id == owner x) (λ u. u.id == id) users (λ u h. ground arith))
        (owned_by-own owner id users xs))
]

own-blanked :
    (id : ℕ) (ks : List SshKey)
    → select (λ k. k.user_id == id) (map (blanked id) ks) ≡ select (λ k. k.user_id == id) ks
unfolding select
own-blanked id [] = refl
own-blanked id (k ∷ ks) = elim (Bool-cases (k.user_id == id)) [
  | inl e ↦ rw (e, e) (ap (λ t. k ∷ t) (own-blanked id ks))
  | inr e ↦ rw (e, e) (own-blanked id ks)
]

blanked_name :
    (id : ℕ) (p : ℕ → Bool) (o : Option SystemKey) (ks : List SshKey)
    → key_name (find (λ k. p k.id) (map (blanked id) ks)) o ≡ key_name (find (λ k. p k.id) ks) o
unfolding find
blanked_name id p o [] = refl
blanked_name id p o (k ∷ ks) = elim (Bool-cases (k.user_id == id)) [
  | inl e ↦ elim (Bool-cases (p k.id)) [
    | inl f ↦ rw (e, f) refl
    | inr f ↦ rw (e, f) (blanked_name id p o ks)
  ]
  | inr e ↦ elim (Bool-cases (p k.id)) [
    | inl f ↦ rw (e, f) refl
    | inr f ↦ rw (e, f) (blanked_name id p o ks)
  ]
]

pub only-available :
    (id : ℕ) (db : Db)
    → (tunnel_sync_state (only id db)).available ≡ (tunnel_sync_state db).available
unfolding only
only-available id db = refl

pub keys_by_user-only :
    (order : Order (SshKey × String)) (id : ℕ) (db : Db)
    → keys_by_user order id (only id db) ≡ keys_by_user order id db
unfolding keys_page page_of only
keys_by_user-only order id db = ap order (
    ap (owned_by (λ k. k.user_id) (select (λ u. u.id == id) db.users)) (
      own-blanked id (select (is_own_key id db.tunnels) db.ssh_keys)
      ∙ select-select (λ k. k.user_id == id) (is_own_key id db.tunnels) db.ssh_keys
          (λ k h. ground arith))
    ∙ owned_by-own (λ k. k.user_id) id db.users db.ssh_keys)

pub subdomains_by_user-only :
    (order : Order (Subdomain × String)) (id : ℕ) (db : Db)
    → subdomains_by_user order id (only id db) ≡ subdomains_by_user order id db
unfolding subdomains_page page_of only
subdomains_by_user-only order id db = ap order (
    ap (owned_by (λ d. d.user_id) (select (λ u. u.id == id) db.users))
      (select-select (λ d. d.user_id == id) (λ d. d.user_id == id) db.subdomains (λ d h. h))
    ∙ owned_by-own (λ d. d.user_id) id db.users db.subdomains)

pub tcp_ports_by_user-only :
    (order : Order (TcpPort × String)) (id : ℕ) (db : Db)
    → tcp_ports_by_user order id (only id db) ≡ tcp_ports_by_user order id db
unfolding tcp_ports_page page_of only
tcp_ports_by_user-only order id db = ap order (
    ap (owned_by (λ p. p.user_id) (select (λ u. u.id == id) db.users))
      (select-select (λ p. p.user_id == id) (λ p. p.user_id == id) db.tcp_ports (λ p h. h))
    ∙ owned_by-own (λ p. p.user_id) id db.users db.tcp_ports)

pub recent_audit-only :
    (order : Order AuditLog) (id limit : ℕ) (db : Db)
    → recent_audit order (some id) limit (only id db) ≡ recent_audit order (some id) limit db
unfolding recent_audit only
recent_audit-only order id limit db =
    ap (λ xs. take limit (order xs))
      (select-select (of_actor (some id)) (λ a. is_some_id id a.actor) db.audit_logs (λ a h. h))

own_tunnel_row :
    (id : ℕ) (db : Db) (t : ActiveTunnel)
    → Row t db.tunnels
    → (t.user_id == id) ≡ true
    → tunnel_row (only id db) t ≡ tunnel_row db t
unfolding tunnel_row only
own_tunnel_row id db t r e =
    let named =
      blanked_name id (is_id t.ssh_key_id)
        (find (λ k. is_negated_id t.ssh_key_id k.id && t.user_id == 0) db.system_keys)
        (select (is_own_key id db.tunnels) db.ssh_keys) in
    rw
      (
        named,
        find-select (λ (u : User). u.id == t.user_id) (λ u. u.id == id) db.users
            (λ u h. ground arith),
        find-select (λ (k : SshKey). is_id t.ssh_key_id k.id) (is_own_key id db.tunnels) db.ssh_keys
            (λ k h.
              let named =
                Row-any (λ (x : ActiveTunnel). x.user_id == id && is_id x.ssh_key_id k.id) r
                  (ground arith) in
              ground arith),
      )
      refl

pub active_tunnels-only :
    (order : Order TunnelRow) (id : ℕ) (db : Db)
    → active_tunnels order (some id) (only id db) ≡ active_tunnels order (some id) db
unfolding active_tunnels_page page_of only
active_tunnels-only order id db = ap order (
    ap (map (tunnel_row (only id db)))
      (select-select own (λ t. t.user_id == id) db.tunnels (λ t h. ground arith))
    ∙ map-Row (tunnel_row (only id db)) (tunnel_row db) (select own db.tunnels) (λ t r.
      let (row, mine) = Row-select own db.tunnels r in own_tunnel_row id db t row (ground arith)))
  where
    own : ActiveTunnel → Bool
    own t = not (is_disconnected t.status) && of_user (some id) t
