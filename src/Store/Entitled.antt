-- ===== src/Store/Entitled.antt =====
-- Who may bind what, said of the rows and not of the queries: `authorize_bind` and the count of
-- `apply_connect` decide it.
use tunnel_service.Prelude.{
  ℕ, ◌≤◌, ◌<◌, ◌≡◌, refl, sym, ◌∙◌, inl, inr, String, Text, true, ◌&&◌, [], Row, any, count, some,
  arith, ◌==◌, ==_iff, eq_iff, &&_parts, &&_join, any-Row, Row-any, find-Row, count-Row,
  find-Distinct, count-Distinct, lower_text, Bool-cases, text_eq_iff,
}
use tunnel_service.Model.{
  User, SshKey, Subdomain, TcpPort, Protocol, http, https, tls, tcp, unknown, active, is_active,
  public_tcp_port_min, public_tcp_port_max,
}
use tunnel_service.Store.Db.{Db}
use tunnel_service.Store.Reservations.{same_label, in_port_range}
use tunnel_service.Store.Bind.{enabled_key, reserved}
use tunnel_service.Store.Valid.{IsValid, in_port_range_bounds}

-- An enabled key of an active user.
pub record IsUsable (db : Db) (k : SshKey) : Type 0 where
  pub row : Row k db.ssh_keys
  pub enabled : k.enabled ≡ true
  pub owner : User
  pub owner_row : Row owner db.users
  pub owner_id : owner.id ≡ k.user_id
  pub owner_active : owner.status ≡ active

-- The user has reserved the label (in any case), or the port, that the protocol asks for.
abbrev pub Reserves : Db → ℕ → Protocol → Text → ℕ → Type 0
Reserves db uid tcp label port =
    (p : TcpPort) × Row p db.tcp_ports
    × (p.user_id ≡ uid)
    × (p.port ≡ port)
    × (public_tcp_port_min ≤ port)
    × (port ≤ public_tcp_port_max)
Reserves db uid unknown label port = ⊥
Reserves db uid _ label port =
    (d : Subdomain) × Row d db.subdomains
    × (d.user_id ≡ uid)
    × (lower_text d.name ≡ lower_text label)

pub owner_parts :
    (u : User) (uid : ℕ)
    → (u.id == uid && is_active u.status) ≡ true
    → (u.id ≡ uid) × (u.status ≡ active)
owner_parts u uid h = ground arith

pub owner_test :
    (u : User) (uid : ℕ)
    → u.id ≡ uid
    → u.status ≡ active
    → (u.id == uid && is_active u.status) ≡ true
owner_test u uid h k = ground arith

usable_test :
    (db : Db) (k : SshKey)
    → IsUsable db k
    → (k.enabled && any (λ u. u.id == k.user_id && is_active u.status) db.users) ≡ true
usable_test db k u =
    &&_join _ _ u.enabled
      (Row-any _ u.owner_row (owner_test u.owner k.user_id u.owner_id u.owner_active))

-- The key that the query finds is usable and has the fingerprint.
pub enabled_key-IsUsable :
    (fp : String) (db : Db) (k : SshKey)
    → enabled_key fp db ≡ some k
    → IsUsable db k × (k.fingerprint ≡ fp)
unfolding enabled_key
enabled_key-IsUsable fp db k h =
    let (row, test) = find-Row _ db.ssh_keys k h in
    let (same, rest) = &&_parts _ _ test in
    let (on, owned) = &&_parts _ _ rest in
    let (u, r, t) = any-Row _ db.users owned in
    (
      record {
        row = row;
        enabled = on;
        owner = u;
        owner_row = r;
        owner_id = (owner_parts u k.user_id t).0;
        owner_active = (owner_parts u k.user_id t).1;
      },
      (eq_iff k.fingerprint fp).0 same,
    )

-- In a valid database the query finds every usable key.
pub IsUsable-enabled_key :
    (db : Db) (k : SshKey) → IsValid db → IsUsable db k → enabled_key k.fingerprint db ≡ some k
unfolding enabled_key
IsUsable-enabled_key db k v u =
    find-Distinct (λ (k : SshKey). k.fingerprint) _
      (λ x y p q. (eq_iff _ _).0 (&&_parts _ _ p).0 ∙ sym ((eq_iff _ _).0 (&&_parts _ _ q).0))
      db.ssh_keys v.keys.fingerprints u.row
      (&&_join _ _ ((eq_iff k.fingerprint k.fingerprint).1 refl) (usable_test db k u))

module _ (db : Db) (uid : ℕ) (label : Text) where
  label_parts :
      (d : Subdomain)
      → (d.user_id == uid && same_label d.name label) ≡ true
      → (d.user_id ≡ uid) × (lower_text d.name ≡ lower_text label)
  unfolding same_label
  label_parts d h =
      let (owns, same) = &&_parts _ _ h in
      ((==_iff d.user_id uid).0 owns, (text_eq_iff (lower_text d.name) (lower_text label)).0 same)

  label_join :
      (d : Subdomain)
      → d.user_id ≡ uid
      → lower_text d.name ≡ lower_text label
      → (d.user_id == uid && same_label d.name label) ≡ true
  unfolding same_label
  label_join d h k =
      &&_join _ _ ((==_iff d.user_id uid).1 h)
        ((text_eq_iff (lower_text d.name) (lower_text label)).1 k)

  pub count-label :
      0 < count (λ d. d.user_id == uid && same_label d.name label) db.subdomains
      → Reserves db uid http label 0
  count-label h =
      let (d, row, test) = count-Row _ db.subdomains h in
      (d, row, (label_parts d test).0, (label_parts d test).1)

  pub label-count :
      IsValid db
      → Reserves db uid http label 0
      → count (λ d. d.user_id == uid && same_label d.name label) db.subdomains ≡ 1
  label-count v (d, row, owns, same) =
      count-Distinct (λ (d : Subdomain). lower_text d.name) _
        (λ x y p q. (label_parts x p).1 ∙ sym (label_parts y q).1) db.subdomains v.subdomains.names
        row (label_join d owns same)

module _ (db : Db) (uid port : ℕ) where
  port_parts :
      (p : TcpPort)
      → (p.user_id == uid && p.port == port) ≡ true
      → (p.user_id ≡ uid) × (p.port ≡ port)
  port_parts p h = ground arith

  pub count-port :
      in_port_range port ≡ true
      → 0 < count (λ p. p.user_id == uid && p.port == port) db.tcp_ports
      → Reserves db uid tcp [] port
  count-port range h =
      let (p, row, test) = count-Row _ db.tcp_ports h in
      let bounds = in_port_range_bounds port range in
      (p, row, (port_parts p test).0, (port_parts p test).1, bounds.0, bounds.1)

  pub port-count :
      IsValid db
      → Reserves db uid tcp [] port
      → count (λ p. p.user_id == uid && p.port == port) db.tcp_ports ≡ 1
  port-count v (p, row, owns, same, _, _) =
      count-Distinct (λ (p : TcpPort). p.port) _
        (λ x y p q. (port_parts x p).1 ∙ sym (port_parts y q).1) db.tcp_ports v.ports.ports row
        (ground arith)

pub in_range :
    (port : ℕ) → public_tcp_port_min ≤ port → port ≤ public_tcp_port_max → in_port_range port ≡ true
in_range port lo hi = ground arith

pub reserved_sound :
    (db : Db) (uid : ℕ) (label : Text) (protocol : Protocol) (port : ℕ)
    → reserved uid label protocol port db ≡ 1
    → Reserves db uid protocol label port
unfolding reserved
reserved_sound db uid label tcp port h = elim (Bool-cases (in_port_range port)) [
  | inl range ↦ count-port db uid port range (let h' = rw range at h in omega arith)
  | inr off ↦ absurd (let h' = rw off at h in omega arith)
]
reserved_sound db uid label unknown port h = absurd (omega arith)
reserved_sound db uid label http port h = count-label db uid label (omega arith)
reserved_sound db uid label https port h = count-label db uid label (omega arith)
reserved_sound db uid label tls port h = count-label db uid label (omega arith)

pub reserved_complete :
    (db : Db) (uid : ℕ) (label : Text) (protocol : Protocol) (port : ℕ)
    → IsValid db
    → Reserves db uid protocol label port
    → reserved uid label protocol port db ≡ 1
unfolding reserved
reserved_complete db uid label tcp port v r =
    rw (in_range port r.4 r.5) (port-count db uid port v r)
reserved_complete db uid label unknown port v r = elim r [ ]
reserved_complete db uid label http port v r = label-count db uid label v r
reserved_complete db uid label https port v r = label-count db uid label v r
reserved_complete db uid label tls port v r = label-count db uid label v r
