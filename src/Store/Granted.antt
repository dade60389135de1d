-- ===== src/Store/Granted.antt =====
-- What `ApplyTunnelConnect` and `ReconcileActiveSnapshot` of app/internal/store/hardening.go ask of
-- a tunnel: the count of a three-way join is 1 exactly where the entitlement holds.
use tunnel_service.Prelude.{
  ℕ, ◌<◌, ◌≡◌, refl, sym, subst, ◌∙◌, ap, ◌↔◌, Text, true, false, ◌&&◌, count, sum_where, arith,
  ◌==◌, ==_iff, &&_parts, &&_join, pos, is_id, sum_where-Row, sum_where-Distinct,
}
use tunnel_service.Model.{
  User, SshKey, ActiveTunnel, Protocol, http, https, tls, tcp, unknown, is_active, is_web, is_tcp,
}
use tunnel_service.Store.Db.{Db}
use tunnel_service.Store.Reservations.{same_label, in_port_range}
use tunnel_service.Store.Bind.{web_grants, tcp_grants, grants, is_granted, is_system}
use tunnel_service.Store.Valid.{IsValid}
use tunnel_service.Store.Entitled.{
  IsUsable, Reserves, owner_parts, owner_test, count-label, label-count, count-port, port-count,
  in_range,
}

-- The tunnel's key is usable and belongs to the tunnel's user.
abbrev pub Holds : Db → ActiveTunnel → Type 0
Holds db t = (k : SshKey) × IsUsable db k × (t.ssh_key_id ≡ pos k.id) × (k.user_id ≡ t.user_id)

key_parts :
    (t : ActiveTunnel) (k : SshKey)
    → (is_id t.ssh_key_id k.id && (k.user_id == t.user_id && k.enabled)) ≡ true
    → (t.ssh_key_id ≡ pos k.id) × (k.user_id ≡ t.user_id) × (k.enabled ≡ true)
key_parts t k h = ground arith

key_test :
    (t : ActiveTunnel) (k : SshKey)
    → t.ssh_key_id ≡ pos k.id
    → k.user_id ≡ t.user_id
    → k.enabled ≡ true
    → (is_id t.ssh_key_id k.id && (k.user_id == t.user_id && k.enabled)) ≡ true
key_test t k e o h = ground arith

same_id :
    (t : ActiveTunnel) (x y : SshKey)
    → (is_id t.ssh_key_id x.id && (x.user_id == t.user_id && x.enabled)) ≡ true
    → (is_id t.ssh_key_id y.id && (y.user_id == t.user_id && y.enabled)) ≡ true
    → x.id ≡ y.id
same_id t x y p q = ground arith

-- A join over keys and users that counts reservations of a user.
module _ (db : Db) (t : ActiveTunnel) (owned : ℕ → ℕ) where
  join : ℕ
  join =
      sum_where (λ k. is_id t.ssh_key_id k.id && (k.user_id == t.user_id && k.enabled))
        (λ k. sum_where (λ u. u.id == k.user_id && is_active u.status) (λ u. owned u.id) db.users)
        db.ssh_keys

  join_sound : 0 < join → Holds db t × (0 < owned t.user_id)
  unfolding join
  join_sound h =
      let (k, row, test, more) = sum_where-Row _ _ db.ssh_keys h in
      let (u, r, own, rest) = sum_where-Row _ _ db.users more in
      let (is, of, on) = key_parts t k test in
      let (uid, up) = owner_parts u k.user_id own in
      (
        (
          k,
          record {
            row = row;
            enabled = on;
            owner = u;
            owner_row = r;
            owner_id = uid;
            owner_active = up;
          },
          is,
          of,
        ),
        subst (λ n. 0 < owned n) (uid ∙ of) rest,
      )

  join_complete : IsValid db → Holds db t → join ≡ owned t.user_id
  unfolding join
  join_complete v (k, usable, is, of) =
      sum_where-Distinct (λ (k : SshKey). k.id) _ (same_id t) _ db.ssh_keys v.keys.ids usable.row
        (key_test t k is of usable.enabled)
      ∙ sum_where-Distinct (λ (u : User). u.id) _
          (λ x y p q. (owner_parts x k.user_id p).0 ∙ sym (owner_parts y k.user_id q).0) _ db.users
          v.users.ids usable.owner_row
          (owner_test usable.owner k.user_id usable.owner_id usable.owner_active)
      ∙ ap owned (usable.owner_id ∙ of)

-- The tunnel may be up: its key is usable and its owner has the reservation.
abbrev pub Entitled : Db → ActiveTunnel → Text → Type 0
Entitled db t label = Holds db t × Reserves db t.user_id t.protocol label t.tcp_port

module _ (db : Db) (t : ActiveTunnel) (label : Text) where
  web_count : ℕ → ℕ
  web_count uid = count (λ d. d.user_id == uid && same_label d.name label) db.subdomains

  port_count : ℕ → ℕ
  port_count uid = count (λ p. p.user_id == uid && p.port == t.tcp_port) db.tcp_ports

  web_grants-join : web_grants t label db ≡ join db t web_count
  unfolding web_grants join web_count
  web_grants-join = refl

  tcp_grants-join : tcp_grants t db ≡ join db t port_count
  unfolding tcp_grants join port_count
  tcp_grants-join = refl

  web_case :
      is_web t.protocol ≡ true
      → is_system t ≡ false
      → is_granted t label db ≡ (web_grants t label db == 1)
  unfolding is_granted grants
  web_case w s = ground arith

  tcp_case :
      is_web t.protocol ≡ false
      → is_tcp t.protocol ≡ true
      → is_granted t label db ≡ (in_port_range t.tcp_port && (tcp_grants t db == 1))
  unfolding is_granted grants
  tcp_case w s = ground arith

  off_case : is_web t.protocol ≡ false → is_tcp t.protocol ≡ false → is_granted t label db ≡ false
  unfolding is_granted grants
  off_case w s = ground arith

  web_sound : (web_grants t label db == 1) ≡ true → Holds db t × Reserves db t.user_id http label 0
  unfolding web_count
  web_sound h =
      let (k, more) =
        join_sound db t web_count
          (rw (← web_grants-join) (omega (arith, (==_iff (web_grants t label db) 1).0 h))) in
      (k, count-label db t.user_id label more)

  web_complete :
      IsValid db
      → Holds db t
      → Reserves db t.user_id http label 0
      → (web_grants t label db == 1) ≡ true
  unfolding web_count
  web_complete v k r =
      (==_iff _ 1).1
        (web_grants-join ∙ join_complete db t web_count v k ∙ label-count db t.user_id label v r)

  tcp_sound :
      (in_port_range t.tcp_port && (tcp_grants t db == 1)) ≡ true
      → Holds db t × Reserves db t.user_id tcp label t.tcp_port
  unfolding port_count
  tcp_sound h =
      let (range, one) = &&_parts (in_port_range t.tcp_port) (tcp_grants t db == 1) h in
      let (k, more) =
        join_sound db t port_count
          (rw (← tcp_grants-join) (omega (arith, (==_iff (tcp_grants t db) 1).0 one))) in
      (k, count-port db t.user_id t.tcp_port range more)

  tcp_complete :
      IsValid db
      → Holds db t
      → Reserves db t.user_id tcp label t.tcp_port
      → (in_port_range t.tcp_port && (tcp_grants t db == 1)) ≡ true
  unfolding port_count
  tcp_complete v k r = &&_join _ _ (in_range t.tcp_port r.4 r.5) (
      (==_iff _ 1).1 (
        tcp_grants-join
        ∙ join_complete db t port_count v k
        ∙ port-count db t.user_id t.tcp_port v r))

  by_protocol :
      (p : Protocol)
      → t.protocol ≡ p
      → IsValid db
      → is_system t ≡ false
      → (is_granted t label db ≡ true) ↔ (Holds db t × Reserves db t.user_id p label t.tcp_port)
  by_protocol http e v s = (
    λ h. web_sound (sym (web_case (rw e) s) ∙ h),
    λ h. web_case (rw e) s ∙ web_complete v h.0 h.1,
  )
  by_protocol https e v s = (
    λ h. web_sound (sym (web_case (rw e) s) ∙ h),
    λ h. web_case (rw e) s ∙ web_complete v h.0 h.1,
  )
  by_protocol tls e v s = (
    λ h. web_sound (sym (web_case (rw e) s) ∙ h),
    λ h. web_case (rw e) s ∙ web_complete v h.0 h.1,
  )
  by_protocol tcp e v s = (
    λ h. tcp_sound (sym (tcp_case (rw e) (rw e)) ∙ h),
    λ h. tcp_case (rw e) (rw e) ∙ tcp_complete v h.0 h.1,
  )
  by_protocol unknown e v s = (λ h. let off = off_case (rw e) (rw e) in cc, λ h. elim h.1 [ ])

  -- In a valid database, a user's tunnel is granted exactly where its key is an enabled key of its
  -- active user, and that user has reserved the label of its host name or its TCP port in range.
  pub is_granted_iff :
      IsValid db → is_system t ≡ false → (is_granted t label db ≡ true) ↔ Entitled db t label
  is_granted_iff v s = by_protocol t.protocol refl v s
