-- ===== src/Store/Authorized.antt =====
-- `AuthorizeBind` of app/internal/store/hardening.go decides the entitlement of `Store.Entitled`.
use tunnel_service.Prelude.{
  ℕ, ◌≡◌, ◌⊎◌, inl, inr, ◌↔◌, String, Text, true, Row, some, none, arith, ==_iff, eq_iff, &&_parts,
  any-Row, find-Row, lower_text, Option-cases, text_eq_iff,
}
use tunnel_service.Model.{SshKey, SystemKey, SystemSubdomain, BoundKey, Protocol, is_web, ok}
use tunnel_service.Store.Db.{Db}
use tunnel_service.Store.Reservations.{same_label}
use tunnel_service.Store.Bind.{
  enabled_key, system_key, reserved, user_bound, system_bound, authorize_bind,
}
use tunnel_service.Store.Valid.{IsValid}
use tunnel_service.Store.Entitled.{
  IsUsable, Reserves, enabled_key-IsUsable, IsUsable-enabled_key, reserved_sound, reserved_complete,
}

-- An enabled system key that owns the label.
pub record IsSystemUsable (db : Db) (label : Text) (s : SystemKey) : Type 0 where
  pub row : Row s db.system_keys
  pub enabled : s.enabled ≡ true
  pub owned : SystemSubdomain
  pub owned_row : Row owned db.system_subdomains
  pub owner : owned.system_key_id ≡ s.id
  pub names : lower_text owned.name ≡ lower_text label

-- Whom a bind may be authorized as.
abbrev pub BoundAs : Db → String → Text → Protocol → ℕ → BoundKey → Type 0
BoundAs db fp label protocol port b =
    ((k : SshKey) × IsUsable db k
      × (k.fingerprint ≡ fp)
      × (b ≡ user_bound k)
      × Reserves db k.user_id protocol label port)
    ⊎ ((s : SystemKey) × IsSystemUsable db label s
        × (s.fingerprint ≡ fp)
        × (b ≡ system_bound s)
        × (is_web protocol ≡ true))

system_key-IsSystemUsable :
    (fp : String) (label : Text) (db : Db) (s : SystemKey)
    → system_key fp label db ≡ some s
    → IsSystemUsable db label s × (s.fingerprint ≡ fp)
unfolding system_key same_label
system_key-IsSystemUsable fp label db s h =
    let (row, test) = find-Row _ db.system_keys s h in
    let (same, rest) = &&_parts _ _ test in
    let (on, owns) = &&_parts _ _ rest in
    let (d, r, t) = any-Row _ db.system_subdomains owns in
    let (of, named) = &&_parts _ _ t in
    (
      record {
        row = row;
        enabled = on;
        owned = d;
        owned_row = r;
        owner = (==_iff d.system_key_id s.id).0 of;
        names = (text_eq_iff (lower_text d.name) (lower_text label)).0 named;
      },
      (eq_iff s.fingerprint fp).0 same,
    )

module _ (fp : String) (label : Text) (protocol : Protocol) (port : ℕ) (db : Db) where
  user_path :
      (k : SshKey)
      → enabled_key fp db ≡ some k
      → (reserved k.user_id label protocol port db ≡ 1)
      → authorize_bind fp label protocol port db ≡ ok ((user_bound k, db.generation), db)
  unfolding authorize_bind
  user_path k e one = ground arith

  user_path_inv :
      (k : SshKey) {b : BoundKey} {g : ℕ} {db' : Db}
      → enabled_key fp db ≡ some k
      → authorize_bind fp label protocol port db ≡ ok ((b, g), db')
      → (reserved k.user_id label protocol port db ≡ 1)
        × (b ≡ user_bound k)
        × (g ≡ db.generation)
        × (db' ≡ db)
  unfolding authorize_bind
  user_path_inv k e h = ground arith

  system_path_inv :
      {b : BoundKey} {g : ℕ} {db' : Db}
      → enabled_key fp db ≡ none
      → authorize_bind fp label protocol port db ≡ ok ((b, g), db')
      → (s : SystemKey) × (system_key fp label db ≡ some s)
        × (b ≡ system_bound s)
        × (is_web protocol ≡ true)
        × (g ≡ db.generation)
        × (db' ≡ db)
  unfolding authorize_bind
  system_path_inv e h = ground arith

  -- An authorized bind changes nothing, carries the current generation, and is either that of an
  -- enabled key of an active user with the fingerprint, whose owner has reserved the label or the
  -- port in range, or, for a web protocol, that of an enabled system key that owns the label.
  pub authorize_bind_sound :
      {b : BoundKey} {g : ℕ} {db' : Db}
      → authorize_bind fp label protocol port db ≡ ok ((b, g), db')
      → (db' ≡ db) × (g ≡ db.generation) × BoundAs db fp label protocol port b
  authorize_bind_sound h = elim (Option-cases (enabled_key fp db)) [
    | inl e ↦
        let (s, found, is, web, gen, same) = system_path_inv e h in
        let (usable, print) = system_key-IsSystemUsable fp label db s found in
        (same, gen, inr (s, usable, print, is, web))
    | inr (k, e) ↦
        let (one, is, gen, same) = user_path_inv k e h in
        let (usable, print) = enabled_key-IsUsable fp db k e in
        (same, gen, inl (k, usable, print, is, reserved_sound db k.user_id label protocol port one))
  ]

module _ (label : Text) (protocol : Protocol) (port : ℕ) (db : Db) (k : SshKey) where
  -- In a valid database, an enabled key of an active user is authorized exactly where its owner has
  -- the reservation; the bind is then the key's own, at the current generation.
  pub authorize_bind_iff :
      IsValid db
      → IsUsable db k
      → (authorize_bind k.fingerprint label protocol port db
          ≡ ok ((user_bound k, db.generation), db))
        ↔ Reserves db k.user_id protocol label port
  authorize_bind_iff v u =
      let e = IsUsable-enabled_key db k v u in
      (
        λ h.
            reserved_sound db k.user_id label protocol port
              (user_path_inv k.fingerprint label protocol port db k e h).0,
        λ r.
            user_path k.fingerprint label protocol port db k e
              (reserved_complete db k.user_id label protocol port v r),
      )
