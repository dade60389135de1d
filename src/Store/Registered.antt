-- ===== src/Store/Registered.antt =====
-- What `EnsureSystemResources` of app/internal/store/hardening.go leaves.
use tunnel_service.Prelude.{
  str_eq, ℕ, ◌≡◌, refl, subst, ap, inl, inr, String, Text, Bool, true, not, ◌&&◌, some, List, ◌∷◌,
  any, any-Row, find, find-Row, update_where, Row, here, there, Row-update_where, lower_text,
  text_eq, text_eq_self, text_eq_iff, Bool-cases,
}
use tunnel_service.Model.{SystemKey, SystemSubdomain, ok}
use tunnel_service.Store.Db.{Db}
use tunnel_service.Store.Tx.{check, modify}
use tunnel_service.Store.Rules.{>>=-eq-ok, demand-eq-ok}
use tunnel_service.Store.Reservations.{same_label}
use tunnel_service.Store.Users.{
  upsert_system_key, system_key_by_name, point_label, drop_other_labels, ensure_system_resources,
}
use tunnel_service.Store.Authorized.{IsSystemUsable}

-- The row of the system key is enabled and has this key.
pub record IsSystemKey (key : Text) (fp : String) (k : SystemKey) : Type 0 where
  pub public_key : k.public_key ≡ key
  pub fingerprint : k.fingerprint ≡ fp
  pub enabled : k.enabled ≡ true

module _ {A : Type 0} where
  -- The row that a test finds after an UPDATE under the same test is an updated one.
  updated :
      (p : A → Bool) (f : A → A) (xs : List A) (a : A)
      → Row a (update_where p f xs)
      → p a ≡ true
      → (b : A) × (a ≡ f b)
  updated p f xs a r e =
      let (b, row, same) = Row-update_where p f xs a r in
      elim (Bool-cases (p b)) [
        | inl on ↦ (b, rw on at same)
        | inr off ↦ let k : a ≡ b = rw off at same in let bad : p b ≡ true = rw k at e in cc
      ]

  Row-updated :
      (p : A → Bool) (f : A → A) {a : A} {xs : List A}
      → Row a xs
      → p a ≡ true
      → Row (f a) (update_where p f xs)
  unfolding update_where
  Row-updated p f (here {xs = xs}) e = rw e here
  Row-updated p f (there {x = x} {xs = xs} r) e = there (Row-updated p f r e)

module _ (name key : Text) (fp : String) where
  abbrev new_key : ℕ → SystemKey
  new_key id = record { id = id; name = name; public_key = key; fingerprint = fp; enabled = true }

  abbrev renewed : SystemKey → SystemKey
  renewed k = record k { public_key = key; fingerprint = fp; enabled = true }

  renewed-IsSystemKey :
      (ks : List SystemKey) (k : SystemKey)
      → find (λ x. text_eq x.name name) (update_where (λ x. text_eq x.name name) renewed ks)
        ≡ some k
      → IsSystemKey key fp k
  renewed-IsSystemKey ks k h =
      let (row, test) = find-Row _ (update_where (λ x. text_eq x.name name) renewed ks) k h in
      let (b, same) = updated (λ x. text_eq x.name name) renewed ks k row test in
      record {
        public_key = ap (λ x. x.public_key) same;
        fingerprint = ap (λ x. x.fingerprint) same;
        enabled = ap (λ x. x.enabled) same;
      }

  first-IsSystemKey :
      (id : ℕ) (ks : List SystemKey) (k : SystemKey)
      → find (λ x. text_eq x.name name) (new_key id ∷ ks) ≡ some k
      → IsSystemKey key fp k
  unfolding find
  first-IsSystemKey id ks k h =
      let e : some (new_key id) ≡ some k = rw (text_eq_self name) at h in
      let same : new_key id ≡ k = cc in
      subst (IsSystemKey key fp) same
        (record { public_key = refl; fingerprint = refl; enabled = refl })

  upserted :
      (db db' : Db) (k : SystemKey)
      → upsert_system_key name key fp db ≡ ok (tt, db')
      → system_key_by_name name db' ≡ some k
      → IsSystemKey key fp k
  unfolding upsert_system_key system_key_by_name
  upserted db db' k h q =
      elim (Bool-cases
        (any (λ x. str_eq x.fingerprint fp && not (text_eq x.name name)) db.system_keys)) [
          | inl taken ↦ let bad = rw taken at h in cc
          | inr free ↦ elim (Bool-cases (any (λ x. text_eq x.name name) db.system_keys)) [
            | inl old ↦
                let e = rw (free, old) at h in
                let same : update_where (λ x. text_eq x.name name) renewed db.system_keys
                    ≡ db'.system_keys =
                  cc in
                renewed-IsSystemKey db.system_keys k (rw same q)
            | inr new ↦
                let e = rw (free, new) at h in
                let same : new_key db.next_system_key_id ∷ db.system_keys ≡ db'.system_keys = cc in
                first-IsSystemKey db.next_system_key_id db.system_keys k (rw same q)
          ]
        ]

-- The label has a row that names the key.
pointed :
    (id : ℕ) (label : Text) (db : Db)
    → (d : SystemSubdomain) × Row d (point_label id label db).system_subdomains
      × (d.system_key_id ≡ id)
      × (lower_text d.name ≡ lower_text label)
unfolding point_label same_label
pointed id label db = elim (Bool-cases (any (λ d. same_label d.name label) db.system_subdomains)) [
  | inl old ↦
      let (d, row, named) = any-Row (λ d. same_label d.name label) db.system_subdomains old in
      (
        record d { system_key_id = id },
        rw old (
            Row-updated (λ d. same_label d.name label) (λ d. record d { system_key_id = id }) row
              named),
        refl,
        (text_eq_iff (lower_text d.name) (lower_text label)).0 named,
      )
  | inr new ↦ (record { name = label; system_key_id = id }, rw new here, refl, refl)
]

-- Once the system resources are registered, an enabled system key with the given key and fingerprint
-- owns the label.
pub ensure_system_resources-IsSystemUsable :
    (name key : Text) (fp : String) (label : Text) (db db' : Db)
    → ensure_system_resources name key fp label db ≡ ok (tt, db')
    → (k : SystemKey) × IsSystemUsable db' label k × IsSystemKey key fp k
unfolding ensure_system_resources system_key_by_name modify drop_other_labels point_label
ensure_system_resources-IsSystemUsable name key fp label db db' h =
    let (u1, d1, p1, q1) = >>=-eq-ok (check _ _) _ db h in
    let (u2, d2, p2, q2) = >>=-eq-ok (upsert_system_key name key fp) _ d1 q1 in
    let (k, found, q3) = demand-eq-ok (system_key_by_name name) _ d2 q2 in
    let (row, test) = find-Row _ d2.system_keys k found in
    let good = upserted name key fp d1 d2 k p2 found in
    let (u3, d3, p3, q4) = >>=-eq-ok (modify (drop_other_labels k.id label)) _ d2 q3 in
    let last : point_label k.id label (drop_other_labels k.id label d2) ≡ db' = cc in
    let (d, owned, owner, names) = pointed k.id label (drop_other_labels k.id label d2) in
    (
      k,
      subst (λ x. IsSystemUsable x label k) last
          (record {
            row = row;
            enabled = good.enabled;
            owned = d;
            owned_row = owned;
            owner = owner;
            names = names;
          }),
      good,
    )
