-- ===== src/Store/Synced.antt =====
-- Which tunnels are up after a snapshot: `ReconcileActiveSnapshot` of
-- app/internal/store/hardening.go.
use tunnel_service.Prelude.{
  ◌<◌, ◌≡◌, ◌∙◌, refl, sym, String, Text, Bool, true, false, not, ◌&&◌, Option, none, some, List,
  [], ◌∷◌, arith, any, str_eq, eq_iff, All, All-intro, All-Row, Row, here, there, Row-update_where,
  update_where, Bool-cases, inl, inr, ◌⊎◌, &&_parts, if◌then◌else◌, leb,
}
use tunnel_service.Model.{Time, ActiveTunnel, TunnelSnapshot, is_up, is_disconnected, ok}
use tunnel_service.Store.Db.{Db}
use tunnel_service.Store.Tx.{◌>>=◌, ◌>>◌, pure, modify, check}
use tunnel_service.Store.Rules.{>>=-eq-ok}
use tunnel_service.Store.Bind.{is_granted, grants, web_grants, tcp_grants, system_grants}
use tunnel_service.Store.Snapshot.{
  is_kept, snapshot_label, adopt_source, begin_snapshot, drop_tunnels, close_cursors, put_cursor,
  restore_tunnel, restore_one, restore_all, reconcile_snapshot, set_synced, refreshed, inserted,
}

-- A tunnel that may be up: one that sish reported after the snapshot, or one of the snapshot that
-- the database grants.
abbrev pub Accounted : TunnelSnapshot → Db → ActiveTunnel → Type 0
Accounted s db t =
    (is_up t.status ≡ false)
    ⊎ ((s.sequence < t.event_sequence)
        ⊎ ((o : ActiveTunnel) × Row o s.tunnels × (o.id ≡ t.id) × (is_kept o db ≡ true)))

-- The two databases grant the same tunnels.
abbrev SameKept : Db → Db → Type 0
SameKept a b = (t : ActiveTunnel) → is_kept t b ≡ is_kept t a

record SameTables (a b : Db) : Type 0 where
  users : b.users ≡ a.users
  ssh_keys : b.ssh_keys ≡ a.ssh_keys
  subdomains : b.subdomains ≡ a.subdomains
  tcp_ports : b.tcp_ports ≡ a.tcp_ports
  system_keys : b.system_keys ≡ a.system_keys
  system_subdomains : b.system_subdomains ≡ a.system_subdomains

module _ {a b : Db} (e : SameTables a b) (t : ActiveTunnel) where
  same_web : (label : Text) → web_grants t label b ≡ web_grants t label a
  unfolding web_grants
  same_web label = rw (e.users, e.ssh_keys, e.subdomains) refl

  same_tcp : tcp_grants t b ≡ tcp_grants t a
  unfolding tcp_grants
  same_tcp = rw (e.users, e.ssh_keys, e.tcp_ports) refl

  same_system : (label : Text) → system_grants t label b ≡ system_grants t label a
  unfolding system_grants
  same_system label = rw (e.system_keys, e.system_subdomains) refl

  same_granted : (label : Text) → is_granted t label b ≡ is_granted t label a
  unfolding is_granted grants
  same_granted label = ground (arith, same_web label, same_tcp, same_system label)

  same_kept : is_kept t b ≡ is_kept t a
  unfolding is_kept
  same_kept = go (snapshot_label t)
    where
      go :
          (o : Option Text)
          → ◌≡◌ {A = Bool}
              (elim o [ none ↦ false | some label ↦ is_granted t label b ])
              (elim o [ none ↦ false | some label ↦ is_granted t label a ])
      go none = refl
      go (some label) = same_granted label

restore_one-SameTables :
    (s : TunnelSnapshot) (t : ActiveTunnel) (db db' : Db)
    → restore_one s t db ≡ ok (tt, db')
    → SameTables db db'
unfolding restore_one restore_tunnel put_cursor
restore_one-SameTables s t db db' h = ground arith

begin-SameTables :
    (s : TunnelSnapshot) (at : Time) (db db' : Db)
    → begin_snapshot s at db ≡ ok (tt, db')
    → SameTables db db'
unfolding begin_snapshot ◌>>=◌ adopt_source
begin-SameTables s at db db' h = ground arith

abbrev due : TunnelSnapshot → ActiveTunnel → Bool
due s t = leb t.event_sequence s.sequence

last_steps :
    (s : TunnelSnapshot) (at : Time) (mid db : Db)
    → (modify (drop_tunnels (due s) s.sequence at) >> modify (close_cursors s)) mid ≡ ok (tt, db)
    → db.tunnels ≡ (drop_tunnels (due s) s.sequence at mid).tunnels
unfolding ◌>>=◌ close_cursors
last_steps s at mid db h = ground arith

-- What the statements before the loop leave of the tunnels.
begin-tunnels :
    (s : TunnelSnapshot) (at : Time) (db db' : Db)
    → begin_snapshot s at db ≡ ok (tt, db')
    → (mid : Db) × (db'.tunnels ≡ (drop_tunnels (due s) s.sequence at mid).tunnels)
unfolding begin_snapshot
begin-tunnels s at db db' h =
    let (u1, d1, p1, q1) = >>=-eq-ok (check _ _) _ db h in
    let (u2, d2, p2, q2) = >>=-eq-ok (check _ _) _ d1 q1 in
    let (u3, d3, p3, q3) = >>=-eq-ok (adopt_source s at) _ d2 q2 in (d3, last_steps s at d3 db' q3)

spared :
    (s : TunnelSnapshot) (b : ActiveTunnel)
    → (not (is_disconnected b.status) && due s b) ≡ false
    → (is_up b.status ≡ false) ⊎ (s.sequence < b.event_sequence)
spared s b h = ground arith

dropped :
    (s : TunnelSnapshot) (at : Time) (db mid : Db)
    → All (Accounted s db) (drop_tunnels (due s) s.sequence at mid).tunnels
unfolding drop_tunnels
dropped s at db mid = All-intro _ _ λ t r.
    let (b, row, e) = Row-update_where _ _ mid.tunnels t r in
    elim (Bool-cases (not (is_disconnected b.status) && due s b)) [
      | inl c ↦ inl (rw (e, c) refl)
      | inr c ↦
          let same : t ≡ b = rw c at e in
          elim (spared s b c) [
            | inl down ↦ inl (rw same down)
            | inr newer ↦ inr (inl (rw same newer))
          ]
    ]

module _ (s : TunnelSnapshot) (db : Db) (o : ActiveTunnel) (before after : Db) where
  abbrev same_id : ActiveTunnel → Bool
  same_id p = str_eq p.id o.id

  abbrev older : ActiveTunnel → Bool
  older p = same_id p && leb p.event_sequence s.sequence

  updated :
      any same_id before.tunnels ≡ true
      → restore_tunnel o s.sequence before ≡ ok (tt, after)
      → after.tunnels ≡ update_where older (refreshed o s.sequence) before.tunnels
  unfolding restore_tunnel
  updated e h = ground arith

  added :
      any same_id before.tunnels ≡ false
      → restore_tunnel o s.sequence before ≡ ok (tt, after)
      → after.tunnels ≡ inserted o s.sequence ∷ before.tunnels
  unfolding restore_tunnel
  added e h = ground arith

  refreshed-Accounted :
      Row o s.tunnels
      → is_kept o db ≡ true
      → (b : ActiveTunnel) → Accounted s db b
      → Accounted s db (if older b then refreshed o s.sequence b else b)
  refreshed-Accounted row kept b old = elim (Bool-cases (older b)) [
    | inr e ↦ rw e old
    | inl e ↦
        let id : b.id ≡ o.id = (eq_iff b.id o.id).0 (&&_parts (same_id b) _ e).0 in
        rw e (inr (inr (o, row, sym id, kept)))
  ]

  restored :
      Row o s.tunnels
      → is_kept o db ≡ true
      → restore_tunnel o s.sequence before ≡ ok (tt, after)
      → All (Accounted s db) before.tunnels
      → All (Accounted s db) after.tunnels
  restored row kept h all = elim (Bool-cases (any same_id before.tunnels)) [
    | inr e ↦ rw (added e h) (inr (inr (o, row, refl, kept)), all)
    | inl e ↦ rw (updated e h) (
        All-intro _ _ λ t r.
          let (b, old, is) = Row-update_where older (refreshed o s.sequence) before.tunnels t r in
          rw is (refreshed-Accounted row kept b (All-Row _ old all)))
  ]

same_trans : {a b c : Db} → SameTables a b → SameTables b c → SameTables a c
same_trans p q = record {
  users = q.users ∙ p.users;
  ssh_keys = q.ssh_keys ∙ p.ssh_keys;
  subdomains = q.subdomains ∙ p.subdomains;
  tcp_ports = q.tcp_ports ∙ p.tcp_ports;
  system_keys = q.system_keys ∙ p.system_keys;
  system_subdomains = q.system_subdomains ∙ p.system_subdomains;
}

put_cursor-tunnels :
    (id : String) (s : TunnelSnapshot) (db : Db) → (put_cursor id s db).tunnels ≡ db.tunnels
unfolding put_cursor
put_cursor-tunnels id s db = ground arith

kept_step :
    (s : TunnelSnapshot) (o : ActiveTunnel) (db db' : Db)
    → is_kept o db ≡ true
    → restore_one s o db ≡ ok (tt, db')
    → restore_tunnel o s.sequence (put_cursor o.id s db) ≡ ok (tt, db')
unfolding restore_one
kept_step s o db db' e h = ground arith

skipped_step :
    (s : TunnelSnapshot) (o : ActiveTunnel) (db db' : Db)
    → is_kept o db ≡ false
    → restore_one s o db ≡ ok (tt, db')
    → db ≡ db'
unfolding restore_one
skipped_step s o db db' e h = ground arith

one_step :
    (s : TunnelSnapshot) (base : Db) (o : ActiveTunnel) (db db' : Db)
    → Row o s.tunnels
    → SameTables base db
    → restore_one s o db ≡ ok (tt, db')
    → All (Accounted s base) db.tunnels
    → All (Accounted s base) db'.tunnels
one_step s base o db db' row same h all = elim (Bool-cases (is_kept o db)) [
  | inr e ↦ rw (← skipped_step s o db db' e h) all
  | inl e ↦
      restored s base o (put_cursor o.id s db) db' row (sym (same_kept same o) ∙ e)
        (kept_step s o db db' e h) (rw (put_cursor-tunnels o.id s db) all)
]

loop :
    (s : TunnelSnapshot) (base : Db) (ts : List ActiveTunnel) (db db' : Db)
    → ((o : ActiveTunnel) → Row o ts → Row o s.tunnels)
    → SameTables base db
    → restore_all s ts db ≡ ok (tt, db')
    → All (Accounted s base) db.tunnels
    → All (Accounted s base) db'.tunnels
unfolding restore_all pure
loop s base [] db db' sub same h all = let e : db ≡ db' = ground arith in rw (← e) all
loop s base (t ∷ ts) db db' sub same h all =
    let (u, mid, p, q) = >>=-eq-ok (restore_one s t) _ db h in
    loop s base ts mid db' (λ o r. sub o (there r))
      (same_trans same (restore_one-SameTables s t db mid p)) q
      (one_step s base t db mid (sub t here) same p all)

set_synced-tunnels :
    (s : TunnelSnapshot) (at : Time) (db db' : Db)
    → modify (set_synced s at) db ≡ ok (tt, db')
    → (db'.tunnels ≡ db.tunnels)
      × (db'.sync.source_id ≡ s.source_id)
      × (db'.sync.last_sequence ≡ s.sequence)
      × (db'.sync.available ≡ true)
unfolding modify set_synced
set_synced-tunnels s at db db' h = ground arith

-- A snapshot that commits leaves the sync state at its source and sequence, and every tunnel that is
-- not down has either a later sequence, or the id of a tunnel of the snapshot that the database grants.
pub reconcile_snapshot_accounts :
    (s : TunnelSnapshot) (at : Time) (db db' : Db)
    → reconcile_snapshot s at db ≡ ok (tt, db')
    → All (Accounted s db) db'.tunnels
      × (db'.sync.source_id ≡ s.source_id)
      × (db'.sync.last_sequence ≡ s.sequence)
      × (db'.sync.available ≡ true)
unfolding reconcile_snapshot
reconcile_snapshot_accounts s at db db' h =
    let (u1, d1, p1, q1) = >>=-eq-ok (begin_snapshot s at) _ db h in
    let (u2, d2, p2, q2) = >>=-eq-ok (restore_all s s.tunnels) _ d1 q1 in
    let (mid, e) = begin-tunnels s at db d1 p1 in
    let (tunnels, source, last, on) = set_synced-tunnels s at d2 db' q2 in
    (
      rw tunnels (
          loop s db s.tunnels d1 d2 (λ o r. r) (begin-SameTables s at db d1 p1) p2
            (rw e (dropped s at db mid))),
      source,
      last,
      on,
    )
