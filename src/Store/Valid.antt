-- ===== src/Store/Valid.antt =====
-- The constraints of the tables of users, keys, subdomains and TCP ports.
use tunnel_service.Prelude.{ℕ, ◌≤◌, ◌<◌, ◌≡◌, Text, true, List, arith, All, Distinct}
use mathlib.Core.Path.{subst₂}
use tunnel_service.Prelude.{text_eq_iff}
use tunnel_service.Store.Tx.{Tx}
use tunnel_service.Store.Reservations.{same_label, in_port_range}
use tunnel_service.Prelude.{lower_text}
use tunnel_service.Model.{
  User, SshKey, Subdomain, TcpPort, public_tcp_port_min, public_tcp_port_max,
}
use tunnel_service.Store.Db.{Db}
use tunnel_service.Store.Resources.{SameResources}
use tunnel_service.Store.Rules.{Frame, Ensures}

pub record UsersValid (users : List User) (next : ℕ) : Type 0 where
  pub ids : Distinct (λ (u : User). u.id) users
  pub below : All (λ (u : User). u.id < next) users
  pub discord_ids : Distinct (λ (u : User). u.discord_id) users

pub record KeysValid (keys : List SshKey) (next : ℕ) : Type 0 where
  pub ids : Distinct (λ (k : SshKey). k.id) keys
  pub below : All (λ (k : SshKey). k.id < next) keys
  pub fingerprints : Distinct (λ (k : SshKey). k.fingerprint) keys

pub record SubdomainsValid (ds : List Subdomain) (next : ℕ) : Type 0 where
  pub ids : Distinct (λ (d : Subdomain). d.id) ds
  pub below : All (λ (d : Subdomain). d.id < next) ds
  pub names : Distinct (λ (d : Subdomain). lower_text d.name) ds

pub record PortsValid (ps : List TcpPort) (next : ℕ) : Type 0 where
  pub ids : Distinct (λ (p : TcpPort). p.id) ps
  pub below : All (λ (p : TcpPort). p.id < next) ps
  pub ports : Distinct (λ (p : TcpPort). p.port) ps
  pub ranges :
      All (λ (p : TcpPort). (public_tcp_port_min ≤ p.port) × (p.port ≤ public_tcp_port_max)) ps

pub record IsValid (db : Db) : Type 0 where
  pub users : UsersValid db.users db.next_user_id
  pub keys : KeysValid db.ssh_keys db.next_key_id
  pub subdomains : SubdomainsValid db.subdomains db.next_subdomain_id
  pub ports : PortsValid db.tcp_ports db.next_port_id

pub same_label-of_eq : (a b : Text) → lower_text a ≡ lower_text b → same_label a b ≡ true
unfolding same_label
same_label-of_eq a b e = (text_eq_iff (lower_text a) (lower_text b)).1 e

pub in_port_range_bounds :
    (p : ℕ) → in_port_range p ≡ true → (public_tcp_port_min ≤ p) × (p ≤ public_tcp_port_max)
in_port_range_bounds p h = ground arith

-- A valid database stays valid.
abbrev pub Keeps : Db → Db → Type 0
Keeps a b = IsValid a → IsValid b

pub Keeps-Frame : Frame Keeps
Keeps-Frame = record { same = λ db v. v; steps = λ a b c p q v. q (p v) }

pub same→Keeps : (a b : Db) → SameResources a b → Keeps a b
same→Keeps a b s v = record {
  users = subst₂ UsersValid s.users s.next_user_id v.users;
  keys = subst₂ KeysValid s.keys s.next_key_id v.keys;
  subdomains = subst₂ SubdomainsValid s.subdomains s.next_subdomain_id v.subdomains;
  ports = subst₂ PortsValid s.ports s.next_port_id v.ports;
}

pub same-Ensures : {A : Type 0} {m : Tx A} → Ensures SameResources m → Ensures Keeps m
same-Ensures e = record { at = λ db x db' h. same→Keeps db db' (e.at db x db' h) }
