-- ===== src/Store/Rows.antt =====
-- Each change of a row of these tables keeps the constraints.
use tunnel_service.Prelude.{ℕ, ◌≡◌, refl, sym, String, Text, Bool, true, false, arith}
use tunnel_service.Prelude.{
  next_apart, below_next, fresh_apart, ◌==◌, Distinct-update_where, Distinct-delete_where,
  All-update_where, All-delete_where, eq_iff, str_eq, any, ==_iff,
}
use tunnel_service.Store.Keys.{with_key, with_flag, without_key}
use tunnel_service.Store.Reservations.{
  same_label, in_port_range, with_subdomain, without_subdomain, with_port, without_port,
}
use tunnel_service.Store.Users.{Profile, with_user, with_profile, with_status}
use tunnel_service.Prelude.{lower_text}
use tunnel_service.Model.{User, UserStatus, SshKey, Subdomain, TcpPort}
use tunnel_service.Store.Db.{Db}
use tunnel_service.Store.Valid.{Keeps, same_label-of_eq, in_port_range_bounds}

pub with_key-Keeps :
    (uid : ℕ) (name key : Text) (fp : String) (db : Db)
    → any (λ k. str_eq k.fingerprint fp) db.ssh_keys ≡ false
    → Keeps db (with_key uid name key fp db)
unfolding with_key
with_key-Keeps uid name key fp db new v = record {
  users = v.users;
  keys = record {
    ids = (next_apart (λ (k : SshKey). k.id) _ db.ssh_keys v.keys.below, v.keys.ids);
    below = (omega arith, below_next (λ (k : SshKey). k.id) _ db.ssh_keys v.keys.below);
    fingerprints = (
      fresh_apart (λ (k : SshKey). k.fingerprint) (λ k. str_eq k.fingerprint fp) fp db.ssh_keys
          (λ k e. (eq_iff k.fingerprint fp).1 (sym e)) new,
      v.keys.fingerprints,
    );
  };
  subdomains = v.subdomains;
  ports = v.ports;
}

pub with_flag-Keeps : (id : ℕ) (b : Bool) (db : Db) → Keeps db (with_flag id b db)
unfolding with_flag
with_flag-Keeps id b db v = record {
  users = v.users;
  keys = record {
    ids = Distinct-update_where _ _ _ db.ssh_keys (λ k. refl) v.keys.ids;
    below = All-update_where _ _ _ db.ssh_keys (λ k h. h) v.keys.below;
    fingerprints = Distinct-update_where _ _ _ db.ssh_keys (λ k. refl) v.keys.fingerprints;
  };
  subdomains = v.subdomains;
  ports = v.ports;
}

pub without_key-Keeps : (id : ℕ) (db : Db) → Keeps db (without_key id db)
unfolding without_key
without_key-Keeps id db v = record {
  users = v.users;
  keys = record {
    ids = Distinct-delete_where _ _ db.ssh_keys v.keys.ids;
    below = All-delete_where _ _ db.ssh_keys v.keys.below;
    fingerprints = Distinct-delete_where _ _ db.ssh_keys v.keys.fingerprints;
  };
  subdomains = v.subdomains;
  ports = v.ports;
}

pub with_subdomain-Keeps :
    (uid : ℕ) (name : Text) (db : Db)
    → any (λ d. same_label d.name name) db.subdomains ≡ false
    → Keeps db (with_subdomain uid name db)
unfolding with_subdomain
with_subdomain-Keeps uid name db new v = record {
  users = v.users;
  keys = v.keys;
  subdomains = record {
    ids =
        (next_apart (λ (d : Subdomain). d.id) _ db.subdomains v.subdomains.below, v.subdomains.ids);
    below = (omega arith, below_next (λ (d : Subdomain). d.id) _ db.subdomains v.subdomains.below);
    names = (
      fresh_apart (λ (d : Subdomain). lower_text d.name) (λ d. same_label d.name name)
          (lower_text name) db.subdomains (λ d e. same_label-of_eq d.name name (sym e)) new,
      v.subdomains.names,
    );
  };
  ports = v.ports;
}

pub without_subdomain-Keeps : (id : ℕ) (db : Db) → Keeps db (without_subdomain id db)
unfolding without_subdomain
without_subdomain-Keeps id db v = record {
  users = v.users;
  keys = v.keys;
  subdomains = record {
    ids = Distinct-delete_where _ _ db.subdomains v.subdomains.ids;
    below = All-delete_where _ _ db.subdomains v.subdomains.below;
    names = Distinct-delete_where _ _ db.subdomains v.subdomains.names;
  };
  ports = v.ports;
}

pub with_port-Keeps :
    (uid port : ℕ) (db : Db)
    → in_port_range port ≡ true
    → any (λ p. p.port == port) db.tcp_ports ≡ false
    → Keeps db (with_port uid port db)
unfolding with_port
with_port-Keeps uid port db range new v = record {
  users = v.users;
  keys = v.keys;
  subdomains = v.subdomains;
  ports = record {
    ids = (next_apart (λ (p : TcpPort). p.id) _ db.tcp_ports v.ports.below, v.ports.ids);
    below = (omega arith, below_next (λ (p : TcpPort). p.id) _ db.tcp_ports v.ports.below);
    ports = (
      fresh_apart (λ (p : TcpPort). p.port) (λ p. p.port == port) port db.tcp_ports
          (λ p e. (==_iff p.port port).1 (sym e)) new,
      v.ports.ports,
    );
    ranges = (in_port_range_bounds port range, v.ports.ranges);
  };
}

pub without_port-Keeps : (id port : ℕ) (db : Db) → Keeps db (without_port id port db)
unfolding without_port
without_port-Keeps id port db v = record {
  users = v.users;
  keys = v.keys;
  subdomains = v.subdomains;
  ports = record {
    ids = Distinct-delete_where _ _ db.tcp_ports v.ports.ids;
    below = All-delete_where _ _ db.tcp_ports v.ports.below;
    ports = Distinct-delete_where _ _ db.tcp_ports v.ports.ports;
    ranges = All-delete_where _ _ db.tcp_ports v.ports.ranges;
  };
}

pub with_profile-Keeps : (p : Profile) (db : Db) → Keeps db (with_profile p db)
unfolding with_profile
with_profile-Keeps p db v = record {
  users = record {
    ids = Distinct-update_where _ _ _ db.users (λ u. refl) v.users.ids;
    below = All-update_where _ _ _ db.users (λ u h. h) v.users.below;
    discord_ids = Distinct-update_where _ _ _ db.users (λ u. refl) v.users.discord_ids;
  };
  keys = v.keys;
  subdomains = v.subdomains;
  ports = v.ports;
}

pub with_status-Keeps : (id : ℕ) (s : UserStatus) (db : Db) → Keeps db (with_status id s db)
unfolding with_status
with_status-Keeps id s db v = record {
  users = record {
    ids = Distinct-update_where _ _ _ db.users (λ u. refl) v.users.ids;
    below = All-update_where _ _ _ db.users (λ u h. h) v.users.below;
    discord_ids = Distinct-update_where _ _ _ db.users (λ u. refl) v.users.discord_ids;
  };
  keys = v.keys;
  subdomains = v.subdomains;
  ports = v.ports;
}

pub with_user-Keeps :
    (p : Profile) (db : Db)
    → any (λ u. str_eq u.discord_id p.discord_id) db.users ≡ false
    → Keeps db (with_user p db)
unfolding with_user
with_user-Keeps p db new v = record {
  users = record {
    ids = (next_apart (λ (u : User). u.id) _ db.users v.users.below, v.users.ids);
    below = (omega arith, below_next (λ (u : User). u.id) _ db.users v.users.below);
    discord_ids = (
      fresh_apart (λ (u : User). u.discord_id) (λ u. str_eq u.discord_id p.discord_id) p.discord_id
          db.users (λ u e. (eq_iff u.discord_id p.discord_id).1 (sym e)) new,
      v.users.discord_ids,
    );
  };
  keys = v.keys;
  subdomains = v.subdomains;
  ports = v.ports;
}
