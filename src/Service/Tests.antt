-- ===== src/Service/Tests.antt =====
-- Each property of the service at a concrete input.
use tunnel_service.Prelude.{
  ℕ, ◌≡◌, ◌↔◌, ◌<◌, refl, Text, codes, lower, true, false, some, none, [], ◌∷◌, arith, any,
}
use tunnel_service.Model.{
  ok, err, Kind, Payload, Error, SshKey, User, active, user, invalid_tcp_port, reserved_subdomain,
}
use tunnel_service.Store.Db.{fresh}
use tunnel_service.Store.Keys.{empty_payload, key_by_id, authorized_keys}
use tunnel_service.Service.World.{World}
use tunnel_service.Service.KeyFiles.{is_file}
use tunnel_service.Service.Names.{parse_tcp_port, normalize_subdomain, trim_space}
use tunnel_service.Service.Names.Port.{Writes, parse_tcp_port_iff}
use tunnel_service.Service.Names.Label.{normalize_subdomain_idem}
use tunnel_service.Service.Worker.{Controller, process}
use tunnel_service.Prelude.{◌++◌, All}
use tunnel_service.Service.World.{KeyFile}
use tunnel_service.Service.KeyFiles.{is_wanted}
use tunnel_service.Service.Keys.{reconcile}
use tunnel_service.Service.Reconciled.{reconcile_exact}
use tunnel_service.Prelude.{Option, ◌⊎◌}
use tunnel_service.Model.{TunnelSnapshot}
use tunnel_service.Store.Snapshot.{reconcile_snapshot}
use tunnel_service.Service.Synchronizer.{sync_round}
use tunnel_service.Service.Synchronizer.Fails.{IsMarked, sync_round-IsMarked}
use tunnel_service.Service.Republish.{write_event-publishes, calm}

parse_tcp_port_iff_example :
    (parse_tcp_port (codes " 012345 ") ≡ ok 12345) ↔ Writes (trim_space (codes " 012345 ")) 12345
parse_tcp_port_iff_example = parse_tcp_port_iff (codes " 012345 ") 12345

port_read : parse_tcp_port (codes " 012345 ") ≡ ok 12345
unfolding parse_tcp_port trim_space tunnel_service.Service.Names.all
    tunnel_service.Service.Names.parse_uint16
port_read = refl

port_wide : parse_tcp_port (codes "75536") ≡ err invalid_tcp_port
unfolding parse_tcp_port trim_space tunnel_service.Service.Names.all
    tunnel_service.Service.Names.parse_uint16
port_wide = refl

label_read : normalize_subdomain lower (codes " Blog-1 ") ≡ ok (codes "blog-1")
unfolding normalize_subdomain tunnel_service.Service.Names.is_reserved any
    tunnel_service.Prelude.text_eq trim_space lower tunnel_service.Service.Names.byte_length
    tunnel_service.Service.Names.all tunnel_service.Service.Names.is_label_char
label_read = refl

label_taken : normalize_subdomain lower (codes "WWW") ≡ err reserved_subdomain
unfolding normalize_subdomain tunnel_service.Service.Names.is_reserved any
    tunnel_service.Prelude.text_eq trim_space lower
label_taken = refl

normalize_subdomain_idem_example : normalize_subdomain lower (codes "blog-1") ≡ ok (codes "blog-1")
normalize_subdomain_idem_example =
    normalize_subdomain_idem lower (λ c h. refl) (codes " Blog-1 ") (codes "blog-1") label_read

abbrev revoked : SshKey
revoked = record {
  id = 1;
  user_id = 1;
  name = codes "laptop";
  public_key = codes "ssh-ed25519 AAAA";
  fingerprint = "SHA256:a";
  enabled = false;
}

abbrev bob : User
bob = record {
  id = 1;
  discord_id = "100";
  username = "bob";
  display_name = "Bob";
  email = "";
  avatar_url = "";
  role = user;
  status = active;
}

abbrev after_disable : World
after_disable = record {
  db = record fresh { users = bob ∷ []; ssh_keys = revoked ∷ [] };
  files = [];
  faults = [];
}

abbrev quiet : Controller
quiet = record {
  drop_key = λ k g. ok tt;
  drop_user = λ u g. ok tt;
  drop_host = λ h g. ok tt;
  drop_port = λ p g. ok tt;
}

abbrev silent : Error → Text
silent e = []

abbrev write_one : Payload
write_one = record empty_payload { key_id = 1 }

revoked_found : key_by_id 1 after_disable.db ≡ some revoked
unfolding key_by_id tunnel_service.Prelude.find any
revoked_found = refl

none_authorized : authorized_keys after_disable.db ≡ []
unfolding authorized_keys tunnel_service.Prelude.select any
none_authorized = refl

write_event-publishes_example :
    (after : World) × (process lower [] silent quiet Kind.pubkey_write write_one
        (calm after_disable)
      ≡ (ok tt, after))
    × (after.db ≡ after_disable.db)
    × (any (is_file 1 1) after.files ≡ true)
write_event-publishes_example =
    write_event-publishes lower [] silent quiet write_one after_disable revoked revoked_found
      (omega arith) (omega arith)

abbrev laptop_file : KeyFile
laptop_file = record { user_id = 1; key_id = 1; content = codes "ssh-ed25519 AAAA" ++ (10 ∷ []) }

-- The file of a key that is gone, and a key without its file.
abbrev before_reconcile : World
before_reconcile = record {
  db = record fresh { users = bob ∷ []; ssh_keys = record revoked { enabled = true } ∷ [] };
  files = record { user_id = 1; key_id = 7; content = [] } ∷ [];
  faults = [];
}

abbrev after_reconcile : World
after_reconcile = record before_reconcile { files = laptop_file ∷ [] }

reconciled : reconcile before_reconcile ≡ (ok tt, after_reconcile)
unfolding reconcile tunnel_service.Service.World.◌>>=◌ tunnel_service.Service.World.stored
    tunnel_service.Service.KeyFiles.reconcile_files tunnel_service.Service.World.filed is_wanted any
    authorized_keys tunnel_service.Prelude.select trim_space tunnel_service.Prelude.delete_where
reconciled = refl

reconcile_exact_example :
    (after_reconcile.db ≡ before_reconcile.db)
    × All (λ g. is_wanted (authorized_keys before_reconcile.db) g ≡ true) after_reconcile.files
    × All
        (λ (k : SshKey). any (is_file k.user_id k.id) after_reconcile.files ≡ true)
        (authorized_keys before_reconcile.db)
reconcile_exact_example = reconcile_exact before_reconcile after_reconcile reconciled

abbrev nothing_open : TunnelSnapshot
nothing_open = record { source_id = "s1"; sequence = 1; tunnels = [] }

abbrev idle_world : World
idle_world = record { db = fresh; files = []; faults = [] }

sync_round-IsMarked_example :
    ((s : TunnelSnapshot) × (◌≡◌ {A = Option TunnelSnapshot} (some nothing_open) (some s))
      × (reconcile_snapshot s 5 fresh
          ≡ ok (tt, (sync_round (some nothing_open) 5 idle_world).1.db)))
    ⊎ IsMarked (sync_round (some nothing_open) 5 idle_world).1.db
sync_round-IsMarked_example = sync_round-IsMarked (some nothing_open) 5 idle_world refl
