-- ===== src/Startup/Tests.antt =====
-- A start of the process in a concrete environment.
use tunnel_service.Prelude.{◌≡◌, refl, Text, codes, String, true, none, some, List, [], ◌∷◌}
use tunnel_service.Model.{User, SshKey, user, active}
use tunnel_service.Store.Db.{fresh}
use tunnel_service.Service.World.{World, KeyFile, fails_before, works}
use tunnel_service.Service.PublicKey.{Ssh}
use tunnel_service.Config.Tests.{sample_platform, sample_config}
use tunnel_service.Sish.{SishClient}
use tunnel_service.Startup.{Host, Started, exited, serving, not_reconciled, start}
use tunnel_service.Startup.Ready.{IsReady, start-IsReady}

abbrev text_ssh : Ssh Text
text_ssh = record {
  parse_authorized_key = λ s. some (record { key = s; comment = []; options = []; rest = [] });
  marshal_authorized_key = λ s. s;
  fingerprint_sha256 = λ s. "SHA256:system";
}

abbrev machine : Host
machine = record {
  platform = sample_platform;
  dir = λ path. path;
  mkdir_all = λ path. true;
  open_store = λ path. true;
}

abbrev erin : User
erin = record {
  id = 1;
  discord_id = "100";
  username = "erin";
  display_name = "Erin";
  email = "";
  avatar_url = "";
  role = user;
  status = active;
}

abbrev erins_key : SshKey
erins_key = record {
  id = 3;
  user_id = 1;
  name = codes "laptop";
  public_key = codes "ssh-ed25519 ERIN";
  fingerprint = "SHA256:e";
  enabled = true;
}

-- A session that has expired, and the file of a key that is gone.
abbrev at_rest : World
at_rest = record {
  db = record fresh {
    users = erin ∷ [];
    ssh_keys = erins_key ∷ [];
    sessions =
        record { token_hash = "h"; user_id = 1; csrf_token = "c"; expires_at = 2_000_000_000 } ∷ [];
  };
  files = record { user_id = 1; key_id = 2; content = [] } ∷ [];
  faults = [];
}

abbrev management_client : SishClient
management_client = record {
  base_url = codes "http://127.0.0.1:8082";
  token_file = codes "../secrets/sish-management-token";
}

unfoldable in_service : World
in_service = (start text_ssh machine 5_000_000_000 at_rest).1

started :
    start text_ssh machine 5_000_000_000 at_rest
    ≡ (serving sample_config management_client, in_service)
unfolding in_service sample_config start tunnel_service.Config.Values.atoi
    tunnel_service.Config.check_config tunnel_service.Config.check_public_host
    tunnel_service.Config.check_redirect tunnel_service.Config.Values.csv_set
    tunnel_service.Config.env tunnel_service.Config.equal_fold
    tunnel_service.Config.is_loopback_host tunnel_service.Config.load
    tunnel_service.Config.loopback_addr tunnel_service.Config.Values.parse_bool
    tunnel_service.Config.read_config tunnel_service.Config.secret
    tunnel_service.Config.Values.split_comma tunnel_service.Config.Values.valid_label
    tunnel_service.Prelude.any tunnel_service.Prelude.delete_where tunnel_service.Prelude.find
    tunnel_service.Prelude.lower tunnel_service.Prelude.lower_text tunnel_service.Prelude.select
    tunnel_service.Prelude.text_eq tunnel_service.Prelude.update_where
    tunnel_service.Service.KeyFiles.is_file tunnel_service.Service.KeyFiles.is_wanted
    tunnel_service.Service.KeyFiles.read_dir tunnel_service.Service.KeyFiles.reconcile_files
    tunnel_service.Service.KeyFiles.sweep tunnel_service.Service.KeyFiles.with_file
    tunnel_service.Service.KeyFiles.without_file tunnel_service.Service.KeyFiles.write_file
    tunnel_service.Service.KeyFiles.write_files tunnel_service.Service.Keys.reconcile
    tunnel_service.Service.Keys.rows tunnel_service.Service.Keys.sync_locked
    tunnel_service.Service.Names.all tunnel_service.Service.Names.byte_length
    tunnel_service.Service.Names.is_space tunnel_service.Service.Names.lower_name
    tunnel_service.Service.Names.trim_left tunnel_service.Service.Names.trim_right
    tunnel_service.Service.Names.trim_space tunnel_service.Service.PublicKey.accept
    tunnel_service.Service.PublicKey.canonical tunnel_service.Service.PublicKey.validate_public_key
    tunnel_service.Service.Worker.trim_dot tunnel_service.Service.World.attempt
    tunnel_service.Service.World.done tunnel_service.Service.World.fail
    tunnel_service.Service.World.filed tunnel_service.Service.World.lift
    tunnel_service.Service.World.stored tunnel_service.Service.World.◌>>=◌
    tunnel_service.Sish.client_of tunnel_service.Sish.is_loopback
    tunnel_service.Sish.new_sish_client tunnel_service.Sish.trim_slashes_right
    tunnel_service.Startup.both_run tunnel_service.Startup.cleanup_auth_io
    tunnel_service.Startup.cleanup_telemetry_io tunnel_service.Startup.prepare
    tunnel_service.Store.Auth.cleanup_auth tunnel_service.Store.Keys.authorized_keys
    tunnel_service.Store.Reservations.same_label tunnel_service.Store.Stamp.fraction
    tunnel_service.Store.Stamp.fraction_digits tunnel_service.Store.Stamp.stamp_lt
    tunnel_service.Store.Stamp.text_lt tunnel_service.Store.Telemetry.cleanup_telemetry
    tunnel_service.Store.Tx.check tunnel_service.Store.Tx.demand tunnel_service.Store.Tx.modify
    tunnel_service.Store.Tx.◌>>=◌ tunnel_service.Store.Users.drop_other_labels
    tunnel_service.Store.Users.ensure_system_resources tunnel_service.Store.Users.point_label
    tunnel_service.Store.Users.system_key_by_name tunnel_service.Store.Users.upsert_system_key
started = refl

-- The third call, of the file system, fails.
start_faulty :
    (start text_ssh machine 5_000_000_000
      (record at_rest { faults = works ∷ works ∷ fails_before ∷ [] })).0
    ≡ exited not_reconciled
unfolding in_service sample_config start tunnel_service.Config.Values.atoi
    tunnel_service.Config.check_config tunnel_service.Config.check_public_host
    tunnel_service.Config.check_redirect tunnel_service.Config.Values.csv_set
    tunnel_service.Config.env tunnel_service.Config.equal_fold
    tunnel_service.Config.is_loopback_host tunnel_service.Config.load
    tunnel_service.Config.loopback_addr tunnel_service.Config.Values.parse_bool
    tunnel_service.Config.read_config tunnel_service.Config.secret
    tunnel_service.Config.Values.split_comma tunnel_service.Config.Values.valid_label
    tunnel_service.Prelude.any tunnel_service.Prelude.delete_where tunnel_service.Prelude.find
    tunnel_service.Prelude.lower tunnel_service.Prelude.lower_text tunnel_service.Prelude.select
    tunnel_service.Prelude.text_eq tunnel_service.Prelude.update_where
    tunnel_service.Service.KeyFiles.is_file tunnel_service.Service.KeyFiles.is_wanted
    tunnel_service.Service.KeyFiles.read_dir tunnel_service.Service.KeyFiles.reconcile_files
    tunnel_service.Service.KeyFiles.sweep tunnel_service.Service.KeyFiles.with_file
    tunnel_service.Service.KeyFiles.without_file tunnel_service.Service.KeyFiles.write_file
    tunnel_service.Service.KeyFiles.write_files tunnel_service.Service.Keys.reconcile
    tunnel_service.Service.Keys.rows tunnel_service.Service.Keys.sync_locked
    tunnel_service.Service.Names.all tunnel_service.Service.Names.byte_length
    tunnel_service.Service.Names.is_space tunnel_service.Service.Names.lower_name
    tunnel_service.Service.Names.trim_left tunnel_service.Service.Names.trim_right
    tunnel_service.Service.Names.trim_space tunnel_service.Service.PublicKey.accept
    tunnel_service.Service.PublicKey.canonical tunnel_service.Service.PublicKey.validate_public_key
    tunnel_service.Service.Worker.trim_dot tunnel_service.Service.World.attempt
    tunnel_service.Service.World.done tunnel_service.Service.World.fail
    tunnel_service.Service.World.filed tunnel_service.Service.World.lift
    tunnel_service.Service.World.stored tunnel_service.Service.World.◌>>=◌
    tunnel_service.Sish.client_of tunnel_service.Sish.is_loopback
    tunnel_service.Sish.new_sish_client tunnel_service.Sish.trim_slashes_right
    tunnel_service.Startup.both_run tunnel_service.Startup.cleanup_auth_io
    tunnel_service.Startup.cleanup_telemetry_io tunnel_service.Startup.prepare
    tunnel_service.Store.Auth.cleanup_auth tunnel_service.Store.Keys.authorized_keys
    tunnel_service.Store.Reservations.same_label tunnel_service.Store.Stamp.fraction
    tunnel_service.Store.Stamp.fraction_digits tunnel_service.Store.Stamp.stamp_lt
    tunnel_service.Store.Stamp.text_lt tunnel_service.Store.Telemetry.cleanup_telemetry
    tunnel_service.Store.Tx.check tunnel_service.Store.Tx.demand tunnel_service.Store.Tx.modify
    tunnel_service.Store.Tx.◌>>=◌ tunnel_service.Store.Users.drop_other_labels
    tunnel_service.Store.Users.ensure_system_resources tunnel_service.Store.Users.point_label
    tunnel_service.Store.Users.system_key_by_name tunnel_service.Store.Users.upsert_system_key
start_faulty = refl

start-IsReady_example :
    IsReady text_ssh machine 5_000_000_000 sample_config management_client in_service
start-IsReady_example =
    start-IsReady text_ssh machine 5_000_000_000 at_rest in_service sample_config management_client
      started
