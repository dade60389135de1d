-- ===== src/Startup.antt =====
-- The start of the process: `main` of app/cmd/control-plane/main.go up to the servers. The clock
-- stands still during it.
pub mod Prepared
pub mod Ready
mod Tests
use tunnel_service.Prelude.{
  ℕ, ◌/◌, Text, codes, String, Bool, true, false, not, Option, none, some, if◌then◌else◌,
}
use tunnel_service.Model.{Time, Result, Error, ok, err}
use tunnel_service.Store.Db.{Db}
use tunnel_service.Store.Tx.{modify}
use tunnel_service.Store.Auth.{cleanup_auth}
use tunnel_service.Store.Telemetry.{cleanup_telemetry}
use tunnel_service.Store.Users.{ensure_system_resources}
use tunnel_service.Service.World.{World, Io, ◌>>=◌, done, fail, lift, attempt, stored}
use tunnel_service.Service.PublicKey.{Ssh, validate_public_key}
use tunnel_service.Service.Keys.{reconcile}
use tunnel_service.Config.{Platform, Config, Refusal, Loaded, refused, loaded, load}
use tunnel_service.Sish.{SishClient, new_sish_client}
use tunnel_service.Web.Internal.{second}

-- `filepath.Dir`, and whether `os.MkdirAll` and `store.Open` succeed at a path.
pub record Host : Type 0 where
  pub platform : Platform
  pub dir : Text → Text
  pub mkdir_all : Text → Bool
  pub open_store : Text → Bool

-- Why the process exits.
pub data Failure : Type 0 where
  bad_config : Refusal → Failure
  no_directory no_database bad_management_url no_system_key : Failure
  bad_system_key : Error → Failure
  not_registered not_reconciled auth_not_cleaned telemetry_not_cleaned : Failure

pub data Started : Type 0 where
  exited : Failure → Started
  serving : Config → SishClient → Started

abbrev pub both : Result (Unit {0}) → Result (Unit {0}) → Io (Unit {0})
both (err e) r = fail e
both (ok u) r = lift r

-- Two statements, which both run, and `errors.Join` of their errors.
unfoldable pub both_run : (Db → Db) → (Db → Db) → Io (Unit {0})
both_run f g = do r ← attempt (stored (modify f)); s ← attempt (stored (modify g)); both r s

abbrev pub drop_sessions : Time → Db → Db
drop_sessions now db = record db { sessions = (cleanup_auth now db).sessions }

abbrev pub drop_states : Time → Db → Db
drop_states now db = record db { oauth_states = (cleanup_auth now db).oauth_states }

-- `CleanupAuth`
unfoldable pub cleanup_auth_io : Time → Io (Unit {0})
unfolding both_run
cleanup_auth_io now = both_run (drop_sessions now) (drop_states now)

abbrev pub drop_metrics : ℕ → Db → Db
drop_metrics now db = record db {
  security_telemetry = (cleanup_telemetry now db).security_telemetry;
}

abbrev pub drop_batches : ℕ → Db → Db
drop_batches now db = record db { telemetry_batches = (cleanup_telemetry now db).telemetry_batches }

-- `CleanupSecurityTelemetry`
unfoldable pub cleanup_telemetry_io : Time → Io (Unit {0})
unfolding both_run
cleanup_telemetry_io now = both_run (drop_metrics (now / second)) (drop_batches (now / second))

abbrev pub system_key_name : Text
system_key_name = codes "control-plane-tunnel"

abbrev pub or_exit :
    {A : Type 0} → Failure → Result A × World → (World → Started × World) → Started × World
or_exit f (ok a, w) next = next w
or_exit f (err e, w) next = (exited f, w)

module _ {K : Type 0} (ssh : Ssh K) (o : Host) (now : Time) where
  -- The calls of the store and the files, once the configuration and the system key are there.
  unfoldable pub prepare : Config → SishClient → Text → String → World → Started × World
  unfolding cleanup_auth_io cleanup_telemetry_io
  prepare cfg sish key fp w =
      or_exit not_registered
        (stored (ensure_system_resources system_key_name key fp cfg.control_plane_subdomain) w)
        λ w1. or_exit not_reconciled (reconcile w1) λ w2.
          or_exit auth_not_cleaned (cleanup_auth_io now w2) λ w3.
            or_exit telemetry_not_cleaned (cleanup_telemetry_io now w3) λ w4. (serving cfg sish, w4)

  abbrev pub with_valid_key : Config → SishClient → Result (Text × String) → World → Started × World
  with_valid_key cfg sish (err e) w = (exited (bad_system_key e), w)
  with_valid_key cfg sish (ok (key, fp)) w = prepare cfg sish key fp w

  abbrev pub with_key_file : Config → SishClient → Option Text → World → Started × World
  with_key_file cfg sish none w = (exited no_system_key, w)
  with_key_file cfg sish (some text) w = with_valid_key cfg sish (validate_public_key ssh text) w

  abbrev pub with_sish : Config → Option SishClient → World → Started × World
  with_sish cfg none w = (exited bad_management_url, w)
  with_sish cfg (some sish) w =
      with_key_file cfg sish (o.platform.read_file cfg.system_public_key_file) w

  abbrev pub with_config : Loaded → World → Started × World
  with_config (refused r) w = (exited (bad_config r), w)
  with_config (loaded cfg) w =
      if not (o.mkdir_all (o.dir cfg.database_path))
      then (exited no_directory, w)
      else if not (o.open_store cfg.database_path)
      then (exited no_database, w)
      else with_sish cfg
          (new_sish_client o.platform cfg.sish_management_url cfg.sish_management_token_file) w

  unfoldable pub start : World → Started × World
  unfolding prepare
  start w = with_config (load o.platform) w
