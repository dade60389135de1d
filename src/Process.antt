-- ===== src/Process.antt =====
-- The running process of app/cmd/control-plane/main.go: the servers, the outbox worker and the tunnel
-- synchronizer over one database and one directory of key files, where no operation starts before the
-- one before it has ended. The mutex of Service keeps its operations on keys and users apart from
-- each other; other operations can overlap between their calls of the store, and such runs are not
-- among these.
pub mod Answers
pub mod Calls
mod Tests
use tunnel_service.Prelude.{ℕ, String, Text, Bool, Option, List}
use tunnel_service.Model.{Time, Result, Error, TunnelSnapshot}
use tunnel_service.Service.World.{
  World, Fault, works, fails_before, fails_after, next_fault, later_faults,
}
use tunnel_service.Store.Db.{Db}
use tunnel_service.Service.PublicKey.{Ssh}
use tunnel_service.Service.Worker.{Controller, drain}
use tunnel_service.Service.Synchronizer.{sync_round}
use tunnel_service.Web.Session.{Request, Form, Current}
use tunnel_service.Web.Action.{Action}
use tunnel_service.Web.Perform.{perform}
use tunnel_service.Web.Login.{Callback, Discord, oauth_start, oauth_callback}
use tunnel_service.Web.Internal.{Caller, Endpoint, serve}

-- What the process is made with: the functions of packages, the settings and the digests.
pub record Parts : Type 1 where
  pub key_type : Type 0
  pub ssh : Ssh key_type
  pub to_lower : ℕ → ℕ
  pub dns : Text → Result Bool
  pub control_plane : Text
  pub domain : Text
  pub message : Error → Text
  pub sha : String → String
  pub hash : String → String
  pub path_escape : String → String
  pub admins : String → Bool

-- What a call leaves whose only change of the database meets a fault: a fault before the commit leaves
-- the database, one after it the change.
abbrev pub left_by : Fault → Db → Db → Db
left_by works db db' = db'
left_by fails_before db db' = db
left_by fails_after db db' = db'

-- A handler runs for any user, a call of sish from anywhere; `breaks` lets any calls of SQLite and the
-- file system fail from here on. sish and Discord answer as they like. A step is a whole operation.
pub data Step (o : Parts) (w : World) : World → Type 0 where
  acts :
      (a : Action) (r : Request) (f : Form) (c : Current)
      → Step o w (perform o.ssh o.to_lower o.dns o.control_plane a r f c w).1
  opens_login :
      (cookie : Option String) (state : String) (now : Time)
      → Step o w (oauth_start o.sha o.hash cookie state now w).1
  logs_in :
      (discord : Discord) (q : Callback)
      → Step o w (oauth_callback o.sha o.hash o.path_escape o.admins discord q w).1
  serves :
      (now : Time) (c : Caller) (e : Endpoint)
      → Step o w (record w {
        db = left_by (next_fault w.faults) w.db (serve o.to_lower o.domain now c e w.db).1;
        faults = later_faults w.faults;
      })
  delivers :
      (sish : Controller) (now : Time) → Step o w (drain o.to_lower o.domain o.message sish now w).1
  synchronizes : (s : Option TunnelSnapshot) (now : Time) → Step o w (sync_round s now w).1
  breaks : (fs : List Fault) → Step o w (record w { faults = fs })

pub data Reach (o : Parts) (w : World) : World → Type 0 where
  here : Reach o w w
  next : {v u : World} → Reach o w v → Step o v u → Reach o w u
