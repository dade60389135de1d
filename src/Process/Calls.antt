-- ===== src/Process/Calls.antt =====
-- What the operations of the running process leave in its database.
use tunnel_service.Prelude.{◌≡◌, String, Bool, List}
use tunnel_service.Store.Calls.{Call, run_all}
use tunnel_service.Service.World.{World, Io}
use tunnel_service.Store.Db.{Db}
use tunnel_service.Service.Traced.{IsTraced}
use tunnel_service.Web.Action.{Action}
use tunnel_service.Web.Perform.{with_reply}

-- The database of the second world is that of a run of calls from the first.
abbrev pub IsRun : World → World → Type 0
IsRun w v = (cs : List Call) × (v.db ≡ run_all cs w.db)

replied :
    {A : Type 0} (json : Bool) (path flash : String) (m : Io A) (w : World)
    → IsTraced m
    → IsRun w (with_reply json path flash (m w)).1
replied json path flash m w t = t.at w
