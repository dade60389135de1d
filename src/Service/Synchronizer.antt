-- ===== src/Service/Synchronizer.antt =====
-- One round of `TunnelSynchronizer` of app/internal/service/tunnels.go: `once`, which the endless
-- loop of Run repeats, and SyncOnce. The answer of sish is an argument, an error of it is none.
pub mod Fails
use tunnel_service.Prelude.{Option, none, some}
use tunnel_service.Model.{Time, TunnelSnapshot, Result, Error, ok, err, storage}
use tunnel_service.Store.Tunnels.{mark_unavailable}
use tunnel_service.Store.Snapshot.{reconcile_snapshot}
use tunnel_service.Service.World.{World, Io, ◌>>=◌, ◌>>◌, done, fail, attempt, stored}

-- The error of marking is not looked at.
unfoldable pub give_up : Time → Io (Unit {0})
give_up now = do attempt (stored (mark_unavailable now)); done tt

abbrev pub unless_synced : Time → Result (Unit {0}) → Io (Unit {0})
unless_synced now (ok tt) = done tt
unless_synced now (err e) = give_up now

unfoldable pub sync_round : Option TunnelSnapshot → Time → Io (Unit {0})
unfolding give_up
sync_round none now = give_up now
sync_round (some s) now = do r ← attempt (stored (reconcile_snapshot s now)); unless_synced now r

-- SyncOnce returns the error, and marks only where sish does not answer.
unfoldable pub sync_once : Option TunnelSnapshot → Time → Io (Unit {0})
unfolding give_up
sync_once none now = do give_up now; fail storage
sync_once (some s) now = stored (reconcile_snapshot s now)
