-- ===== src/Store/Tests/Snapshots.antt =====
-- The properties of snapshots and of admitted tunnels at concrete calls.
use tunnel_service.Prelude.{◌≡◌, refl, codes, true, [], ◌∷◌, arith, any, str_eq, All}
use tunnel_service.Model.{ActiveTunnel, http, ok}
use tunnel_service.Store.Db.{Db}
use tunnel_service.Store.Tx.{◌>>=◌}
use tunnel_service.Store.Bind.{is_granted}
use tunnel_service.Store.Tunnels.{apply_connect, apply_disconnect, is_retired}
use tunnel_service.Store.Calls.{Call, perform, run}
use tunnel_service.Store.Known.{is_known}
use tunnel_service.Model.{is_live}
use tunnel_service.Store.Admitted.{IsNews, authorize_bind-connect}
use tunnel_service.Prelude.{◌&&◌}
use tunnel_service.Model.{TunnelSnapshot, is_up}
use tunnel_service.Store.Snapshot.{
  reconcile_snapshot, begin_snapshot, restore_all, restore_one, is_kept, snapshot_label,
  restore_tunnel,
}
use tunnel_service.Store.Bind.{grants, web_grants}
use tunnel_service.Store.Reservations.{same_label}
use tunnel_service.Prelude.{sum_where, count, update_where}
use tunnel_service.Store.Synced.{Accounted, reconcile_snapshot_accounts}
use tunnel_service.Store.Tests.{
  laptop, tunnel, sample, sample-IsValid, laptop-IsUsable, laptop_binds,
}

abbrev snap : TunnelSnapshot
snap = record {
  source_id = "s1";
  sequence = 10;
  tunnels = record tunnel { id = "t9"; hostname = codes "blog.x" } ∷ [];
}

abbrev synced : Db
synced = run (Call.snapshot snap 50) sample

snapshot_commits : reconcile_snapshot snap 50 sample ≡ ok (tt, synced)
unfolding reconcile_snapshot ◌>>=◌ begin_snapshot is_retired any restore_all restore_one is_kept
    snapshot_label is_granted grants web_grants sum_where count same_label restore_tunnel
    update_where run perform
snapshot_commits = refl

snapshot_adds : any (λ t. str_eq t.id "t9" && is_up t.status) synced.tunnels ≡ true
unfolding reconcile_snapshot ◌>>=◌ begin_snapshot is_retired any restore_all restore_one is_kept
    snapshot_label is_granted grants web_grants sum_where count same_label restore_tunnel
    update_where run perform
snapshot_adds = refl

reconcile_snapshot_accounts_example :
    All (Accounted snap sample) synced.tunnels
    × (synced.sync.source_id ≡ "s1")
    × (synced.sync.last_sequence ≡ 10)
    × (synced.sync.available ≡ true)
reconcile_snapshot_accounts_example =
    reconcile_snapshot_accounts snap 50 sample synced snapshot_commits

abbrev news : ActiveTunnel
news = record tunnel { id = "t3"; event_sequence = 6 }

news-IsNews : IsNews news "s1" "e9" sample
unfolding tunnel_service.Store.Tunnels.validate_source is_retired any is_known ◌>>=◌
news-IsNews = record {
  source_good = refl;
  event_new = refl;
  sequence_new = refl;
  cursor_new = refl;
  tunnel_new = refl;
}

authorize_bind-connect_example :
    (db' : Db) × (apply_connect news (codes "blog") "s1" "e9" sample ≡ ok (tt, db'))
    × (any (λ (o : ActiveTunnel). str_eq o.id "t3" && is_live o.status) db'.tunnels ≡ true)
authorize_bind-connect_example =
    authorize_bind-connect sample sample-IsValid laptop laptop-IsUsable (codes "blog") http 0 news
      "s1" "e9" laptop_binds
      (record { key = refl; user = refl; by = refl; at_port = refl; generation = refl })
      (omega arith) news-IsNews
