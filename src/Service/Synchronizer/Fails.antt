-- ===== src/Service/Synchronizer/Fails.antt =====
-- A round of the synchronizer of app/internal/service/tunnels.go that has no snapshot to show marks
-- the tunnels as no longer known.
use tunnel_service.Prelude.{
  ◌≡◌, refl, ap, sym, subst, ◌∙◌, arith, false, Option, none, some, List, [], ◌∷◌, any, ◌⊎◌, inl,
  inr, update_where,
}
use tunnel_service.Model.{Time, ActiveTunnel, TunnelSnapshot, Result, ok, err, is_live, stale}
use tunnel_service.Store.Db.{Db}
use tunnel_service.Store.Tx.{modify}
use tunnel_service.Store.Tunnels.{mark_unavailable}
use tunnel_service.Store.Snapshot.{reconcile_snapshot}
use tunnel_service.Service.World.{
  World, ◌>>=◌, attempt, stored, transact, settle, reify, continue, next_fault, rest_of,
  later_faults, done,
}
use tunnel_service.Service.Synchronizer.{give_up, unless_synced, sync_round}

none_live :
    (ts : List ActiveTunnel)
    → any
        (λ t. is_live t.status)
        (update_where (λ t. is_live t.status) (λ t. record t { status = stale }) ts)
      ≡ false
unfolding any update_where
none_live [] = refl
none_live (t ∷ ts) = ground (arith, none_live ts)

-- No tunnel is shown as live, and the list is shown as unavailable.
pub record IsMarked (db : Db) : Type 0 where
  pub unavailable : db.sync.available ≡ false
  pub none_up : any (λ (t : ActiveTunnel). is_live t.status) db.tunnels ≡ false

-- What a mark leaves.
abbrev marked : Time → Db → Db
marked now db = record db {
  tunnels = update_where (λ t. is_live t.status) (λ t. record t { status = stale }) db.tunnels;
  sync = record db.sync { available = false; last_error_at = some now };
}

give_up-db : (now : Time) (w : World) → w.faults ≡ [] → (give_up now w).1.db ≡ marked now w.db
unfolding give_up mark_unavailable modify ◌>>=◌ attempt stored
give_up-db now w calm =
    ap (λ fs. (transact (next_fault fs) (mark_unavailable now) (rest_of w)).1.db) calm

give_up-IsMarked : (now : Time) (w : World) → w.faults ≡ [] → IsMarked (give_up now w).1.db
give_up-IsMarked now w calm =
    subst IsMarked (sym (give_up-db now w calm))
      (record { unavailable = refl; none_up = none_live w.db.tunnels })

round-ends :
    (s : TunnelSnapshot) (now : Time) (w : World)
    → w.faults ≡ []
    → {r : Result (Unit {0} × Db)} → reconcile_snapshot s now w.db ≡ r
    → sync_round (some s) now w ≡ continue (reify (settle (rest_of w) r)) (unless_synced now)
unfolding sync_round ◌>>=◌ attempt stored
round-ends s now w calm e =
    ap
      (λ fs.
        continue (reify (transact (next_fault fs) (reconcile_snapshot s now) (rest_of w)))
          (unless_synced now))
      calm
    ∙ ap (λ x. continue (reify (settle (rest_of w) x)) (unless_synced now)) e

-- Where no call of the store fails, a round either has a snapshot of sish and leaves the database in
-- which that snapshot has been reconciled, or leaves no tunnel live and the list unavailable: where
-- sish does not answer, and where its snapshot is refused.
pub sync_round-IsMarked :
    (o : Option TunnelSnapshot) (now : Time) (w : World)
    → w.faults ≡ []
    → ((s : TunnelSnapshot) × (o ≡ some s)
        × (reconcile_snapshot s now w.db ≡ ok (tt, (sync_round o now w).1.db)))
      ⊎ IsMarked (sync_round o now w).1.db
unfolding sync_round done
sync_round-IsMarked none now w calm = inr (give_up-IsMarked now w calm)
sync_round-IsMarked (some s) now w calm = go (reconcile_snapshot s now w.db) refl
  where
    go :
        (r : Result (Unit {0} × Db))
        → reconcile_snapshot s now w.db ≡ r
        → ((t : TunnelSnapshot) × (◌≡◌ {A = Option TunnelSnapshot} (some s) (some t))
            × (reconcile_snapshot t now w.db ≡ ok (tt, (sync_round (some s) now w).1.db)))
          ⊎ IsMarked (sync_round (some s) now w).1.db
    go (ok (u, db)) e =
        let ends = round-ends s now w calm e in
        inl (s, refl, e ∙ ap (λ (x : Result (Unit {0}) × World). ok (tt, x.1.db)) (sym ends))
    go (err x) e =
        let ends = round-ends s now w calm e in
        let calm_rest : (rest_of w).faults ≡ [] = ap later_faults calm in
        inr (
          subst (λ (x : Result (Unit {0}) × World). IsMarked x.1.db) (sym ends)
            (give_up-IsMarked now (rest_of w) calm_rest))
