-- ===== src/Service/Republish.antt =====
-- What a delayed `pubkey.write` event does: app/internal/service/outbox.go.
use tunnel_service.Prelude.{
  ℕ, ◌<◌, ◌≡◌, refl, ap, ◌∙◌, Text, true, false, some, List, [], arith, any, ◌==◌,
}
use tunnel_service.Model.{Error, Payload, Kind, SshKey, ok}
use tunnel_service.Store.Tx.{demand, found}
use tunnel_service.Store.Keys.{key_by_id}
use tunnel_service.Service.World.{
  World, KeyFile, stored, attempt, filed, ◌>>=◌, continue, reify, settle,
}
use tunnel_service.Service.KeyFiles.{is_file, with_file, write_file}
use tunnel_service.Service.Worker.{Controller, process, with_row}

pub with_file-has :
    (k : SshKey) (fs : List KeyFile) → any (is_file k.user_id k.id) (with_file k fs) ≡ true
unfolding with_file is_file any
with_file-has k fs = ground arith

-- The world without faults to come.
abbrev pub calm : World → World
calm w = record w { faults = [] }

stored-row :
    (id : ℕ) (w : World) {k : SshKey}
    → key_by_id id w.db ≡ some k
    → attempt (stored (demand (key_by_id id))) (calm w) ≡ (ok (ok k), calm w)
unfolding attempt stored demand
stored-row id w e = ap (λ o. reify (settle (calm w) (found o w.db))) e

write_file-calm :
    (k : SshKey) (w : World)
    → 0 < k.id
    → 0 < k.user_id
    → write_file k (calm w) ≡ (ok tt, calm (record w { files = with_file k w.files }))
unfolding write_file filed
write_file-calm k w a b = rw (nonzero k.id a, nonzero k.user_id b) refl
  where
    nonzero : (n : ℕ) → 0 < n → (n == 0) ≡ false
    nonzero n h = ground arith

module _ (to_lower : ℕ → ℕ) (domain : Text) (message : Error → Text) (tunnels : Controller) where
  -- A `pubkey.write` event that meets no fault puts the file of its key in place, if the key's row
  -- is still there: the event does not read whether the key is enabled or its owner active.
  pub write_event-publishes :
      (p : Payload) (w : World) (k : SshKey)
      → key_by_id p.key_id w.db ≡ some k
      → 0 < k.id
      → 0 < k.user_id
      → (after : World) × (process to_lower domain message tunnels Kind.pubkey_write p (calm w)
          ≡ (ok tt, after))
        × (after.db ≡ w.db)
        × (any (is_file k.user_id k.id) after.files ≡ true)
  unfolding process ◌>>=◌
  write_event-publishes p w k e a b = (
    calm (record w { files = with_file k w.files }),
    ap (λ r. continue r (λ q. with_row q write_file)) (stored-row p.key_id w e)
        ∙ write_file-calm k w a b,
    refl,
    with_file-has k w.files,
  )
