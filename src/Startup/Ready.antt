-- ===== src/Startup/Ready.antt =====
-- What is in place when `main` of app/cmd/control-plane/main.go starts its servers.
use tunnel_service.Prelude.{
  ◌≡◌, refl, subst, inl, inr, Text, String, Option, none, some, Bool-cases,
}
use tunnel_service.Model.{Time, Result, ok, err}
use tunnel_service.Service.World.{World}
use tunnel_service.Service.PublicKey.{Ssh, validate_public_key}
use tunnel_service.Config.{Config, Loaded, refused, loaded, load}
use tunnel_service.Config.Sound.{IsSound, load-IsSound}
use tunnel_service.Sish.{SishClient, new_sish_client}
use tunnel_service.Startup.{
  Host, Started, serving, not_registered, not_reconciled, auth_not_cleaned, telemetry_not_cleaned,
  prepare, with_valid_key, with_key_file, with_sish, with_config, start,
}
use tunnel_service.Startup.Prepared.{or_exit-parts, IsPrepared, in_order}

module _ {K : Type 0} (ssh : Ssh K) (o : Host) (now : Time) where
  -- The configuration is sound, sish's management API is at a loopback address, and the system key of
  -- the file is valid; the rest is prepared with it.
  pub record IsReady (cfg : Config) (sish : SishClient) (after : World) : Type 0 where
    pub sound : IsSound o.platform cfg
    pub sish_local :
        new_sish_client o.platform cfg.sish_management_url cfg.sish_management_token_file
        ≡ some sish
    pub key_file : Text
    pub key_read : o.platform.read_file cfg.system_public_key_file ≡ some key_file
    pub key : Text
    pub fingerprint : String
    pub key_valid : validate_public_key ssh key_file ≡ ok (key, fingerprint)
    pub prepared : IsPrepared now cfg.control_plane_subdomain key fingerprint after.db after.files

  prepare-IsPrepared :
      (cfg cfg' : Config) (sish sish' : SishClient) (key : Text) (fp : String) (w w' : World)
      → prepare ssh o now cfg sish key fp w ≡ (serving cfg' sish', w')
      → (cfg ≡ cfg')
        × (sish ≡ sish')
        × IsPrepared now cfg.control_plane_subdomain key fp w'.db w'.files
  unfolding prepare
  prepare-IsPrepared cfg cfg' sish sish' key fp w w' h =
      let (u1, w1, p1, q1) = or_exit-parts not_registered _ _ cfg' sish' w' h in
      let (u2, w2, p2, q2) = or_exit-parts not_reconciled _ _ cfg' sish' w' q1 in
      let (u3, w3, p3, q3) = or_exit-parts auth_not_cleaned _ _ cfg' sish' w' q2 in
      let (u4, w4, p4, q4) = or_exit-parts telemetry_not_cleaned _ _ cfg' sish' w' q3 in
      let (same_cfg, same_sish, same) = served q4 in
      (
        same_cfg,
        same_sish,
        subst (λ v. IsPrepared now cfg.control_plane_subdomain key fp v.db v.files) same
            (in_order now cfg.control_plane_subdomain key fp w w1 w2 w3 w4 p1 p2 p3 p4),
      )
    where
      served :
          {a b : Config} {s t : SishClient} {v v' : World}
          → ◌≡◌ {A = Started × World} (serving a s, v) (serving b t, v')
          → (a ≡ b) × (s ≡ t) × (v ≡ v')
      served e = (cc, cc, cc)

  -- The four ways on to `prepare`; what each has found is kept.
  with_valid_key-parts :
      (cfg cfg' : Config) (sish sish' : SishClient) (v : Result (Text × String)) (w w' : World)
      → with_valid_key ssh o now cfg sish v w ≡ (serving cfg' sish', w')
      → (key : Text) × (fp : String) × (v ≡ ok (key, fp))
        × (cfg ≡ cfg')
        × (sish ≡ sish')
        × IsPrepared now cfg.control_plane_subdomain key fp w'.db w'.files
  with_valid_key-parts cfg cfg' sish sish' (err e) w w' h = cc
  with_valid_key-parts cfg cfg' sish sish' (ok (key, fp)) w w' h =
      let (same, client, left) = prepare-IsPrepared cfg cfg' sish sish' key fp w w' h in
      (key, fp, refl, same, client, left)

  with_key_file-IsReady :
      (cfg cfg' : Config) (sish sish' : SishClient) (f : Option Text) (w w' : World)
      → IsSound o.platform cfg
      → new_sish_client o.platform cfg.sish_management_url cfg.sish_management_token_file
        ≡ some sish
      → o.platform.read_file cfg.system_public_key_file ≡ f
      → with_key_file ssh o now cfg sish f w ≡ (serving cfg' sish', w')
      → (cfg ≡ cfg') × (sish ≡ sish') × IsReady cfg sish w'
  with_key_file-IsReady cfg cfg' sish sish' none w w' sound local read h = cc
  with_key_file-IsReady cfg cfg' sish sish' (some text) w w' sound local read h =
      let (key, fp, valid, same, client, left) =
        with_valid_key-parts cfg cfg' sish sish' (validate_public_key ssh text) w w' h in
      (
        same,
        client,
        record {
          sound = sound;
          sish_local = local;
          key_file = text;
          key_read = read;
          key = key;
          fingerprint = fp;
          key_valid = valid;
          prepared = left;
        },
      )

  with_sish-IsReady :
      (cfg cfg' : Config) (sish' : SishClient) (c : Option SishClient) (w w' : World)
      → IsSound o.platform cfg
      → new_sish_client o.platform cfg.sish_management_url cfg.sish_management_token_file ≡ c
      → with_sish ssh o now cfg c w ≡ (serving cfg' sish', w')
      → IsReady cfg' sish' w'
  with_sish-IsReady cfg cfg' sish' none w w' sound local h = cc
  with_sish-IsReady cfg cfg' sish' (some sish) w w' sound local h =
      let (same, client, ready) =
        with_key_file-IsReady cfg cfg' sish sish' _ w w' sound local refl h in
      subst (λ c. IsReady c sish' w') same (subst (λ s. IsReady cfg s w') client ready)

  -- Whatever calls of the store and the file system fail, a start that gets as far as its servers has
  -- a sound configuration and a management API at a loopback address; the valid key of the system key
  -- file is enabled and owns the control plane's subdomain; the key files are those of the authorized
  -- keys, one for each; and no session and no OAuth state has expired.
  pub start-IsReady :
      (w w' : World) (cfg : Config) (sish : SishClient)
      → start ssh o now w ≡ (serving cfg sish, w')
      → IsReady cfg sish w'
  unfolding start
  start-IsReady w w' cfg sish h = go (load o.platform) refl h
    where
      go :
          (l : Loaded)
          → load o.platform ≡ l
          → with_config ssh o now l w ≡ (serving cfg sish, w')
          → IsReady cfg sish w'
      go (refused r) e k = cc
      go (loaded c) e k = elim (Bool-cases (o.mkdir_all (o.dir c.database_path))) [
        | inr off ↦ let bad = rw off at k in cc
        | inl on ↦ elim (Bool-cases (o.open_store c.database_path)) [
          | inr shut ↦ let bad = rw (on, shut) at k in cc
          | inl opened ↦
              with_sish-IsReady c cfg sish _ w w' (load-IsSound o.platform c e) refl
                (rw (on, opened) at k)
        ]
      ]
