-- ===== src/Config/Sound.antt =====
-- What a configuration that `Load` of app/internal/config/config.go returns is good for.
use tunnel_service.Prelude.{
  ℕ, ◌≤◌, ◌≡◌, ◌≢◌, ◌⊎◌, refl, subst, ℤ, inl, inr, arith, Text, codes, Bool, true, false, not, ◌&&◌,
  ◌||◌, Option, none, some, [], ◌∷◌, ltb, if◌then◌else◌, Bool-cases,
}
use tunnel_service.Service.Names.{byte_length}
use tunnel_service.Service.Worker.{trim_dot}
use tunnel_service.Service.Resources.{empty}
use tunnel_service.Config.{
  Platform, ParsedUrl, Config, Loaded, refused, loaded, equal_fold, is_loopback_host,
  is_loopback_part, loopback_addr, host_part, check_public_host, check_redirect, check_config, env,
  Refusal, missing_domain, missing_discord, short_secret, exposed_internal, with_secure,
  with_ssh_port, read_config, load,
}
use tunnel_service.Config.Values.{valid_label, atoi}

module _ (o : Platform) where
  -- Cookies are secure behind HTTPS, and may be without it only for a browser on the same machine.
  abbrev pub IsTransport : Config → ParsedUrl → Type 0
  IsTransport c u =
      ((c.cookie_secure ≡ true) × (equal_fold o u.scheme (codes "https") ≡ true))
      ⊎ ((c.cookie_secure ≡ false)
          × (equal_fold o u.scheme (codes "http") ≡ true)
          × (is_loopback_host o u.hostname ≡ true))

  -- The public host, where it is set, is the host of the callback, which browsers can reach.
  abbrev pub IsPublic : Config → ParsedUrl → Type 0
  IsPublic c u =
      (c.public_host ≡ [])
      ⊎ (equal_fold o (trim_dot (host_part o (o.split_host_port c.public_host) c.public_host))
            (trim_dot u.hostname)
          ≡ true)

  pub record IsSound (c : Config) : Type 0 where
    pub domain : c.tunnel_domain ≢ []
    pub ssh_host : c.ssh_host ≢ []
    pub label : valid_label c.control_plane_subdomain ≡ true
    pub client : c.discord_client_id ≢ []
    pub secret : 32 ≤ byte_length c.session_secret
    pub internal_host : Text
    pub internal_port : Text
    pub internal : o.split_host_port c.internal_addr ≡ some (internal_host, internal_port)
    pub internal_local : is_loopback_host o internal_host ≡ true
    pub redirect : ParsedUrl
    pub redirect_read : o.parse_url c.discord_redirect_uri ≡ some redirect
    pub redirect_host : redirect.hostname ≢ []
    pub transport : IsTransport c redirect
    pub public : IsPublic c redirect

  empty_test : (s : Text) → empty s ≡ false → s ≢ []
  empty_test [] h = cc
  empty_test (c ∷ s) h = λ e. cc

  empty_text : (s : Text) → empty s ≡ true → s ≡ []
  empty_text [] h = refl
  empty_text (c ∷ s) h = cc

  or_false : (a b : Bool) → (a || b) ≡ false → (a ≡ false) × (b ≡ false)
  or_false a b h = ground arith

  unnegate : (b : Bool) → not b ≡ false → b ≡ true
  unnegate b h = ground arith

  -- A check that does not refuse.
  passed_if :
      (b : Bool) (r : Refusal) (rest : Loaded) {d : Config}
      → if◌then◌else◌ b (refused r) rest ≡ loaded d
      → (b ≡ false) × (rest ≡ loaded d)
  passed_if b r rest h = ground arith

  loaded_same : {c d : Config} → loaded c ≡ loaded d → c ≡ d
  loaded_same h = cc

  check_public_host-parts :
      (c : Config) (u : ParsedUrl) (d : Config)
      → check_public_host o c u ≡ loaded d
      → (c ≡ d) × IsPublic c u
  unfolding check_public_host
  check_public_host-parts c u d h = elim (Bool-cases (empty c.public_host)) [
    | inl e ↦ (loaded_same (rw e at h), inl (empty_text c.public_host e))
    | inr e ↦
        let (same, rest) = passed_if _ _ _ (rw e at h) in
        let (near, done) = passed_if _ _ _ rest in (loaded_same done, inr (unnegate _ same))
  ]

  checked-IsTransport :
      (c : Config) (u : ParsedUrl)
      → (c.cookie_secure && not (equal_fold o u.scheme (codes "https"))) ≡ false
      → (not c.cookie_secure
          && (not (equal_fold o u.scheme (codes "http")) || not (is_loopback_host o u.hostname)))
        ≡ false
      → IsTransport c u
  checked-IsTransport c u h k = elim (Bool-cases c.cookie_secure) [
    | inl e ↦ inl (e, ground arith)
    | inr e ↦ inr (e, ground arith, ground arith)
  ]

  -- What the checks of the redirect URI leave.
  check_redirect-parts :
      (c : Config) (p : Option ParsedUrl) (d : Config)
      → check_redirect o c p ≡ loaded d
      → (c ≡ d)
        × (u : ParsedUrl) × (p ≡ some u)
        × (u.hostname ≢ [])
        × IsTransport c u
        × IsPublic c u
  unfolding check_redirect
  check_redirect-parts c none d h = cc
  check_redirect-parts c (some u) d h =
      let (given, h1) = passed_if _ _ _ h in
      let (https, h2) = passed_if _ _ _ h1 in
      let (local, h3) = passed_if _ _ _ h2 in
      let (same, public) = check_public_host-parts c u d h3 in
      (
        same,
        u,
        refl,
        empty_test u.hostname (or_false _ _ given).0,
        checked-IsTransport c u https local,
        public,
      )

  is_loopback_part-some :
      (p : Option (Text × Text))
      → is_loopback_part o p ≡ true
      → (host : Text) × (port : Text) × (p ≡ some (host, port)) × (is_loopback_host o host ≡ true)
  is_loopback_part-some none h = cc
  is_loopback_part-some (some (host, port)) h = (host, port, refl, h)

  loopback_addr-parts :
      (addr : Text)
      → loopback_addr o addr ≡ true
      → (host : Text) × (port : Text) × (o.split_host_port addr ≡ some (host, port))
        × (is_loopback_host o host ≡ true)
  unfolding loopback_addr
  loopback_addr-parts addr h = is_loopback_part-some (o.split_host_port addr) h

  four_checks :
      (p q r s : Bool) (rest : Loaded) (d : Config)
      → (if p
          then refused missing_domain
          else if q
          then refused missing_discord
          else if r
          then refused short_secret
          else if s
          then refused exposed_internal
          else rest)
        ≡ loaded d
      → (p ≡ false) × (q ≡ false) × (r ≡ false) × (s ≡ false) × (rest ≡ loaded d)
  four_checks p q r s rest d h = ground arith

  check_config-IsSound : (c d : Config) → check_config o c ≡ loaded d → (c ≡ d) × IsSound c
  unfolding check_config
  check_config-IsSound c d h =
      let (names, clients, long, near, rest) =
        four_checks
          (empty c.tunnel_domain || empty c.ssh_host || not (valid_label c.control_plane_subdomain))
          (empty c.discord_client_id
            || empty c.discord_client_secret
            || empty c.discord_redirect_uri)
          (ltb (byte_length c.session_secret) 32) (not (loopback_addr o c.internal_addr))
          (check_redirect o c (o.parse_url c.discord_redirect_uri)) d h in
      let (same, u, read, host, transport, public) =
        check_redirect-parts c (o.parse_url c.discord_redirect_uri) d rest in
      let (others, label) = or_false _ _ names in
      let (domain, ssh) = or_false _ _ others in
      let (at_host, at_port, split, local) =
        loopback_addr-parts c.internal_addr (unnegate _ near) in
      (
        same,
        record {
          domain = empty_test c.tunnel_domain domain;
          ssh_host = empty_test c.ssh_host ssh;
          label = unnegate _ label;
          client = empty_test c.discord_client_id (or_false _ _ (or_false _ _ clients).0).0;
          secret = long_enough (byte_length c.session_secret) long;
          internal_host = at_host;
          internal_port = at_port;
          internal = split;
          internal_local = local;
          redirect = u;
          redirect_read = read;
          redirect_host = host;
          transport = transport;
          public = public;
        },
      )
    where
      long_enough : (n : ℕ) → ltb n 32 ≡ false → 32 ≤ n
      long_enough n e = ground arith

  pub load-IsSound : (c : Config) → load o ≡ loaded c → IsSound c
  unfolding load
  load-IsSound c h = with_port (atoi (env o "SISH_SSH_PORT" "2222")) h
    where
      with_flag : (port : ℤ) (s : Option Bool) → with_secure o port s ≡ loaded c → IsSound c
      with_flag port none e = cc
      with_flag port (some b) e =
          let (same, sound) = check_config-IsSound (read_config o port b) c e in
          subst (IsSound) same sound

      with_port : (p : Option ℤ) → with_ssh_port o p ≡ loaded c → IsSound c
      with_port none e = cc
      with_port (some port) e = with_flag port _ e
