-- ===== src/Config.antt =====
-- app/internal/config/config.go: the configuration that `Load` reads from the environment, and its
-- checks. `Platform` is what Load uses of the packages os, net, net/url and unicode.
pub mod Sound
pub mod Tests
pub mod Values
use tunnel_service.Prelude.{
  ℕ, zero, ◌+◌, ◌-◌, ◌*◌, ◌^◌, ℤ, pos, negate, String, Text, codes, text_eq, Bool, true, false, not,
  ◌&&◌, ◌||◌, Option, none, some, List, [], ◌∷◌, map, any, ltb, ◌==◌, if◌then◌else◌,
}
use tunnel_service.Service.Names.{
  trim_space, byte_length, all, is_digit, between, starts_with_dash, ends_with_dash, lower_name,
}
use tunnel_service.Service.Worker.{trim_dot}
use tunnel_service.Service.Resources.{empty}
use tunnel_service.Config.Values.{atoi, parse_bool, valid_label, csv_set}

-- What `url.Parse` gives of a URL.
pub record ParsedUrl : Type 0 where
  pub scheme : Text
  pub hostname : Text
  pub path : Text

-- `os.Getenv`, with the empty text for a variable that is not set; `os.ReadFile`, `none` for an
-- error; `url.Parse`; `net.SplitHostPort`; whether `net.ParseIP` reads a loopback address;
-- `unicode.ToLower`; and the letter that stands for all that `strings.EqualFold` takes for equal.
pub record Platform : Type 0 where
  pub getenv : String → Text
  pub read_file : Text → Option Text
  pub parse_url : Text → Option ParsedUrl
  pub split_host_port : Text → Option (Text × Text)
  pub is_loopback_ip : Text → Bool
  pub to_lower : ℕ → ℕ
  pub fold : ℕ → ℕ

pub record Config : Type 0 where
  pub addr : Text
  pub internal_addr : Text
  pub public_host : Text
  pub database_path : Text
  pub pub_keys_dir : Text
  pub internal_token_file : Text
  pub sish_management_url : Text
  pub sish_management_token_file : Text
  pub tunnel_domain : Text
  pub ssh_host : Text
  pub control_plane_subdomain : Text
  pub system_public_key_file : Text
  pub sish_ssh_port : ℤ
  pub discord_client_id : Text
  pub discord_client_secret : Text
  pub discord_redirect_uri : Text
  pub session_secret : Text
  pub cookie_secure : Bool
  pub admin_discord_ids : List Text
  pub vercel_token : Text

-- The errors of Load, one for each text.
pub data Refusal : Type 0 where
  port_not_numeric secure_not_boolean missing_domain missing_discord short_secret : Refusal
  exposed_internal no_callback_url no_https not_localhost host_mismatch public_not_localhost :
      Refusal

pub data Loaded : Type 0 where
  refused : Refusal → Loaded
  loaded : Config → Loaded

module _ (o : Platform) where
  -- `strings.EqualFold`
  unfoldable pub equal_fold : Text → Text → Bool
  equal_fold s t = text_eq (map o.fold s) (map o.fold t)

  unfoldable pub env : String → String → Text
  env k d = let v = o.getenv k in if empty v then codes d else v

  abbrev of_file : Option Text → Text
  of_file none = []
  of_file (some b) = trim_space b

  -- `file_variable` is the name of the variable with `_FILE` behind it.
  unfoldable pub secret : String → String → Text
  secret k file_variable =
      let file = trim_space (o.getenv file_variable) in
      if empty file then o.getenv k else of_file (o.read_file file)

  unfoldable pub is_loopback_host : Text → Bool
  unfolding equal_fold
  is_loopback_host host = equal_fold (trim_dot host) (codes "localhost") || o.is_loopback_ip host

  abbrev pub is_loopback_part : Option (Text × Text) → Bool
  is_loopback_part none = false
  is_loopback_part (some (host, port)) = is_loopback_host host

  unfoldable pub loopback_addr : Text → Bool
  unfolding is_loopback_host
  loopback_addr addr = is_loopback_part (o.split_host_port addr)

  unfoldable pub read_config : ℤ → Bool → Config
  unfolding env secret csv_set lower_name
  read_config port cookie_secure = record {
    addr = env "CONTROL_PLANE_ADDR" ":8080";
    internal_addr = env "CONTROL_PLANE_INTERNAL_ADDR" "127.0.0.1:8081";
    public_host = trim_space (o.getenv "CONTROL_PLANE_HOST");
    database_path = env "DATABASE_PATH" "../data/control-plane.db";
    pub_keys_dir = env "PUBKEYS_DIR" "../pubkeys";
    internal_token_file =
        env "CONTROL_PLANE_INTERNAL_TOKEN_FILE" "../secrets/control-plane-internal-token";
    sish_management_url = env "SISH_MANAGEMENT_URL" "http://127.0.0.1:8082";
    sish_management_token_file =
        env "SISH_MANAGEMENT_TOKEN_FILE" "../secrets/sish-management-token";
    tunnel_domain = trim_space (o.getenv "TUNNEL_DOMAIN");
    ssh_host = trim_space (o.getenv "SSH_HOST");
    control_plane_subdomain = lower_name o.to_lower (o.getenv "CONTROL_PLANE_SUBDOMAIN");
    system_public_key_file =
        env "CONTROL_PLANE_SYSTEM_PUBLIC_KEY_FILE" "../secrets/control-plane-tunnel-key.pub";
    sish_ssh_port = port;
    discord_client_id = o.getenv "DISCORD_CLIENT_ID";
    discord_client_secret = secret "DISCORD_CLIENT_SECRET" "DISCORD_CLIENT_SECRET_FILE";
    discord_redirect_uri = o.getenv "DISCORD_REDIRECT_URI";
    session_secret = secret "SESSION_SECRET" "SESSION_SECRET_FILE";
    cookie_secure = cookie_secure;
    admin_discord_ids = csv_set (o.getenv "ADMIN_DISCORD_IDS");
    vercel_token = secret "VERCEL_TOKEN" "VERCEL_TOKEN_FILE";
  }

  -- The host of `host:port`, or all of it where it cannot be split.
  abbrev pub host_part : Option (Text × Text) → Text → Text
  host_part none whole = whole
  host_part (some (host, port)) whole = host

  unfoldable pub check_public_host : Config → ParsedUrl → Loaded
  unfolding equal_fold is_loopback_host
  check_public_host c u =
      let host = trim_dot (host_part (o.split_host_port c.public_host) c.public_host) in
      if empty c.public_host
      then loaded c
      else if not (equal_fold host (trim_dot u.hostname))
      then refused host_mismatch
      else if not c.cookie_secure && not (is_loopback_host host)
      then refused public_not_localhost
      else loaded c

  unfoldable pub check_redirect : Config → Option ParsedUrl → Loaded
  unfolding check_public_host
  check_redirect c none = refused no_callback_url
  check_redirect c (some u) =
      if empty u.hostname || empty u.path
      then refused no_callback_url
      else if c.cookie_secure && not (equal_fold u.scheme (codes "https"))
      then refused no_https
      else if not c.cookie_secure
          && (not (equal_fold u.scheme (codes "http")) || not (is_loopback_host u.hostname))
      then refused not_localhost
      else check_public_host c u

  unfoldable pub check_config : Config → Loaded
  unfolding check_redirect loopback_addr valid_label
  check_config c =
      if empty c.tunnel_domain || empty c.ssh_host || not (valid_label c.control_plane_subdomain)
      then refused missing_domain
      else if empty c.discord_client_id
          || empty c.discord_client_secret
          || empty c.discord_redirect_uri
      then refused missing_discord
      else if ltb (byte_length c.session_secret) 32
      then refused short_secret
      else if not (loopback_addr c.internal_addr)
      then refused exposed_internal
      else check_redirect c (o.parse_url c.discord_redirect_uri)

  abbrev pub with_secure : ℤ → Option Bool → Loaded
  with_secure port none = refused secure_not_boolean
  with_secure port (some b) = check_config (read_config port b)

  abbrev pub with_ssh_port : Option ℤ → Loaded
  with_ssh_port none = refused port_not_numeric
  with_ssh_port (some port) = with_secure port (parse_bool (env "COOKIE_SECURE" "false"))

  unfoldable pub load : Loaded
  unfolding check_config read_config
  load = with_ssh_port (atoi (env "SISH_SSH_PORT" "2222"))
