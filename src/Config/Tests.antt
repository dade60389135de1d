-- ===== src/Config/Tests.antt =====
-- `Load` of app/internal/config/config.go in concrete environments.
use tunnel_service.Prelude.{
  ℕ, ℤ, pos, negsuc, ◌≡◌, ◌⊎◌, refl, inl, inr, arith, String, str_eq, Text, codes, text_eq,
  text_eq→eq, lower, Bool, true, false, Option, none, some, List, [], ◌∷◌, ◌++◌, if◌then◌else◌,
  Bool-cases,
}
use tunnel_service.Config.{
  Platform, ParsedUrl, Config, refused, loaded, load, short_secret, host_mismatch, port_not_numeric,
  read_config,
}
use tunnel_service.Config.Values.{atoi, parse_bool, csv_set}

abbrev lookup : List (String × String) → String → Text
lookup [] k = []
lookup ((key, value) ∷ rest) k =
    let other = lookup rest k in if str_eq key k then codes value else other

abbrev pub settings : List (String × String)
settings =
    ("SISH_SSH_PORT", "2222")
    ∷ ("COOKIE_SECURE", "true")
    ∷ ("TUNNEL_DOMAIN", "example.test")
    ∷ ("SSH_HOST", "ssh.example.test")
    ∷ ("CONTROL_PLANE_SUBDOMAIN", " Console ")
    ∷ ("CONTROL_PLANE_HOST", "console.example.test:443")
    ∷ ("DISCORD_CLIENT_ID", "42")
    ∷ ("DISCORD_CLIENT_SECRET", "hidden")
    ∷ ("DISCORD_REDIRECT_URI", "https://console.example.test/cb")
    ∷ ("SESSION_SECRET", "0123456789abcdef0123456789abcdef")
    ∷ ("ADMIN_DISCORD_IDS", "100, ,200")
    ∷ []

abbrev pub callback : ParsedUrl
callback = record {
  scheme = codes "HTTPS";
  hostname = codes "console.example.test";
  path = codes "/cb";
}

abbrev management : ParsedUrl
management = record { scheme = codes "http"; hostname = codes "127.0.0.1"; path = [] }

abbrev parse_sample : Text → Option ParsedUrl
parse_sample s =
    if text_eq s (codes "https://console.example.test/cb")
    then some callback
    else if text_eq s (codes "http://127.0.0.1:8082")
    then some management
    else none

abbrev local_addr : Text
local_addr = codes "127.0.0.1:8081"

abbrev public_addr : Text
public_addr = codes "console.example.test:443"

abbrev split_sample : Text → Option (Text × Text)
split_sample s =
    if text_eq s local_addr
    then some (codes "127.0.0.1", codes "8081")
    else if text_eq s public_addr
    then some (codes "console.example.test", codes "443")
    else none

abbrev system_key_text : Text
system_key_text = codes "ssh-ed25519 SYSTEM"

abbrev read_sample : Text → Option Text
read_sample s =
    if text_eq s (codes "../secrets/control-plane-tunnel-key.pub")
    then some system_key_text
    else none

abbrev pub platform_of : List (String × String) → Platform
platform_of values = record {
  getenv = lookup values;
  read_file = read_sample;
  parse_url = parse_sample;
  split_host_port = split_sample;
  is_loopback_ip = λ s. text_eq s (codes "127.0.0.1");
  to_lower = lower;
  fold = lower;
}

abbrev pub sample_platform : Platform
sample_platform = platform_of settings

unfoldable pub sample_config : Config
sample_config = read_config sample_platform (pos 2222) true

pick :
    (s t a b h p : Text) (other : Option (Text × Text))
    → if◌then◌else◌ {A = Option (Text × Text)} (text_eq s t) (some (a, b)) other ≡ some (h, p)
    → ((s ≡ t) × (a ≡ h) × (b ≡ p)) ⊎ (other ≡ some (h, p))
pick s t a b h p other e = elim (Bool-cases (text_eq s t)) [
  | inl on ↦ inl (text_eq→eq s t on, cc, cc)
  | inr off ↦ inr (rw off at e)
]

whole_of :
    (s t a b h p : Text) → t ≡ a ++ (b':' ∷ b) → (s ≡ t) × (a ≡ h) × (b ≡ p) → s ≡ h ++ (b':' ∷ p)
whole_of s t a b h p form (whole, host, port) = cc

pub split_sample-IsSplit :
    (s h p : Text)
    → sample_platform.split_host_port s ≡ some (h, p)
    → (s ≡ h ++ (b':' ∷ p)) ⊎ (s ≡ b'[' ∷ (h ++ (b']' ∷ b':' ∷ p)))
split_sample-IsSplit s h p e = elim (pick s local_addr (codes "127.0.0.1") (codes "8081") h p _ e) [
  | inl parts ↦ inl (whole_of s local_addr (codes "127.0.0.1") (codes "8081") h p refl parts)
  | inr k ↦ elim (pick s public_addr (codes "console.example.test") (codes "443") h p none k) [
    | inl parts ↦
        inl (whole_of s public_addr (codes "console.example.test") (codes "443") h p refl parts)
    | inr l ↦ absurd (no_split l)
  ]
]
  where
    no_split : ◌≡◌ {A = Option (Text × Text)} none (some (h, p)) → ⊥
    no_split l = cc

load_secret : load (platform_of (("SESSION_SECRET", "short") ∷ settings)) ≡ refused short_secret
unfolding load atoi tunnel_service.Service.Names.all parse_bool tunnel_service.Prelude.any text_eq
    tunnel_service.Service.Names.trim_space tunnel_service.Service.Names.byte_length lower
load_secret = refl

load_host :
    load (platform_of (("CONTROL_PLANE_HOST", "other.example.test") ∷ settings))
    ≡ refused host_mismatch
unfolding load atoi tunnel_service.Service.Names.all parse_bool tunnel_service.Prelude.any text_eq
    tunnel_service.Service.Names.trim_space tunnel_service.Service.Names.byte_length lower
    tunnel_service.Service.Worker.trim_dot
load_host = refl

load_port : load (platform_of (("SISH_SSH_PORT", "22a") ∷ settings)) ≡ refused port_not_numeric
unfolding load atoi tunnel_service.Service.Names.all
load_port = refl

pub load_all : load sample_platform ≡ loaded sample_config
unfolding load atoi tunnel_service.Service.Names.all parse_bool tunnel_service.Prelude.any text_eq
    tunnel_service.Service.Names.trim_space tunnel_service.Service.Names.byte_length lower
    tunnel_service.Service.Worker.trim_dot sample_config
load_all = refl

atoi_negative : atoi (codes "-5") ≡ some (negsuc 4)
unfolding atoi tunnel_service.Service.Names.all
atoi_negative = refl

csv_set_blank : csv_set (codes "100, ,200") ≡ (codes "100" ∷ codes "200" ∷ [])
unfolding csv_set tunnel_service.Service.Names.trim_space
csv_set_blank = refl
