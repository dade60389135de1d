-- ===== src/Web/Internal.antt =====
-- The internal API of app/internal/web/internal.go, which sish calls. A body is `none` where
-- `decodeJSON` refuses it. A fault of SQLite in a handler is not modelled.
pub mod Errors
use tunnel_service.Prelude.{
  ℕ, ◌/◌, String, Text, codes, text_eq, Bool, true, false, not, ◌&&◌, ◌||◌, Option, none, some,
  List, [], ◌∷◌, ◌==◌, any, ltb, length, if◌then◌else◌, ℤ, pos, negsuc, is_negative, str_eq, map,
}
use tunnel_service.Model.{
  Time, Protocol, http, https, tls, tcp, unknown, is_web, is_tcp, ActiveTunnel, live, BoundKey,
  Result, ok, err,
}
use tunnel_service.Store.Db.{Db}
use tunnel_service.Store.Tx.{Tx}
use tunnel_service.Store.Bind.{authorize_bind}
use tunnel_service.Store.Tunnels.{apply_connect, apply_disconnect}
use tunnel_service.Store.Telemetry.{add_telemetry_batch}
use tunnel_service.Service.Names.{trim_space, byte_length}
use tunnel_service.Web.Host.{canonical_host}

pub record BindAuthorization : Type 0 where
  pub fingerprint : String
  pub protocol : Text
  pub hostname : Text
  pub port : ℤ

-- `connected_at` is `none` for the zero time.
pub record TunnelEvent : Type 0 where
  pub event_id : String
  pub source_id : String
  pub id : String
  pub user_id : ℤ
  pub key_id : ℤ
  pub generation : ℤ
  pub sequence : ℤ
  pub protocol : Text
  pub hostname : Text
  pub source_ip : String
  pub port : ℤ
  pub connected_at : Option Time

pub record DisconnectEvent : Type 0 where
  pub event_id : String
  pub source_id : String
  pub sequence : ℤ
  pub disconnected_at : Option Time

-- The members of a JSON object, each name once.
pub record TelemetryEvent : Type 0 where
  pub event_id : String
  pub events : List (String × ℤ)

-- `elsewhere` is every other request, on a path of the API or not.
pub data Endpoint : Type 0 where
  authorize : Option BindAuthorization → Endpoint
  connect : Option TunnelEvent → Endpoint
  disconnect : String → Option DisconnectEvent → Endpoint
  telemetry : Option TelemetryEvent → Endpoint
  elsewhere : Bool → Endpoint

-- What an allowed bind answers.
pub record Grant : Type 0 where
  pub user_id : ℕ
  pub key_id : ℤ
  pub generation : ℕ
  pub hostname : Text

pub data Response : Type 0 where
  status : ℕ → Response
  allowed : Grant → Response

-- `strings.ToLower`, and the names that the store tells apart.
unfoldable pub parse_protocol : (ℕ → ℕ) → Text → Protocol
parse_protocol to_lower s =
    let name = map to_lower s in
    if text_eq name (codes "http")
    then http
    else if text_eq name (codes "https")
    then https
    else if text_eq name (codes "tls")
    then tls
    else if text_eq name (codes "tcp")
    then tcp
    else unknown

-- A number of the store's columns. A negative port is given one that the columns refuse too.
abbrev pub wire_port : ℤ → ℕ
wire_port (pos n) = n
wire_port (negsuc n) = 65536

abbrev pub natural : ℤ → ℕ
natural (pos n) = n
natural (negsuc n) = 0

abbrev pub is_positive : ℤ → Bool
is_positive (pos n) = ltb 0 n
is_positive (negsuc n) = false

abbrev pub is_zero : ℤ → Bool
is_zero (pos n) = n == 0
is_zero (negsuc n) = false

abbrev pub or_now : Time → Option Time → Time
or_now now none = now
or_now now (some t) = t

-- A store call whose error is one status.
abbrev pub answer : {A : Type 0} → Db → ℕ → (A → Response) → Result (A × Db) → Response × Db
answer db failed f (ok (a, db')) = (f a, db')
answer db failed f (err e) = (status failed, db)

unfoldable pub granted : Text → BoundKey × ℕ → Response
granted fqdn (k, g) =
    allowed (record { user_id = k.user_id; key_id = k.id; generation = g; hostname = fqdn })

-- The label and the full name that a protocol goes on with: none of a host over TCP, and the empty
-- texts of a host that is not valid.
abbrev pub names_for : Protocol → Option (Text × Text) → Text × Text
names_for tcp host = ([], [])
names_for p none = ([], [])
names_for p (some host) = host

abbrev pub has_host : Option (Text × Text) → Bool
has_host none = false
has_host (some host) = true

unfoldable pub authorize_at :
    BindAuthorization → Protocol → Option (Text × Text) → Db → Response × Db
unfolding granted
authorize_at q protocol host db =
    let (label, fqdn) = names_for protocol host in
    if not (has_host host) && is_web protocol
    then (status 403, db)
    else answer db 403 (granted fqdn)
        (authorize_bind q.fingerprint label protocol (wire_port q.port) db)

unfoldable pub tunnel_of : TunnelEvent → Protocol → Text → Time → ActiveTunnel
tunnel_of e protocol fqdn now = record {
  id = e.id;
  user_id = natural e.user_id;
  ssh_key_id = e.key_id;
  protocol = protocol;
  hostname = fqdn;
  source_ip = e.source_ip;
  status = live;
  tcp_port = wire_port e.port;
  generation = natural e.generation;
  event_sequence = natural e.sequence;
  connected_at = or_now now e.connected_at;
  disconnected_at = none;
}

abbrev pub no_content : Unit {0} → Response
no_content tt = status 204

unfoldable pub connect_at :
    TunnelEvent → Protocol → Option (Text × Text) → Time → Db → Response × Db
unfolding tunnel_of
connect_at e protocol host now db =
    let (label, fqdn) = names_for protocol host in
    if not (has_host host) && not (is_tcp protocol)
    then (status 400, db)
    else answer db 503 no_content
        (apply_connect (tunnel_of e protocol fqdn now) label e.source_id e.event_id db)

unfoldable pub is_event : TunnelEvent → Bool
is_event e = not (
    str_eq e.event_id ""
    || str_eq e.source_id ""
    || str_eq e.id ""
    || is_negative e.user_id
    || is_zero e.key_id
    || not (is_positive e.generation)
    || not (is_positive e.sequence))

unfoldable pub is_closing : DisconnectEvent → Bool
is_closing q = not (str_eq q.event_id "" || str_eq q.source_id "" || not (is_positive q.sequence))

abbrev pub known_events : List String
known_events =
    "unknown_host" ∷ "rate_limited" ∷ "temporarily_blocked" ∷ "connection_limited"
    ∷ "authorization_denied" ∷ []

unfoldable pub is_count : String × ℤ → Bool
is_count (k, n) =
    any (λ e. str_eq e k) known_events && is_positive n && not (ltb 1_000_000 (natural n))

abbrev pub all_counts : List (String × ℤ) → Bool
all_counts [] = true
all_counts (e ∷ es) = is_count e && all_counts es

unfoldable pub is_telemetry : TelemetryEvent → Bool
unfolding is_count
is_telemetry q =
    not (str_eq q.event_id "" || length q.events == 0 || ltb 16 (length q.events))
    && all_counts q.events

abbrev pub to_counts : List (String × ℤ) → List (String × ℕ)
to_counts [] = []
to_counts ((k, n) ∷ es) = (k, natural n) ∷ to_counts es

abbrev pub second : ℕ
second = 1_000_000_000

module _ (to_lower : ℕ → ℕ) (domain : Text) (now : Time) where
  unfoldable pub handle : Endpoint → Db → Response × Db
  unfolding authorize_at connect_at is_event is_closing is_telemetry
  handle (authorize none) db = (status 400, db)
  handle (authorize (some q)) db =
      authorize_at q (parse_protocol to_lower q.protocol)
        (canonical_host to_lower q.hostname domain) db
  handle (connect none) db = (status 400, db)
  handle (connect (some e)) db =
      if is_event e
      then connect_at e (parse_protocol to_lower e.protocol)
          (canonical_host to_lower e.hostname domain) now db
      else (status 400, db)
  handle (disconnect id none) db = (status 400, db)
  handle (disconnect id (some q)) db =
      if is_closing q
      then answer db 503 no_content (
          apply_disconnect id q.source_id q.event_id (natural q.sequence)
            (or_now now q.disconnected_at) db)
      else (status 400, db)
  handle (telemetry none) db = (status 400, db)
  handle (telemetry (some q)) db =
      if is_telemetry q
      then answer db 503 no_content
          (add_telemetry_batch q.event_id (now / second) (to_counts q.events) db)
      else (status 400, db)
  handle (elsewhere known) db = (status (if known then 405 else 404), db)

-- What `protect` reads of a request: whether the peer's address is loopback, the token file, and the
-- header without its prefix "Bearer ".
pub record Caller : Type 0 where
  pub loopback : Bool
  pub token_file : Option Text
  pub token : Text

abbrev pub check_token : Option Text → Text → Option ℕ
check_token none got = some 503
check_token (some file) got =
    let want = trim_space file in
    if ltb (byte_length want) 32 || not (text_eq got want) then some 401 else none

unfoldable pub refusal : Caller → Option ℕ
refusal c = if c.loopback then check_token c.token_file c.token else some 403

abbrev pub pass_or : Option ℕ → (Db → Response × Db) → Db → Response × Db
pass_or none next db = next db
pass_or (some code) next db = (status code, db)

unfoldable pub protect : Caller → (Db → Response × Db) → Db → Response × Db
unfolding refusal
protect c next db = pass_or (refusal c) next db

unfoldable pub serve : (ℕ → ℕ) → Text → Time → Caller → Endpoint → Db → Response × Db
unfolding protect
serve to_lower domain now c e = protect c (handle to_lower domain now e)
