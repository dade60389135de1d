-- ===== src/Sish.antt =====
-- app/internal/integration/sish.go: the client of the management API of sish. What net/http and
-- encoding/json do is the parameter `Transport`.
use tunnel_service.Prelude.{
  ℕ, ◌^◌, ℤ, String, Text, codes, text_eq, Bool, not, ◌||◌, Option, none, some, List, [], ◌∷◌, ◌++◌,
  take, ltb, ◌==◌, if◌then◌else◌,
}
use tunnel_service.Model.{Result, ok, err, storage, TunnelSnapshot}
use tunnel_service.Service.Names.{trim_space, byte_length}
use tunnel_service.Service.Worker.{Controller}
use tunnel_service.Config.{Platform, ParsedUrl, equal_fold}

pub record SishClient : Type 0 where
  pub base_url : Text
  pub token_file : Text

-- The body of POST /v1/disconnect; JSON leaves out a member that is zero or empty.
pub record DisconnectRequest : Type 0 where
  pub key_id : ℕ
  pub user_id : ℕ
  pub generation : ℕ
  pub hostname : Text
  pub port : ℕ
  pub tunnel_id : String

abbrev blank_request : ℕ → DisconnectRequest
blank_request generation = record {
  key_id = 0;
  user_id = 0;
  generation = generation;
  hostname = [];
  port = 0;
  tunnel_id = "";
}

pub data Method : Type 0 where
  get : Method
  post : DisconnectRequest → Method

pub record HttpAnswer : Type 0 where
  pub status : ℕ
  pub body : Text

-- Whether `http.NewRequestWithContext` takes the URL; `Client.Do` with the method, the URL and the
-- token; and `json.Decoder.Decode` of the two answers.
pub record Transport : Type 0 where
  pub takes_url : Text → Bool
  pub send : Method → Text → Text → Option HttpAnswer
  pub decode_snapshot : Text → Option TunnelSnapshot
  pub decode_metrics : Text → Option (List (String × ℤ))

-- `strings.TrimRight(s, "/")`
unfoldable pub trim_slashes_right : Text → Text
trim_slashes_right [] = []
trim_slashes_right (c ∷ s) = elim (trim_slashes_right s) [
  | [] ↦ if c == b'/' then [] else c ∷ []
  | d ∷ rest ↦ c ∷ d ∷ rest
]

unfoldable pub is_loopback : Platform → Text → Bool
is_loopback o host = equal_fold o host (codes "localhost") || o.is_loopback_ip host

unfoldable pub client_of : Platform → Text → Text → Option ParsedUrl → Option SishClient
unfolding is_loopback trim_slashes_right
client_of o base_url token_file none = none
client_of o base_url token_file (some u) =
    if not (text_eq u.scheme (codes "http")) || not (is_loopback o u.hostname)
    then none
    else some (record { base_url = trim_slashes_right base_url; token_file = token_file })

unfoldable pub new_sish_client : Platform → Text → Text → Option SishClient
unfolding client_of
new_sish_client o base_url token_file = client_of o base_url token_file (o.parse_url base_url)

abbrev max_answer : ℕ
max_answer = 2 ^ 20

module _ (o : Platform) (net : Transport) (c : SishClient) where
  abbrev long_enough : Option Text → Option Text
  long_enough none = none
  long_enough (some b) = let v = trim_space b in if ltb (byte_length v) 32 then none else some v

  unfoldable pub token : Option Text
  token = long_enough (o.read_file c.token_file)

  abbrev good_answer : Option HttpAnswer → Option Text
  good_answer none = none
  good_answer (some a) =
      if ltb a.status 200 || not (ltb a.status 300) then none else some (take max_answer a.body)

  abbrev with_token : Method → Text → Option Text → Option Text
  with_token m path none = none
  with_token m path (some v) = good_answer (net.send m (c.base_url ++ path) v)

  -- `do`, up to the body that it decodes; an error is none.
  unfoldable pub exchange : Method → Text → Option Text
  unfolding token
  exchange m path = if net.takes_url (c.base_url ++ path) then with_token m path token else none

  abbrev accepted : Option Text → Result (Unit {0})
  accepted none = err storage
  accepted (some body) = ok tt

  unfoldable pub disconnect : DisconnectRequest → Result (Unit {0})
  unfolding exchange
  disconnect r = accepted (exchange (post r) (codes "/v1/disconnect"))

  -- DisconnectKey, DisconnectUser, DisconnectHost and DisconnectPort
  unfoldable pub controller : Controller
  unfolding disconnect
  controller = record {
    drop_key = λ id g. disconnect (record (blank_request g) { key_id = id });
    drop_user = λ id g. disconnect (record (blank_request g) { user_id = id });
    drop_host = λ host g. disconnect (record (blank_request g) { hostname = host });
    drop_port = λ port g. disconnect (record (blank_request g) { port = port });
  }

  abbrev decoded : {A : Type 0} → (Text → Option A) → Option Text → Option A
  decoded decode none = none
  decoded decode (some body) = decode body

  unfoldable pub active : Option TunnelSnapshot
  unfolding exchange
  active = decoded net.decode_snapshot (exchange get (codes "/v1/tunnels"))

  unfoldable pub metrics : Option (List (String × ℤ))
  unfolding exchange
  metrics = decoded net.decode_metrics (exchange get (codes "/v1/metrics"))
