-- ===== src/Process/Tests.antt =====
-- A run of the process in a concrete world.
use tunnel_service.Prelude.{Text, codes, true, false, none, some, [], ◌∷◌}
use tunnel_service.Model.{User, SshKey, ok, user, active}
use tunnel_service.Store.Db.{fresh}
use tunnel_service.Service.World.{World}
use tunnel_service.Service.Worker.{Controller}
use tunnel_service.Web.Session.{Request, Form, Current}
use tunnel_service.Process.{Parts}

abbrev parts : Parts
parts = record {
  key_type = Text;
  ssh = record {
    parse_authorized_key = λ s. none;
    marshal_authorized_key = λ s. s;
    fingerprint_sha256 = λ s. "";
  };
  to_lower = λ c. c;
  dns = λ name. ok false;
  control_plane = codes "console";
  domain = codes "example.test";
  message = λ e. codes "failed";
  sha = λ s. s;
  hash = λ s. s;
  path_escape = λ s. s;
  admins = λ id. false;
}

abbrev frank : User
frank = record {
  id = 1;
  discord_id = "100";
  username = "frank";
  display_name = "Frank";
  email = "";
  avatar_url = "";
  role = user;
  status = active;
}

abbrev franks_key : SshKey
franks_key = record {
  id = 3;
  user_id = 1;
  name = codes "laptop";
  public_key = codes "ssh-ed25519 FRANK";
  fingerprint = "SHA256:f";
  enabled = true;
}

abbrev with_frank : World
with_frank = record {
  db = record fresh { users = frank ∷ []; ssh_keys = franks_key ∷ [] };
  files = record { user_id = 1; key_id = 3; content = [] } ∷ [];
  faults = [];
}

abbrev request : Request
request = record {
  session = some "h";
  form = none;
  source_ip = "192.0.2.1";
  wants_json = true;
  now = 5;
}

abbrev empty_form : Form
empty_form = record { csrf_token = ""; action = []; name = []; public_key = []; port = [] }

abbrev franks : Current
franks = record { user = frank; csrf = "" }

abbrev silent : Controller
silent = record {
  drop_key = λ id g. ok tt;
  drop_user = λ id g. ok tt;
  drop_host = λ host g. ok tt;
  drop_port = λ port g. ok tt;
}
