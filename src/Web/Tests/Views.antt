-- ===== src/Web/Tests/Views.antt =====
-- The pages at concrete databases.
use tunnel_service.Prelude.{
  ◌≡◌, refl, ℤ, pos, Text, codes, Bool, true, false, Option, none, some, List, [], ◌∷◌, length,
}
use tunnel_service.Model.{User, Subdomain, user, active, Result, ok}
use tunnel_service.Store.Db.{Db, fresh}
use tunnel_service.Service.World.{World, fails_before, works}
use tunnel_service.Config.{Config}
use tunnel_service.Config.Tests.{sample_config}
use tunnel_service.Web.Session.{Current}
use tunnel_service.Web.Pages.{PageName}
use tunnel_service.Web.View.{view}
use tunnel_service.Web.View.Content.{Orders, Query}
use tunnel_service.Web.View.Dto.Types.{PageDto}
use tunnel_service.Web.View.Dto.{rendered}
use tunnel_service.Web.View.Only.{hide}
use tunnel_service.Web.View.Own.{view-only}

abbrev carol : User
carol = record {
  id = 1;
  discord_id = "100";
  username = "carol";
  display_name = "Carol";
  email = "";
  avatar_url = "";
  role = user;
  status = active;
}

abbrev dave : User
dave = record carol { id = 2; discord_id = "200"; username = "dave" }

abbrev blog : Subdomain
blog = record { id = 1; user_id = 1; name = codes "blog" }

abbrev shop : Subdomain
shop = record { id = 2; user_id = 2; name = codes "shop" }

abbrev shared : Db
shared = record fresh {
  users = carol ∷ dave ∷ [];
  subdomains = shop ∷ blog ∷ [];
  tcp_ports = record { id = 1; user_id = 1; port = 20000 } ∷ [];
}

abbrev as_stored : Orders
as_stored = record {
  keys = λ xs. xs;
  subdomains = λ xs. xs;
  tcp_ports = λ xs. xs;
  users = λ xs. xs;
  audit = λ xs. xs;
  tunnels = λ xs. xs;
  security = λ xs. xs;
}

abbrev plain_query : Query
plain_query = record { flash = codes "login"; error = []; page = [] }

abbrev no_record_at : Text → Result Bool
no_record_at name = ok false

abbrev carols : Current
carols = record { user = carol; csrf = "t" }

-- The second read, of the subdomains, fails in the second world.
abbrev shared_world : World
shared_world = record { db = shared; files = []; faults = [] }

abbrev faulty_world : World
faulty_world = record shared_world { faults = works ∷ fails_before ∷ [] }

abbrev command_of : Option PageDto → Text
command_of none = []
command_of (some d) = d.connect_command

dashboard_command :
    command_of (
      rendered
        (view as_stored no_record_at sample_config plain_query carols PageName.dashboard
          shared_world).0)
    ≡ codes "ssh -p 2222 -R blog:80:localhost:3000 ssh.example.test"
unfolding rendered view sample_config tunnel_service.Config.read_config
    tunnel_service.Service.World.stored tunnel_service.Store.Listing.subdomains_page
    tunnel_service.Prelude.select tunnel_service.Prelude.find
    tunnel_service.Service.Names.trim_space
dashboard_command = refl

dashboard_faulty :
    command_of (
      rendered
        (view as_stored no_record_at sample_config plain_query carols PageName.dashboard
          faulty_world).0)
    ≡ codes "ssh -p 2222 -R myapp:80:localhost:3000 ssh.example.test"
unfolding rendered view sample_config tunnel_service.Config.read_config
    tunnel_service.Service.World.stored tunnel_service.Service.Names.trim_space
dashboard_faulty = refl

view-only_example :
    rendered
      (view as_stored no_record_at sample_config plain_query carols PageName.dashboard
        (hide 1 faulty_world)).0
    ≡ rendered
        (view as_stored no_record_at sample_config plain_query carols PageName.dashboard
          faulty_world).0
view-only_example =
    view-only as_stored no_record_at sample_config plain_query carols PageName.dashboard
      faulty_world refl
