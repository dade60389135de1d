-- ===== src/Web/Tests/Hosts.antt =====
-- The properties of the hosts and of the internal API of app/internal/web at concrete calls.
use tunnel_service.Prelude.{
  ℕ, ◌<◌, ◌≡◌, ◌⊎◌, refl, arith, Text, codes, true, false, none, some, [], ◌∷◌, lower,
}
use tunnel_service.Model.{ok}
use tunnel_service.Store.Db.{fresh}
use tunnel_service.Service.Worker.{Controller, full_host}
use tunnel_service.Web.Host.{canonical_host}
use tunnel_service.Web.Host.Roundtrip.{IsClean, canonical_host_idem, full_host-canonical}
use tunnel_service.Web.Internal.{Caller, disconnect, serve}
use tunnel_service.Web.Internal.Errors.{is_done, Trusted, serve_changes}

abbrev zone : Text
zone = codes "example.com"

lower_ascii : (c : ℕ) → c < 128 → lower c ≡ lower c
lower_ascii c h = refl

zone-IsClean : IsClean lower zone
unfolding tunnel_service.Service.Names.trim_space tunnel_service.Service.Worker.trim_dot lower
zone-IsClean = record { nonempty = refl; trimmed = refl; undotted = refl; lowered = refl }

blog_host :
    canonical_host lower (codes " Blog.Example.com.") zone
    ≡ some (codes "blog", codes "blog.example.com")
unfolding canonical_host tunnel_service.Service.Worker.trim_dot
    tunnel_service.Service.Names.trim_space tunnel_service.Service.Worker.has_suffix
    tunnel_service.Prelude.text_eq lower tunnel_service.Prelude.any
    tunnel_service.Service.Names.byte_length tunnel_service.Service.Names.all
    tunnel_service.Web.Host.is_host_char
blog_host = refl

canonical_host_idem_example :
    (canonical_host lower (codes "blog.example.com") zone
      ≡ some (codes "blog", codes "blog.example.com"))
    × (canonical_host lower (codes "blog") zone ≡ some (codes "blog", codes "blog.example.com"))
canonical_host_idem_example =
    canonical_host_idem lower lower_ascii zone zone-IsClean (codes " Blog.Example.com.")
      (codes "blog") (codes "blog.example.com") blog_host

abbrev sish : Controller
sish = record {
  drop_key = λ a g. ok tt;
  drop_user = λ a g. ok tt;
  drop_host = λ h g. ok tt;
  drop_port = λ p g. ok tt;
}

full_host-canonical_example :
    full_host lower zone (λ e. []) sish (codes "blog") ≡ codes "blog.example.com"
full_host-canonical_example =
    full_host-canonical lower lower_ascii zone zone-IsClean (λ e. []) sish
      (codes " Blog.Example.com.") (codes "blog") (codes "blog.example.com") blog_host

abbrev sish_caller : Caller
sish_caller = record {
  loopback = true;
  token_file = some (codes "0123456789abcdef0123456789abcdef");
  token = codes "0123456789abcdef0123456789abcdef";
}

serve_changes_example :
    (((serve lower zone 5 sish_caller (disconnect "t1" none) fresh).1 ≡ fresh)
      × (is_done (serve lower zone 5 sish_caller (disconnect "t1" none) fresh).0 ≡ false))
    ⊎ (Trusted sish_caller
        × (is_done (serve lower zone 5 sish_caller (disconnect "t1" none) fresh).0 ≡ true))
serve_changes_example = serve_changes lower zone 5 sish_caller (disconnect "t1" none) fresh
