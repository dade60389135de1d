-- ===== src/Web/HostCheck.antt =====
-- `hostCheck` of app/internal/web/server.go, the guard before every handler.
pub mod Reached
use tunnel_service.Prelude.{Text, Bool, ◌||◌}
use tunnel_service.Service.Worker.{trim_dot}
use tunnel_service.Service.Resources.{empty}
use tunnel_service.Config.{Platform, Config, equal_fold, host_part}

-- Whether a request whose Host header is `host` passes; otherwise it is answered with status 404.
unfoldable pub host_check : Platform → Config → Text → Bool
host_check o c host =
    empty c.public_host
    || equal_fold o (trim_dot (host_part o (o.split_host_port host) host)) (trim_dot c.public_host)
