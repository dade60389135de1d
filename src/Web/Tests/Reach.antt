-- ===== src/Web/Tests/Reach.antt =====
-- The host of a request in a concrete configuration.
use tunnel_service.Prelude.{◌≡◌, ◌≢◌, refl, Text, codes, true, false, []}
use tunnel_service.Config.Tests.{
  sample_platform, sample_config, callback, split_sample-IsSplit, load_all,
}
use tunnel_service.Web.HostCheck.{host_check}
use tunnel_service.Web.HostCheck.Reached.{host_check_exact}

host_given : sample_config.public_host ≢ []
unfolding sample_config tunnel_service.Config.read_config tunnel_service.Service.Names.trim_space
host_given e = cc

-- The public host of the sample is written with its port, and no request for the host passes.
host_check_exact_example :
    host_check sample_platform sample_config (codes "console.example.test") ≡ false
unfolding sample_config tunnel_service.Prelude.text_eq tunnel_service.Config.read_config
    tunnel_service.Service.Names.trim_space
host_check_exact_example =
    host_check_exact sample_platform sample_config callback (codes "console.example.test")
      split_sample-IsSplit load_all host_given refl refl
