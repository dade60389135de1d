-- ===== src/Service/Resources.antt =====
-- The operations of app/internal/service/service.go on subdomains and TCP ports. `dns` is
-- `DNSChecker.HasExactRecord` (app/internal/integration/vercel.go): an error, or whether the record is there.
use tunnel_service.Prelude.{
  ℕ, String, Text, Bool, true, false, not, ◌&&◌, none, some, [], ◌∷◌, if◌then◌else◌, any, text_eq,
}
use tunnel_service.Model.{
  Result, ok, err, duplicate_subdomain, duplicate_tcp_port, reserved_subdomain, dns_unavailable,
  dns_conflict,
}
use tunnel_service.Store.Tx.{demand}
use tunnel_service.Store.Reservations.{
  all_subdomains, subdomain_by_id, tcp_port_by_id, insert_subdomain_atomic, insert_tcp_port_atomic,
  delete_subdomain_atomic, delete_tcp_port_atomic,
}
use tunnel_service.Service.World.{Io, ◌>>=◌, ◌>>◌, done, fail, lift, stored}
use tunnel_service.Service.Names.{lower_name, normalize_subdomain, parse_tcp_port}
use tunnel_service.Service.Keys.{rows, ensure_active, entry, insert_or, allow}

abbrev pub empty : Text → Bool
empty [] = true
empty (c ∷ s) = false

abbrev pub no_record : Result Bool → Io (Unit {0})
no_record (err e) = fail dns_unavailable
no_record (ok true) = fail dns_conflict
no_record (ok false) = done tt

module _ (to_lower : ℕ → ℕ) (dns : Text → Result Bool) (control_plane_subdomain : Text) where
  unfoldable pub is_control_plane : Text → Bool
  unfolding lower_name
  is_control_plane name =
      not (empty name) && text_eq name (lower_name to_lower control_plane_subdomain)

  unfoldable pub reserve_subdomain : ℕ → Text → String → Io ℕ
  unfolding is_control_plane lower_name ensure_active insert_or rows
  reserve_subdomain uid raw ip = do
    ensure_active uid
    if is_control_plane (lower_name to_lower raw) then fail reserved_subdomain else done tt
    name ← lift (normalize_subdomain to_lower (lower_name to_lower raw))
    existing ← stored (rows all_subdomains)
    if any (λ d. text_eq d.name name) existing then fail duplicate_subdomain else done tt
    no_record (dns name)
    insert_or duplicate_subdomain
        (insert_subdomain_atomic uid name (entry uid uid "subdomain.reserve" "subdomain" none ip))

unfoldable pub reserve_tcp_port : ℕ → Text → String → Io ℕ
unfolding ensure_active insert_or
reserve_tcp_port uid raw ip = do
  ensure_active uid
  port ← lift (parse_tcp_port raw)
  insert_or duplicate_tcp_port
      (insert_tcp_port_atomic uid port (entry uid uid "tcp_port.reserve" "tcp_port" none ip))

unfoldable pub release_tcp_port : ℕ → Bool → ℕ → String → Io (Unit {0})
unfolding allow
release_tcp_port actor admin id ip = do
  p ← stored (demand (tcp_port_by_id id))
  allow actor admin p.user_id
  stored (
      delete_tcp_port_atomic id p.port (
        entry actor p.user_id (if admin then "admin.tcp_port.force_release" else "tcp_port.release")
          "tcp_port" (some id) ip))

unfoldable pub release_subdomain : ℕ → Bool → ℕ → String → Io (Unit {0})
unfolding allow
release_subdomain actor admin id ip = do
  d ← stored (demand (subdomain_by_id id))
  allow actor admin d.user_id
  stored (
      delete_subdomain_atomic id d.name (
        entry actor d.user_id
          (if admin then "admin.subdomain.force_release" else "subdomain.release") "subdomain"
          (some id) ip))
