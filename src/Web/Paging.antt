-- ===== src/Web/Paging.antt =====
-- The pages of the administrators' lists in app/internal/web/server.go: `requestedPage`,
-- `pagination` and the list handlers.
pub mod Decimal
pub mod Walk
use tunnel_service.Prelude.{
  ℕ, zero, suc, ◌+◌, ◌-◌, ◌*◌, ◌/◌, ◌%◌, String, Text, Bool, true, false, not, ◌||◌, Option, none,
  some, List, [], ◌∷◌, ◌++◌, ◌==◌, ltb, map, if◌then◌else◌,
}
use tunnel_service.Model.{Result, ok, err, SshKey, Subdomain, TcpPort, SecurityMetric}
use tunnel_service.Store.Db.{Db}
use tunnel_service.Store.Listing.{
  Order, UserRow, TunnelRow, users_page, keys_page, tcp_ports_page, security_telemetry_page,
  active_tunnels_page,
}
use tunnel_service.Service.World.{World, stored}
use tunnel_service.Service.Keys.{rows}
use tunnel_service.Web.Perform.{path_id}

abbrev pub default_admin_page_size : ℕ
default_admin_page_size = 10

abbrev pub max_page : ℕ
max_page = 1000000

abbrev pub page_or_first : Option ℕ → ℕ
page_or_first none = 1
page_or_first (some n) = if ltb max_page n then 1 else n

-- The page that the query parameter asks for; `strconv.Atoi` reads a number as `pathID` does, and
-- one below 1 is the first page.
unfoldable pub requested_page : Text → ℕ
unfolding path_id
requested_page raw = page_or_first (path_id raw)

abbrev pub page_offset : ℕ → ℕ
page_offset page = (page - 1) * default_admin_page_size

-- `strconv.Itoa`: an int has at most 19 digits.
unfoldable pub itoa_from : ℕ → ℕ → Text → Text
itoa_from zero n acc = acc
itoa_from (suc k) n acc =
    let rest = itoa_from k (n / 10) ((n % 10 + b'0') ∷ acc) in
    if n / 10 == 0 then (n % 10 + b'0') ∷ acc else rest

unfoldable pub itoa : ℕ → Text
unfolding itoa_from
itoa n = itoa_from 19 n []

-- The value of the page parameter in a link; the link to the first page has none.
unfoldable pub page_link : ℕ → Text
unfolding itoa
page_link n = if n == 1 then [] else itoa n

pub record Pagination : Type 0 where
  pub page : ℕ
  pub previous : Option Text
  pub next : Option Text

unfoldable pub pagination : ℕ → Bool → Pagination
unfolding page_link
pagination page more = record {
  page = page;
  previous = if ltb 1 page then some (page_link (page - 1)) else none;
  next = if more then some (page_link (page + 1)) else none;
}

-- The rows and the links of a list, or status 500.
pub data ListReply (A : Type 0) : Type 0 where
  internal : ListReply A
  shown : List A → Pagination → ListReply A

abbrev pub listed : {A : Type 0} → ℕ → Result (List A × Bool) × World → ListReply A × World
listed page (ok (out, more), w) = (shown out (pagination page more), w)
listed page (err e, w) = (internal, w)

-- A handler that lists a table: `query` is the store's function, with limit and offset.
unfoldable pub admin_list :
    {A : Type 0} → (ℕ → ℕ → Db → List A × Bool) → Text → World → ListReply A × World
unfolding requested_page pagination
admin_list query raw w =
    let page = requested_page raw in
    listed page (stored (λ db. ok (query default_admin_page_size (page_offset page) db, db)) w)

pub data DnsConflict : Type 0 where
  dns_unavailable dns_conflict no_conflict : DnsConflict

abbrev pub conflict_of : Result Bool → DnsConflict
conflict_of (err e) = dns_unavailable
conflict_of (ok true) = dns_conflict
conflict_of (ok false) = no_conflict

abbrev with_conflicts :
    (Text → Result Bool)
    → ListReply (Subdomain × String)
    → ListReply (Subdomain × String × DnsConflict)
with_conflicts dns internal = internal
with_conflicts dns (shown out p) =
    shown (map (λ (d, owner). (d, owner, conflict_of (dns d.name))) out) p

-- The list of subdomains also shows what the DNS check says of each.
unfoldable pub admin_subdomains :
    (Text → Result Bool)
    → (ℕ → ℕ → Db → List (Subdomain × String) × Bool)
    → Text
    → World
    → ListReply (Subdomain × String × DnsConflict) × World
unfolding admin_list
admin_subdomains dns query raw w =
    let (reply, after) = admin_list query raw w in (with_conflicts dns reply, after)

unfoldable pub admin_users : Order UserRow → Text → World → ListReply UserRow × World
unfolding admin_list
admin_users order raw w = admin_list (users_page order) raw w

unfoldable pub admin_keys :
    Order (SshKey × String) → Text → World → ListReply (SshKey × String) × World
unfolding admin_list
admin_keys order raw w = admin_list (keys_page (λ k. true) order) raw w

unfoldable pub admin_tcp_ports :
    Order (TcpPort × String) → Text → World → ListReply (TcpPort × String) × World
unfolding admin_list
admin_tcp_ports order raw w = admin_list (tcp_ports_page (λ p. true) order) raw w

unfoldable pub admin_security :
    Order SecurityMetric → Text → World → ListReply SecurityMetric × World
unfolding admin_list
admin_security order raw w = admin_list (security_telemetry_page order) raw w

abbrev sync_available : Result Bool × World → Bool × World
sync_available (ok b, w) = (b, w)
sync_available (err e, w) = (false, w)

abbrev with_sync : ListReply TunnelRow × World → (ListReply TunnelRow × Bool) × World
with_sync (internal, w) = ((internal, false), w)
with_sync (shown out p, w) =
    let (available, after) = sync_available (stored (λ db. ok (db.sync.available, db)) w) in
    ((shown out p, available), after)

-- The list of tunnels, and whether the synchronizer has heard of sish.
unfoldable pub admin_tunnels : Order TunnelRow → Text → World → (ListReply TunnelRow × Bool) × World
unfolding admin_list
admin_tunnels order raw w = with_sync (admin_list (active_tunnels_page order none) raw w)
