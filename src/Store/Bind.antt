-- ===== src/Store/Bind.antt =====
-- `AuthorizeBind` and the grants of a tunnel: app/internal/store/hardening.go. A count over a JOIN
-- is a sum over the rows of its tables.
use tunnel_service.Prelude.{
  ℕ, String, Text, Bool, true, false, ◌&&◌, Option, none, some, ◌==◌, str_eq, if◌then◌else◌, any,
  find, count, sum_where, pos, is_id, is_negative, is_negated_id, negate,
}
use tunnel_service.Model.{
  SshKey, SystemKey, ActiveTunnel, BoundKey, Protocol, is_web, is_tcp, is_active, ok, err,
  not_found,
}
use tunnel_service.Store.Db.{Db}
use tunnel_service.Store.Tx.{Tx}
use tunnel_service.Store.Reservations.{same_label, in_port_range}

-- The enabled key with the fingerprint whose owner is active.
unfoldable pub enabled_key : String → Db → Option SshKey
enabled_key fp db =
    find
      (λ k.
        str_eq k.fingerprint fp
        && (k.enabled && any (λ u. u.id == k.user_id && is_active u.status) db.users))
      db.ssh_keys

-- FROM system_ssh_keys k JOIN system_subdomains d ON d.system_key_id=k.id
-- WHERE k.fingerprint=? AND k.enabled=1 AND d.name=?
unfoldable pub system_key : String → Text → Db → Option SystemKey
system_key fp label db =
    find
      (λ k.
        str_eq k.fingerprint fp
        && (k.enabled
            && any (λ d. d.system_key_id == k.id && same_label d.name label) db.system_subdomains))
      db.system_keys

abbrev pub user_bound : SshKey → BoundKey
user_bound k = record {
  id = pos k.id;
  user_id = k.user_id;
  name = k.name;
  public_key = k.public_key;
  fingerprint = k.fingerprint;
  enabled = k.enabled;
}

abbrev pub system_bound : SystemKey → BoundKey
system_bound k = record {
  id = negate k.id;
  user_id = 0;
  name = k.name;
  public_key = k.public_key;
  fingerprint = k.fingerprint;
  enabled = true;
}

-- How many reservations of the user cover the bind; every other protocol or port has none.
unfoldable pub reserved : ℕ → Text → Protocol → ℕ → Db → ℕ
reserved uid label protocol port db =
    if is_web protocol
    then count (λ d. d.user_id == uid && same_label d.name label) db.subdomains
    else if is_tcp protocol && in_port_range port
    then count (λ p. p.user_id == uid && p.port == port) db.tcp_ports
    else 0

bind_user : SshKey → Text → Protocol → ℕ → Tx (BoundKey × ℕ)
bind_user k label protocol port db =
    if reserved k.user_id label protocol port db == 1
    then ok ((user_bound k, db.generation), db)
    else err not_found

bind_system : Option SystemKey → Tx (BoundKey × ℕ)
bind_system none db = err not_found
bind_system (some k) db = ok ((system_bound k, db.generation), db)

-- The key found, and the mutation generation at which it may bind.
unfoldable pub authorize_bind : String → Text → Protocol → ℕ → Tx (BoundKey × ℕ)
unfolding bind_user bind_system
authorize_bind fp label protocol port db = elim (enabled_key fp db) [
  | some k ↦ bind_user k label protocol port db
  | none ↦ if is_web protocol then bind_system (system_key fp label db) db else err not_found
]

-- ssh_keys k JOIN users u JOIN subdomains d, for the key, its owner and the label
unfoldable pub web_grants : ActiveTunnel → Text → Db → ℕ
web_grants t label db =
    sum_where (λ k. is_id t.ssh_key_id k.id && (k.user_id == t.user_id && k.enabled))
      (λ k.
        sum_where (λ u. u.id == k.user_id && is_active u.status)
          (λ u. count (λ d. d.user_id == u.id && same_label d.name label) db.subdomains) db.users)
      db.ssh_keys

-- ssh_keys k JOIN users u JOIN tcp_ports p
unfoldable pub tcp_grants : ActiveTunnel → Db → ℕ
tcp_grants t db =
    sum_where (λ k. is_id t.ssh_key_id k.id && (k.user_id == t.user_id && k.enabled))
      (λ k.
        sum_where (λ u. u.id == k.user_id && is_active u.status)
          (λ u. count (λ p. p.user_id == u.id && p.port == t.tcp_port) db.tcp_ports) db.users)
      db.ssh_keys

-- system_ssh_keys k JOIN system_subdomains d
unfoldable pub system_grants : ActiveTunnel → Text → Db → ℕ
system_grants t label db =
    sum_where (λ k. is_negated_id t.ssh_key_id k.id && k.enabled)
      (λ k. count (λ d. d.system_key_id == k.id && same_label d.name label) db.system_subdomains)
      db.system_keys

abbrev pub is_system : ActiveTunnel → Bool
is_system t = t.user_id == 0 && is_negative t.ssh_key_id

-- The `valid` count of a tunnel; `none` where the protocol or the port has no query.
unfoldable pub grants : ActiveTunnel → Text → Db → Option ℕ
grants t label db =
    if is_web t.protocol
    then some (if is_system t then system_grants t label db else web_grants t label db)
    else if is_tcp t.protocol && in_port_range t.tcp_port
    then some (tcp_grants t db)
    else none

unfoldable pub is_granted : ActiveTunnel → Text → Db → Bool
is_granted t label db = elim (grants t label db) [ none ↦ false | some n ↦ n == 1 ]
