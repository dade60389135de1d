-- ===== src/Store/Reservations.antt =====
-- Subdomains and TCP ports: queries of app/internal/store/store.go, transactions of hardening.go.
-- The column `subdomains.name` has the collation NOCASE: its comparisons ignore ASCII case.
use tunnel_service.Prelude.{
  ℕ, ◌+◌, Text, Bool, true, false, not, ◌&&◌, ◌||◌, Option, some, List, [], ◌∷◌, ◌++◌, ◌==◌,
  text_eq, lower, lower_text, if◌then◌else◌, any, find, select, delete_where, leb,
}
use tunnel_service.Model.{
  Subdomain, TcpPort, is_tcp, Kind, DedupeKey, Effect, ok, err, not_found, unique_violation,
  check_violation, public_tcp_port_min, public_tcp_port_max,
}
use tunnel_service.Store.Db.{Db}
use tunnel_service.Store.Tx.{
  Tx, ◌>>=◌, ◌>>◌, pure, modify, demand, AuditEntry, insert_audit, insert_outbox, next_generation,
}
use tunnel_service.Store.Keys.{active_user, disconnect_where, empty_payload}

-- `=` under the collation NOCASE.
unfoldable pub same_label : Text → Text → Bool
unfolding lower_text text_eq
same_label a b = text_eq (lower_text a) (lower_text b)

abbrev any_suffix : (Text → Bool) → Text → Bool
any_suffix p [] = p []
any_suffix p (c ∷ cs) = p (c ∷ cs) || any_suffix p cs

-- SQLite's `text LIKE pattern`: `%` is any run of characters, `_` is one character, and letters
-- compare without case.
unfoldable pub like : Text → Text → Bool
unfolding lower
like [] [] = true
like [] (c ∷ cs) = false
like (p ∷ ps) text =
    if p == b'%'
    then any_suffix (like ps) text
    else elim text [ [] ↦ false | c ∷ cs ↦ (p == b'_' || lower p == lower c) && like ps cs ]

unfoldable pub subdomain_by_id : ℕ → Db → Option Subdomain
subdomain_by_id id db =
    find (λ d. d.id == id && any (λ u. u.id == d.user_id) db.users) db.subdomains

unfoldable pub all_subdomains : Db → List Subdomain
all_subdomains db = select (λ d. any (λ u. u.id == d.user_id) db.users) db.subdomains

unfoldable pub tcp_port_by_id : ℕ → Db → Option TcpPort
tcp_port_by_id id db = find (λ p. p.id == id && any (λ u. u.id == p.user_id) db.users) db.tcp_ports

unfoldable pub with_subdomain : ℕ → Text → Db → Db
with_subdomain uid name db = record db {
  subdomains = record { id = db.next_subdomain_id; user_id = uid; name = name } ∷ db.subdomains;
  next_subdomain_id = db.next_subdomain_id + 1;
}

-- INSERT INTO subdomains …, under UNIQUE(name)
unfoldable pub insert_subdomain : ℕ → Text → Tx ℕ
insert_subdomain uid name db =
    if any (λ d. same_label d.name name) db.subdomains
    then err unique_violation
    else ok (db.next_subdomain_id, with_subdomain uid name db)

unfoldable pub insert_subdomain_atomic : ℕ → Text → AuditEntry → Tx ℕ
insert_subdomain_atomic uid name a = do
  u ← demand (active_user uid)
  id ← insert_subdomain u.id name
  insert_audit (record a { resource_id = some id })
  pure id

unfoldable pub with_port : ℕ → ℕ → Db → Db
with_port uid port db = record db {
  tcp_ports = record { id = db.next_port_id; user_id = uid; port = port } ∷ db.tcp_ports;
  next_port_id = db.next_port_id + 1;
}

abbrev pub in_port_range : ℕ → Bool
in_port_range port = leb public_tcp_port_min port && leb port public_tcp_port_max

-- CHECK(port BETWEEN 10000 AND 65535), then UNIQUE
unfoldable pub insert_tcp_port : ℕ → ℕ → Tx ℕ
insert_tcp_port uid port db =
    if not (in_port_range port)
    then err check_violation
    else if any (λ p. p.port == port) db.tcp_ports
    then err unique_violation
    else ok (db.next_port_id, with_port uid port db)

unfoldable pub insert_tcp_port_atomic : ℕ → ℕ → AuditEntry → Tx ℕ
insert_tcp_port_atomic uid port a = do
  u ← demand (active_user uid)
  id ← insert_tcp_port u.id port
  g ← next_generation
  insert_audit (record a { resource_id = some id })
  pure id

unfoldable pub without_port : ℕ → ℕ → Db → Db
without_port id port db = record db {
  tcp_ports = delete_where (λ p. p.id == id && p.port == port) db.tcp_ports;
}

-- DELETE FROM tcp_ports WHERE id=? AND port=?, and `requireAffected`
unfoldable pub delete_tcp_port : ℕ → ℕ → Tx (Unit {0})
delete_tcp_port id port db =
    if any (λ p. p.id == id && p.port == port) db.tcp_ports
    then ok (tt, without_port id port db)
    else err not_found

unfoldable pub delete_tcp_port_atomic : ℕ → ℕ → AuditEntry → Tx (Unit {0})
delete_tcp_port_atomic id port a = do
  g ← next_generation
  modify (disconnect_where (λ t. is_tcp t.protocol && t.tcp_port == port))
  insert_outbox (record {
    kind = Kind.disconnect_port;
    dedupe_key = DedupeKey.at_generation g (Effect.drop_port port);
    payload = record empty_payload { port = port; generation = g };
  })
  insert_audit a
  delete_tcp_port id port

unfoldable pub without_subdomain : ℕ → Db → Db
without_subdomain id db = record db { subdomains = delete_where (λ d. d.id == id) db.subdomains }

-- DELETE FROM subdomains WHERE id=?, and `requireAffected`
unfoldable pub delete_subdomain : ℕ → Tx (Unit {0})
delete_subdomain id db =
    if any (λ d. d.id == id) db.subdomains then ok (tt, without_subdomain id db) else err not_found

-- (hostname=? OR hostname LIKE ?), with the label and the label followed by ".%"
unfoldable pub serves_host : Text → Text → Bool
unfolding like
serves_host name hostname = text_eq hostname name || like (name ++ (b'.' ∷ b'%' ∷ [])) hostname

unfoldable pub delete_subdomain_atomic : ℕ → Text → AuditEntry → Tx (Unit {0})
delete_subdomain_atomic id name a = do
  g ← next_generation
  modify (disconnect_where (λ t. serves_host name t.hostname))
  insert_outbox (record {
    kind = Kind.disconnect_host;
    dedupe_key = DedupeKey.at_generation g (Effect.drop_host name);
    payload = record empty_payload { hostname = name; generation = g };
  })
  insert_audit a
  delete_subdomain id
