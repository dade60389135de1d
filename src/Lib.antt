-- ===== src/Lib.antt =====
-- A verification library for the control plane of the tunnel service (app/).
--
-- The control plane keeps users, their SSH keys and their reservations of subdomains and TCP ports
-- in SQLite. The tunnel server sish reads the key files that the control plane writes, asks it
-- before every bind, and reports connections and disconnections; the control plane revokes by
-- raising a generation, by changing the key files, and by outbox events that a worker delivers.
--
-- The files:
--   Prelude      shared names: library names passed on, texts, integers, lists as rows of a table.
--   Model        app/internal/model/model.go, the rows of the tables, and the errors.
--   Store        app/internal/store/store.go and hardening.go. Db is the database, Tx a transaction
--                (a function from the database to an error, which rolls back, or to a result and
--                the database committed). Keys, Reservations, Users, Bind, Tunnels, Snapshot, Auth,
--                Outbox and Telemetry hold the transactions and queries under the names of the Go
--                methods, in snake case; Stamp is the order of times that are stored as text.
--                Calls makes a data type of all changes: a run is a list of calls, because the one
--                connection of SQLite runs its transactions one at a time. Rules proves a relation
--                of the databases before and after a transaction from its steps; Generation,
--                Resources, Rows, Invariant, Retired and Known apply it to every call, Kept
--                to the calls that leave alone what Watch names.
--   Service      app/internal/service/service.go, outbox.go, tunnels.go and
--                app/internal/integration/pubkeys.go.
--                Names and PublicKey validate input. World holds the database, the managed key files
--                and the faults to come: each call of the store or the file system takes the next
--                one, and may fail before or after its change. KeyFiles is PublicKeyWriter, Keys and
--                Resources are the operations of Service (its SetKeyEnabled is `switch_key`, its
--                DeleteKey is `discard_key`), Worker is OutboxWorker, Synchronizer is
--                TunnelSynchronizer (its once is `sync_round`). Traced finds, for each operation,
--                the calls of the store that it makes.
--   Dns          app/internal/integration/vercel.go: HasExactRecord over a function that fetches one
--                page of records, and paginationValue.
--   Config       app/internal/config/config.go: Load, over a Platform of what it uses of Go's packages.
--   Sish         app/internal/integration/sish.go, over net/http and encoding/json as a Transport.
--   Startup      app/cmd/control-plane/main.go from the configuration to the servers.
--   Process      the running process of main.go: a relation of steps, each a whole operation: a request
--                of a browser, a call of sish, a pass of the worker or a round of the synchronizer.
--   Web          app/internal/web. Host is canonicalHost, Internal the API that sish calls, with its
--                guards. Session has the guards auth, admin and csrf of server.go, Action the routes
--                of the changes (a handler is a value of Action), Perform the handlers behind them
--                and actionRedirect, Login is oauthStart and oauthCallback, Pages is apiPage,
--                Paging the lists of the administrators, HostCheck is hostCheck, View the handlers
--                that load a page, View/Dto is api_dto.go, RateLimit is ratelimit.go.
--
-- A browser's change goes through Session and Action to a handler, which Perform runs on the Service;
-- sish's calls go through Internal to Store. Store/Listing has the queries that Paging and View show.
-- Startup runs Config, Sish, the registration of the system key in Store, and Reconcile of Service.
--
-- Choices: ids, generations, sequences and times are natural numbers without an upper bound; a key
-- id on the wire is an integer, as system keys are negative there. A query that SQL sends through a
-- JOIN is a sum over the rows of its tables. A subdomain compares without ASCII case, the collation
-- of its column. In Store texts are bytes in ASCII, in Service code points of valid UTF-8. The
-- payload of an outbox event is a record, since the store itself writes its JSON. The rounds of
-- `drain` are the ten of the source, and the pages of HasExactRecord its hundred, so no fuel is
-- added; every other loop runs over a list. A request is what the guards and handlers read of it;
-- the answer of a handler is the choice among statuses, redirects and JSON, not their bytes. A
-- session cookie stands as the digest that the database holds.
--
-- Parameters: the environment and the files that the configuration names, `unicode.ToLower` and the
-- folding of `strings.EqualFold`, `url.PathEscape`, `url.ParseRequestURI`, `url.Parse`,
-- `net.SplitHostPort` and `net.ParseIP`, `filepath.Dir`, `os.MkdirAll`, `store.Open`, net/http,
-- encoding/json on a cursor, the package golang.org/x/crypto/ssh, the DNS check of Service (Dns is one), the calls of
-- sish, Discord and Vercel, the digests and random tokens, the arithmetic of float64, the order in
-- which Go walks a map, the ORDER BY of a list, and the text of an error.
--
-- Not modelled: the headers and static files of the web server, the tickers of the workers (a run
-- takes their rounds in any order), operations of the process that overlap between their calls of the
-- store (only those of Service on keys and users exclude each other, by its mutex), the daily cleanup
-- and the shutdown of the process, logging, the SQL text of the migrations (its constraints are in
-- Store), the browser code, and the sish image and scripts.
mod Prelude
pub mod Model
pub mod Store
pub mod Service
pub mod Web
pub mod Dns
pub mod Config
pub mod Sish
pub mod Startup
pub mod Process
