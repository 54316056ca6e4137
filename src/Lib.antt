-- ===== src/Lib.antt =====
-- Mandrake is the management daemon of an illumos host: `mandraked` serves an HTTP API over TCP and a
-- Unix socket, keeps users, sessions, tokens, jobs, an audit log and idempotency records in SQLite, and
-- drives zones, storage, networks and virtual machines through the host's tools. This library models
-- the daemon's control plane: who may call it, what the handlers on users do, how background jobs run,
-- what the middleware promises for repeated requests, the in-memory drivers of zones, storage and networks
-- that the routes are tested on, with the parsers and the commands of the tools of zones and networks, and
-- how the management path of the network is protected.
--
-- Parts, and the files that model them:
--   Core        crates/mandrake-core/src/{role,actor,problem,timestamp}.rs and the errors of
--               crates/mandraked/src/error.rs. A `Timestamp` is the nanoseconds since the Unix epoch,
--               an `Ident` a number.
--   Daemon      the tables of crates/mandraked/migrations/0001_init.sql as lists of records (Store), the monad of an
--               `ApiResult` handler over the state of the application (Handler, Steps), and
--               `AppState::record` of crates/mandraked/src/audit.rs (Audit). `call` is one `state.db.call`, which runs
--               under the database's lock: what lies between two calls may be interleaved.
--   Auth        crates/mandraked/src/auth/{ratelimit,token,session,extract}.rs (Limiter, Token, Session and
--               Extract, where `authenticate` is `Auth::from_request_parts`), and
--               crates/mandraked/src/routes/auth.rs (Login). External holds what they take from other
--               crates: the SHA-256 digest, the argon2 hash and its check, `HeaderValue::to_str`.
--   Users       crates/mandraked/src/routes/users.rs, and the policy of crates/mandraked/src/auth/password.rs
--               (children Creation, Passwords and Listing). `update` and `delete` are each two database
--               calls, so `update_read` and `update_write` are steps of their own.
--   Cursor      crates/mandraked/src/cursor.rs, with base64 as a parameter; Cursor/Walk follows cursors
--               page by page.
--   Jobs        crates/mandraked/src/jobs.rs. A `Step` of Jobs/Lifecycle is one database call of one
--               task, the start of a job, or a restart of the daemon; `World` adds to the tables which
--               tasks are alive.
--   Idempotency crates/mandraked/src/idempotency.rs, over any router that comes after it. Sweep is `sweep`
--               of auth/session.rs, which the daemon runs every hour.
--   Zones       the in-memory driver of crates/mandrake-zones/src/fake.rs, with types.rs; Driver holds its
--               operations, Calls their sequences. And crates/mandrake-zones/src/parse.rs: the tests on
--               names, `zoneadm_list` (Zoneadm), `zonecfg_export` (Parse), sizes (Size), and the commands
--               that create and change a zone (Render); RoundTrip reads what Render writes, one command
--               a line.
--   Zfs         the in-memory ZFS driver of crates/mandrake-zfs/src/fake.rs, with its types.rs and those of
--               crates/mandrake-core/src/storage.rs: Datasets, Destroy, Snapshots, Pools and Scrubs hold its
--               operations, Calls their sequences, and Size is `size` of its parse.rs.
--   Net         the in-memory network driver of crates/mandrake-net/src/fake.rs, with types.rs and
--               crates/mandrake-core/src/network.rs: Links, Addresses and Routes hold its operations, Typical
--               its first states, Calls sequences of calls. Fields, Spelled, Dladm, Ipadm, Masks, Netstat,
--               Persistent and Assemble are parse.rs, and Commands and Cli the driver of cli.rs over the
--               host's tools.
--               Of crates/mandraked/src/routes/network.rs, Protect is `compute_protection`, Removal the deletion
--               of links and addresses up to the driver's call, and Requests the checks of what is asked;
--               Failures is what crates/mandraked/src/drivers.rs makes of a failure.
--   Cache       crates/mandraked/src/cache.rs: the cache before the lists of a driver. Reads runs its calls
--               one after the other; in Fills a fill is a step of its own, which writes can overlap, and
--               so are the two halves of a write.
--   Common      what they share: texts as lists of code points, lists, maps, tables, integers, and `f64`
--               as a parameter (Float), of which a number is its bits.
--   Scenarios   concrete states on which the theorems are applied; Auth/Limiter/Tests runs the limiter.
--
-- The handlers use Auth for `require`, Daemon for the audit log, and Core for errors; Idempotency calls
-- `authenticate` before the router; Login calls the limiter first and then Session. The routes read the
-- lists of the drivers through Cache; Net/Removal takes what they read as arguments.
--
-- Choices. A row's column of text that holds an id, a time or a role is kept as the value it is read
-- back to. Random secrets, new ids and the readings of clocks are arguments. Fractions of progress are
-- counted in millionths. SQL statements are functions on lists of rows in the order of insertion, with
-- ON DELETE CASCADE written out. The recursion over pages (Cursor.Walk.follow) is on fuel: more pages
-- than there are rows are always enough, and so is that over the digits of a number
-- (Common.Text.Decimal.digits): as much as the number itself. The loop over the links of the management
-- path (Net.Protect.walk) is on fuel: the names it begins with and all names that links lie over, which
-- is proved to be enough. IP addresses and their parser, the text of a time, and how the host answers
-- a command, are parameters.
--
-- Not modelled: errors of the database itself; the drivers over the host's tools
-- (crates/mandrake-zones/src/cli.rs, crates/mandrake-zfs/src/{cli,parse}.rs but for sizes) and the
-- lists of the in-memory ones, which show the order of a map's keys; virtual machines and images
-- (crates/mandrake-bhyve, -images) and the routes over the drivers, but for those of networks named
-- above; updates and packages; sockets, TLS, terminals, and the clients.
pub mod Common
pub mod Core
pub mod Daemon
pub mod Auth
pub mod Users
pub mod Cursor
pub mod Jobs
pub mod Idempotency
pub mod Zones
pub mod Zfs
pub mod Cache
pub mod Net
pub mod Scenarios
