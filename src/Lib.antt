-- ===== src/Lib.antt =====
-- Publaryn is a package registry for npm, PyPI, Cargo, NuGet, RubyGems, Composer, Maven and OCI:
-- an HTTP API (crates/api) and one protocol adapter per ecosystem (crates/adapters) over a
-- PostgreSQL database, an object store and a search index, with background workers
-- (crates/workers) that scan what was uploaded before a release is published.
--
-- The parts and how they interact. A request carries a credential, which becomes an identity with
-- scopes (Auth). A handler asks for a scope, finds the package or organization by name, and asks
-- the access checks of crates/api/src/request_auth.rs whether the identity's user may act on it
-- (Access). It then changes rows and adds an entry to the audit log (Releases, Members, Invitations,
-- Teams, Repositories, Namespaces). Publishing a release puts it in `scanning` and enqueues a job
-- for each artifact; workers claim the jobs (Jobs), and the scan that finds no other unfinished job
-- of the release gives it its final status (Releases.Scan). All of them share the database (Db);
-- the rate limits in front of the handlers keep their counts in Redis (RateLimit).
--
-- Files:
--   Prelude (Tests, Lists, Text)   Boolean tests, lists over native numbers, texts
--   Query (Update, Unique)         SELECT as a list comprehension, UPDATE, RETURNING, DELETE
--   Error                          crates/core/src/error.rs, crates/api/src/error.rs, the `?` operator
--   Domain                         the enums of crates/core/src/domain and their wire names; the
--                                  invitation's states; ecosystems and package names
--   Db (Tables, Keys)              the tables of migrations/ and what their constraints promise
--   Auth (Identity, Scopes)        AuthenticatedIdentity; crates/api/src/scopes.rs
--   Auth (Granted)                 the scopes of a new token
--   Auth (Credentials)             the functions of jsonwebtoken, argon2, totp-rs and sha2, as one
--                                  argument
--   Auth (Mfa, Sessions)           crates/auth/src/mfa.rs and token.rs, login and the MFA handlers of
--                                  crates/api/src/routes/auth.rs; (Challenge, Once, Enrolled) their
--                                  theorems
--   Auth (Tokens)                  crates/api/src/routes/tokens.rs and the authentication of
--                                  request_auth.rs; (Bearer) what a credential authenticates
--   Access (Requirements, Outcomes, Queries, Org, Write, Read)
--                                  crates/api/src/request_auth.rs, crates/core/src/authz_queries.rs,
--                                  function by function under the names of the source
--   Access (Grants, Readers)       the independent description of who may write and read
--   Access (Rows, Parts, Authorized, Ensured)
--                                  the proofs that relate the two
--   Jobs (Queue, Worker)           crates/workers/src/queue.rs, poll_and_process of worker.rs
--   Jobs (Claim, Claimed)          what a claim returns; (Steps, Invariant) the queue with its
--                                  workers as a step relation; (Settled) a worker's turn
--   Releases (Status, Rows, Handlers)
--                                  create, yank, unyank, deprecate, undeprecate and publish of
--                                  crates/api/src/routes/packages.rs
--   Releases (Scan)                ScanArtifactHandler of crates/workers/src/scanners.rs
--   Releases (Consistent, Lifecycle, Scanned, Published, History, Effects)
--                                  invariants of the releases and effects of the handlers
--   Releases (Reading)             ensure_release_read_access of packages.rs
--   Members (Handlers, Rows, Owners, Removed, Transfer)
--                                  add_member, remove_member and transfer_ownership of
--                                  crates/api/src/routes/orgs.rs
--   Invitations (Handlers, Sound, Steps, Created, History)
--                                  crates/api/src/routes/org_invitations.rs over any history of it
--   Teams (Handlers, Permissions, Grants, Scoped, Kept, Owned, Granted, History)
--                                  the teams, their members and grants of
--                                  crates/api/src/routes/orgs.rs
--   Repositories (Handlers, Owned, Transfer, History, Slugs)
--                                  crates/api/src/routes/repositories.rs
--   Namespaces (Handlers, Sound, History)
--                                  crates/api/src/routes/namespaces.rs
--   RateLimit (Redis, Decimal, Middleware, Bound, Log, Kept, Window)
--                                  crates/api/src/rate_limit.rs, with Redis as an interface
--   Packages (Visibility, Artifact)
--                                  the visibility, owner and artifact rules of
--                                  crates/api/src/routes/packages.rs
--   Cargo (Publish)                parse_cargo_publish of
--                                  crates/adapters/cargo-registry/src/publish.rs; (Publish/Frames,
--                                  Publish/Accepted) the layout it accepts
--   Cargo (Name)                   crates/adapters/cargo-registry/src/name.rs
--   Samples, and the Tests modules a small registry, and runs on it
--
-- How the code is modelled. The database is a record of tables, each the list of its rows; a query
-- is a list comprehension with the joins and conditions of its SQL, `fetch_optional` the first row.
-- A handler is a function from the database and the request to an error or a reply and the new
-- database; it runs as one transaction, since an error in the source comes before the first write
-- or rolls back, and a lost connection (Error::Database) is left out. A UUID is a number, and a
-- fresh one an argument; a time is a number of microseconds, and the clock an argument. The values
-- that an error message quotes are left out of it. The payload of a job is the value its JSON
-- decodes to. Concurrent claims appear as the set of rows that others hold (SKIP LOCKED), and the
-- interleaving of workers as a sequence of steps. Rust's full Unicode `to_lowercase`, the object
-- store and the scanners of artifacts are arguments. Whether the INSERT of a finding of a scan and the
-- UPDATE that removes a used recovery code go through is an argument, since the source goes on when
-- they fail; every other statement whose error the source only logs or drops (the audit entries of
-- the MFA handlers, jobs enqueued after a commit, a worker's record of an outcome) goes through.
--
-- A check of the rate limits is one step: INCR is atomic, and the EXPIRE and TTL of other requests
-- change no number. The digits of a timestamp's minute are written on a fuel of 19 (an i64).
--
-- Columns of type CITEXT are compared as they are written.
--
-- Not modelled: the protocol adapters' own routes and other parsers, uploads, tags, trusted
-- publishers, the registration of users, the creation and settings of organizations, lists and
-- searches, the timers of the worker's loop, the frontend.
pub mod Prelude
pub mod Query
pub mod Error
pub mod Domain
pub mod Db
pub mod Access
pub mod Jobs
pub mod Auth
pub mod Releases
pub mod Samples
pub mod Members
pub mod Packages
pub mod Cargo
pub mod Invitations
pub mod RateLimit
pub mod Repositories
pub mod Teams
pub mod Namespaces
