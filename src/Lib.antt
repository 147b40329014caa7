-- ===== src/Lib.antt =====
-- The file service of this repository: clients upload files straight to a bucket by presigned URLs,
-- and a stored file can be shared behind a short link and a six-letter access code. A Postgres
-- database holds the shares, the uploads and an audit log; two jobs purge what has expired.
--
-- The parts, and where they are modelled (paths from the repository's root):
--   internal/domain          Domain: shares, access codes, slugs (share.go: NewShare is new_share,
--                            Rotate is rotate, Verify is verify, and so on in the spelling here)
--   internal/storagekey      Storagekey: the object keys "<id>_<name>"
--   internal/store           Store, Store.Shares, Store.Uploads: each SQL statement is one step on
--                            the tables; Uuid is what a column for an owner makes of a text, and
--                            Time.to_micros what a column for an instant keeps (db/migrations)
--   internal/audit           Audit: the audit log and the record of the jobs' runs
--   internal/handlers        Handlers.RateLimit (ratelimit.go), Handlers.Share and Handlers.Reshare
--                            (share.go), Handlers.Names and Handlers.Files (file.go), Handlers.Keys
--                            and Handlers.Multipart (multipart.go), Handlers.Health (health.go)
--   internal/worker          Worker.Purge (purge.go), Worker.Retention (retention.go), Worker.Runner
--                            (worker.go), and Worker.Jobs, the jobs as the runner has them
--   internal/storage         S3 (the operations), S3.New (NewS3Storage); Sdk is what the SDK is asked
--   internal/auth            Auth: the token middleware and NewVerifier
--   internal/config          Config: Load over the environment
--   internal/migrate         Migrate: Run over the embedded files
--   internal/server          Server.Routes (SetupRoutes in routes.go), Server.Serve (a request through
--                            a route), Server.Startup (New in server.go), Server.Shutdown (Start), and
--                            Server.System, the server at work
--   cmd                      Commands: main.go and migrate/main.go
-- Of the standard library: Prelude.Int and Time (int64, instants), Utf8 (range over a string),
-- Quote (%q), Decimal (strconv), Text (strings), Hex (encoding/hex), Dict (maps), Sort (sort.Slice
-- and order by), Result and Act (errors and effects). The other files below these hold lemmas and
-- the theorems; Tests holds runs on concrete inputs.
--
-- How the parts interact: a handler is a step on the state Handlers.World.World, which has the
-- database, the bucket, the random source, the clock and the limiters, and it ends in a reply. It
-- calls the store by the interface ShareStore and the bucket by the interfaces Storage and
-- MultipartStorage, as the Go code does; Handlers.Laws.IsStore states what is relied on, and the
-- Postgres store meets it. The tables change by statements alone, so that any interleaving of
-- requests and jobs is a sequence of statements (Store.Reach; Handlers.Race for two requests that
-- rotate one share). New makes the bucket, the stores, the jobs and the verifier of a configuration;
-- SetupRoutes makes a table of routes of them, each with the middleware that a request passes before
-- the handler, the limiters of the routes among it. The runner's jobs act on the database and the
-- bucket of the handlers (Server.System, where a request or a pass is one step with all its
-- statements).
--
-- Conventions: a string is a list of bytes; an instant is a number of nanoseconds, which the columns
-- of the database round down to microseconds. A product of durations, the size limit and a sum of
-- part sizes wrap around as int64 does. A database connection may lose any statement, or run it and
-- lose the answer (Store.Fate). The clock never goes back (World.ticks is what passes before each
-- reading). crypto/rand is a tape of bytes, on which the loop of randomString is structural
-- recursion. The loop of ListParts takes fuel, a number of rounds: one more than the bucket holds
-- parts is enough (S3.Listing), since a truncated page is not empty; no other definition takes fuel.
-- The runner's loop is recursion on the events that wake it. Errors that the code tells apart by
-- errors.Is are constructors of Result.Error, the others are their text.
--
-- Parameters: crypto/sha256; the SDK's client, and the bucket behind its interfaces with a state of
-- any type; the router, which picks a route of the table, and what the JSON library makes of a body
-- of which it may read so many bytes (the limit that limitBody sets, or none); the client's address;
-- the file id that uuid.New returns; the JWT and the key library; the environment; the tables of
-- printable and lower-case runes; the embedded files, and what Postgres makes of the text of one;
-- the clock of the database. Names of limiter keys are as in the code. Log lines are left out.
--
-- Not modelled: the timeouts and the transport of the HTTP server and client; what the router does
-- with a CORS configuration; the goroutines of the runner's Start and Wait (Server.System takes the
-- passes in any order); the wait of one migration run for the lock of another; the embedding of the
-- SQL files.
pub mod Prelude
pub mod Utf8
pub mod Time
pub mod Result
pub mod Storagekey
pub mod Act
pub mod Hex
pub mod Domain
pub mod Dict
pub mod Handlers
pub mod Sort
pub mod Store
pub mod Tests
pub mod Audit
pub mod Worker
pub mod Sdk
pub mod Quote
pub mod S3
pub mod Decimal
pub mod Migrate
pub mod Text
pub mod Config
pub mod Auth
pub mod Server
pub mod Commands
pub mod Uuid
