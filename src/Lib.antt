-- ===== src/Lib.antt =====
-- nx-remote-cache: a self-hosted remote cache for Nx task outputs.
--
-- The program stores task outputs under their hashes. Nx clients upload and download them over the
-- cache API (internal/server), which checks bearer tokens (internal/auth) that the database holds
-- (internal/store). The bytes live in a storage backend (internal/storage), which admins may
-- exchange while the program runs (internal/settings). Admins log in (internal/session) and manage
-- users, tokens and entries over the admin API (internal/adminapi). A janitor (internal/janitor)
-- deletes entries that are old or unread.
--
-- Which file models which part:
--   Storage.antt               internal/storage/storage.go: ValidHash, Backend
--   Storage/Contract.antt      what the comments of Backend promise, as laws (IsStore, IsCache)
--   Storage/Paging.antt        listings that come to an end, as laws (IsPaged)
--   Storage/Disk.antt          package os on one directory; Disk/Find.antt, Disk/Find/Writes.antt
--                              and Disk/Order.antt its lemmas
--   Storage/Local.antt         internal/storage/local.go; Local/Upload.antt, Local/Cache.antt,
--                              Local/Progress.antt and Local/Paging.antt its laws
--   Storage/Local/Steps.antt   Local.Put system call by system call, many at once, with its laws in
--                              Local/Steps/*.antt
--   Storage/Path.antt          path.Clean and path.Join, as they are documented
--   Storage/Keys.antt          key and unkey of internal/storage/s3.go and gcs.go
--   Storage/S3.antt            internal/storage/s3.go; S3/Client.antt the laws of the SDK client,
--                              S3/Ops.antt, S3/Listing.antt and S3/Cache.antt the laws of the
--                              backend, S3/Race.antt two uploads at once
--   Storage/Gcs.antt           internal/storage/gcs.go; Gcs/Client.antt the laws of the SDK client,
--                              Gcs/Ops.antt and Gcs/Cache.antt the laws of the backend,
--                              Gcs/Truncation.antt an upload that breaks off
--   Store.antt, Store/*.antt   internal/store: users, sessions, tokens, cache_reads, settings;
--                              Store/Queries.antt sequences of statements, Store/Tables.antt
--                              those that only read, Store/Tokens/Revocation.antt revoked tokens,
--                              Store/Consistency.antt and below the constraints of the schema
--   Primitives.antt            SHA-256, base64 and bcrypt, as parameters
--   Auth.antt                  internal/auth/auth.go
--   Session.antt               internal/session/session.go
--   Settings.antt              internal/settings/settings.go; Settings/Crypto.antt is crypto.go,
--                              Settings/Storage.antt encryptForStorage and decrypt,
--                              Settings/Manager.antt Load, Apply and Current,
--                              Settings/RoundTrip.antt, Settings/Apply.antt and
--                              Settings/Seconds.antt their laws
--   World.antt                 the state that all servers share; Dynamic.Swap and Dynamic.Active of
--                              internal/storage/dynamic.go
--   Routing.antt               http.Request and http.ServeMux, as they are documented
--   Logging.antt               internal/httplog/httplog.go
--   Server.antt                internal/server/server.go, with its laws in Server/*.antt;
--                              Server/Routes.antt its route table
--   Janitor.antt               internal/janitor/janitor.go, with its laws in Janitor/Safety.antt
--                              and Janitor/Ending.antt
--   Admin.antt                 internal/adminapi: json.go, middleware.go
--   Admin/Login.antt           auth_handlers.go and the login limiter
--   Admin/Users.antt           users_handlers.go; Users/Race.antt two deletions at once
--   Admin/Tokens.antt          tokens_handlers.go
--   Admin/Cache.antt           cache_handlers.go, with its laws in Admin/Cache/*.antt
--   Admin/Config.antt          settings_handlers.go
--   Admin/Spa.antt             spa.go
--   Admin/Routes.antt          adminapi.go: the route table and what each handler takes from a
--                              request; Routes/Refusal.antt what happens without a session
--   Database.antt              internal/db/db.go
--   Environment.antt           internal/config/config.go
--   Start.antt                 cmd/server/main.go: waitForDB and bootstrapAdmin; Start/Run.antt is run
--                              up to where the server listens, and the health check,
--                              Start/Fresh.antt the database after the migrations
--   System.antt                cmd/server/main.go: the mux, and sequences of requests, recorded reads
--                              and sweeps; System/Closed.antt and below what every statement keeps,
--                              System/Invariants.antt, System/Revocation.antt, System/Still.antt,
--                              System/Persistence.antt and System/RoundTrip.antt what holds of such
--                              sequences
--   Base.antt, Base/*.antt     shared tests, lists, integers, texts and results
--   Tests.antt, Tests/*.antt   runs on concrete inputs
--
-- A handler of the code is a function from the request and the state (World) to the answer and the
-- new state, named in snake_case after the Go method. Texts are lists of bytes. Integers that the
-- code may make negative are ℤ, with wrap-around written out where the code multiplies an int64
-- without a bound. Times and durations are nanoseconds, and time.Now() is an argument.
--
-- Failures: each system call consults `fault` of the Disk, and each SQL statement `fate` of the Db,
-- by a counter that every call advances. Both are arbitrary functions, so that a theorem on them
-- covers every pattern of failures; a statement may also run and lose its reply. The clock of each
-- is an arbitrary function of the counter too.
--
-- Fuel: the page loops of Janitor.sweep and prune_older_than have one unit of fuel for each page,
-- and give none when it ends. Enough fuel is one unit more than what the rank of IsPaged counts; for
-- the local backend that is the number of files that are listed, and the directory is one whose
-- nodes stand in order. For a backend whose listings need not end, S3 and GCS, no amount of fuel is
-- taken to be enough: what is stated of the loops there is about every amount, and so about every
-- point that a loop can come to. waitForDB counts its 15 attempts down.
--
-- Interleaving: uploads to the local backend are states between system calls, and a schedule is the
-- list of the uploads whose call is next; two uploads to S3, and two deletions of users, are steps
-- in the same way. Elsewhere requests come one after the other, but the reads of GETs are recorded at
-- some later time, in any order.
--
-- Parameters: hashing, bcrypt, AES-GCM, base64, random bytes, the rate limiter, JSON decoding,
-- parsed numbers, os.MkdirAll, golang-migrate, the embedded files, the clients of the S3 and
-- GCS SDKs, and in the settings manager what NewLocal, NewS3 and NewGCS return. The laws of a client
-- are one caller's view of a bucket: an object that is read is the one that was written last.
--
-- Not modelled: the SQL of the migrations beyond its tables, defaults and constraints; paths that are
-- not clean, which http.ServeMux redirects; listening and shutdown; the log lines beyond the status;
-- the web frontend; contexts and timeouts.
pub mod Database
pub mod Base
pub mod Storage
pub mod Store
pub mod Primitives
pub mod Auth
pub mod Session
pub mod Settings
pub mod World
pub mod Routing
pub mod Logging
pub mod Server
pub mod Janitor
pub mod Admin
pub mod Environment
pub mod Start
pub mod System
pub mod Tests
