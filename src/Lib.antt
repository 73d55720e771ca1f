-- ===== src/Lib.antt =====
-- The pastebin server: its store of pastes and owner tokens, the cache and the handlers in front of
-- it, the checks that the server makes on a request, security reports, the rate limiter, the health
-- monitor, the scheduler with its cron expressions, the retention of backups, and the rotation of logs,
-- with the theorems that make them correct.
--
-- The parts and the code. Paths are those of the repository.
--   Model             src/model/models.go: Paste, PasteListItem, CreateResponse, ToListItem.
--   Database          src/database/database.go. State has the tables (Db), the errors and the monad of
--                     statements and transactions; Pastes.Ops, Tokens.Ops and Tasks have one function
--                     for each method of SQLiteDB, by the same name.
--   Cache             src/cache/cache.go. Memory is memoryCache; Driver is the interface Cache with
--                     what handlers rely on, filled by the drivers "memory" and "none".
--   Handler           src/handler/paste.go. Codes has the error codes, Cached the read-through cache,
--                     Serve the reads and the delete, Serve.Web the read behind the page, Request the
--                     size limits, the expiry of a paste and the pages of the listing. Create is
--                     createFromRequest: Create.Input reads the request and its token, Create.Content
--                     treats links and binary data, Create has the id, the token and the statements.
--                     Raw is GetRawPaste. Compat is the creation, the reads and the deletes of
--                     src/handler/compat.go, Compat.Forms what its forms ask for, Compat.Uploads
--                     Dpaste, the upload at the root, Termbin and the listings.
--   Server            src/server/server.go: Csrf is csrfMiddleware with its tokens, Address and Proxies
--                     isTrustedPeer, realIPMiddleware and isRoutableHost on the addresses of Go's net,
--                     BaseUrl the functions baseURL and assetPrefix, Cors resolveCORSOrigin, Stats requestStats. Learner is
--                     src/server/domainlearn.go, Captcha captcha.go, Ids security_id.go, Report
--                     security_report.go of the same directory, up to the record, and Disclosure
--                     its insert by CreateSecurityReport and the handler; Sealing is encryptSecurityReport of
--                     pgp_keypair.go and src/common/secretbox/secretbox.go. Request is what these read of
--                     a request, Signing the HMAC and base64 that they call.
--   Logging           src/logging/rotate.go: ParseRotate and ParseKeep; Periods is periodKey, Writer is
--                     fileWriter on the files of a Directory.
--   Config            Switches is src/config/bool.go, Hosts src/config/hostvalidate.go.
--   RateLimit         src/server/ratelimit.go: allow of a bucket and of the limiter, gc.
--   Health            src/health/monitor.go: the monitor; a tick is `observe`, the probe, and `act`.
--   Scheduler         src/scheduler/scheduler.go: the operations on the tasks; Execute has `execute`,
--                     loadState, Start, Stop and markInterrupted. A schedule is the interface Schedule
--                     of src/scheduler/cron.go: a function to the next run, and its text; Cron.Field
--                     has ParseSchedule and its parts, Cron.Next the method Next.
--   Task              Retention is applyRetention of src/task/task.go, SizeCap is applySizeCap of
--                     src/task/backup_guard.go, Order its sort.
--   Calendar          The dates of Go's time, as Next and applyRetention read them.
-- The other modules prove things: Pastes.{Burn, Rows, Calls, Listing}, Tokens.Laws, Tasks.Laws,
-- Memory.{Laws, Refines}, Serve.{Reading, Deleting}, Request.{Limits, Paging}, Create.{Storing, Owning},
-- Raw.{Uploads, Inert}, Compat.{Counting, Removing}, RateLimit.{Window, Sweep},
-- Health.{Invariant, Run, Healing}, Scheduler.{Retry, Flights, Load, Overlap, Interrupt, Restart},
-- Cron.Next.{Skips, First, Shifts}, Cron.Field.{Bounds, Panics, Daily}, Task.Retention.{Tiers, Dates, Entries, Newest},
-- Task.SizeCap.Fits, Calendar.Months, Csrf.Tokens, Ids.Windows, Captcha.Leak, BaseUrl.{Trust, Prefixes},
-- Learner.Samples, Cors.Credentials, Stats.Ring, Report.{Sanitized, Accepted, Stored}, Writer.{Files,
-- Rotating, Sizes, Outcome, Keeping, Archives, Retaining}, Switches.Words, Hosts.Public. Base has what they
-- share: the Boolean tests on numbers, lists of rows with the WHERE clauses, ORDER BY, texts as bytes with their decimals,
-- integers. Tests has concrete states.
--
-- How the parts interact. A handler calls the database and the cache through a World, the state of
-- both. The scheduler calls the database by the methods of Tasks and drops their errors. The monitor
-- and the limiter stand alone; their callers are the server's glue. The middleware for the client's
-- address rewrites a request before the checks, which read the address of the peer that it keeps; a
-- report takes the verdict of the captcha and seals its body.
--
-- The choices of the model.
--   * An instant is the number of nanoseconds since Go's zero time, so 0 is the time for which IsZero
--     holds; token times are Unix seconds, as the column stores them. A request reads the clock once,
--     but for the two readings of the limiter's bucket and of the scheduler's start.
--   * Texts are lists of bytes. Counters (views, attempts, runs) are natural numbers: they would need
--     2 ^ 63 events to wrap; the offset of a page is one too, for a page number so far below 2 ^ 63
--     that its product with the limit fits. The retry delay keeps its 64 bits: `shift_left` wraps, and `add_duration`
--     reads the result in two's complement.
--   * A statement may fail: `faults` is the list of the failures to come, one flag for a statement, and
--     a healthy engine is the empty list. A transaction that fails rolls back. SQLite runs one statement
--     at a time, so a statement is a step.
--   * `get` of the cache is a `Get` that nothing comes between; its halves at the two locks are `peek` and
--     `serve`, which take the cache as it is at each.
--   * A Go map is a list with one row for a key; where its order could matter, the list's order is any.
--   * Where a loop of the code is not over a list it runs on fuel. `next_from` has a round for every minute of
--     the 4 * 365 days that Next searches and one more, which is enough where the clock does not shift, as a
--     round then moves on by a minute at least. `find_month`, `find_value` and `pick_id` have the
--     rounds of the code's own counters; a step of a field has one for every value of the field; a
--     text is trimmed or cut in as many rounds as it has bytes. The ring of the request statistics is
--     cleared in 24 rounds, one for a bucket; a decimal has 20 rounds, enough for a 64-bit number.
--   * A request is a record of what the code reads of it; headers, cookies and form fields are functions
--     from the name. EqualFold and ToLower are those of ASCII. A call of the log reads the clock once, and
--     only the writer touches its directory: a list of files with their names, times and text.
--   * A location is its clock and `time.Date` (`Zone`), which may shift: in the default zone, New York,
--     it does. `steady` is the zone of a fixed offset. The file name of a backup gives its date by eight
--     digits, and none is of the year 0; two backups of one date keep the order of the directory, as in a
--     short list of Go, and the cap on the size reads the directory once more.
--     Sizes of backups add up to less than 2 ^ 63.
--   * Parameters, with what is assumed of them: the JSON codec of a paste (`Codec`: what is encoded is
--     read back, less the delete token, for texts that are valid UTF-8), SHA-256 (any function), the
--     cache driver (`Driver`), JSON requests, sniffing, base64 and URLs (`Library`: what is coded in base64
--     is decoded again, and sniffing always gives a type), media types (`Mime`), time.ParseDuration, random
--     bytes (`Entropy`), the success of os.Remove and of the log's system calls, gzip (any function), the
--     probe's answers, the outcome of a task's function, and the schedule. For the server: HMAC and base64
--     (`Signing.Library`: what is coded is decoded again, and the code has no dot), net and url parsing
--     (`Net`), the list of public suffixes, the location of a schedule (`Zone`), AES-GCM and OpenPGP (`Ciphers`, with what they open again a hypothesis where it
--     is used).
--
-- Not modelled: the replies that handlers render and syntax highlighting; the formats of log lines; the
-- Redis driver, the SQLite engine's files and schema; the disk pre-check and max_total_size, which need
-- floating point or the file system; the YAML configuration; HTTP routing, pages, metrics, the client,
-- and the services around the server, which are I/O or glue.
pub mod Base
pub mod Calendar
pub mod Model
pub mod Database
pub mod Cache
pub mod Handler
pub mod Health
pub mod Scheduler
pub mod Server
pub mod Logging
pub mod Config
pub mod Task
pub mod RateLimit
mod Tests
