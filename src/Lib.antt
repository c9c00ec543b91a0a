-- ===== src/Lib.antt =====
-- A verification library for the feedback platform: its backend (apps/backend, TypeScript over
-- Postgres and Redis) and the server that renders its pages (apps/frontend). Each part is modelled
-- statement by statement: an SQL statement is a function on the rows that it touches, a Lua script
-- one step on its key, and a value that comes from outside (a clock, a fault, what Postgres says of
-- a value, the parser's records) is an argument.
--
-- - Prelude: shared names, tests, lists, division, sorting (Sorting, Strict), results and texts.
-- - Conversations: apps/backend/src/conversations/conversations.service.ts. Table has the rows,
--   what a statement with RETURNING gives, and the shapes of the answers; Assign has `assign` in
--   its three modes (`assignCompareAndSet`, `assignLocking`, `refusal`), `updateStatus`, `remove`
--   and `get`. Below it, Statements reduces a statement to the row of its id, Laws and Change say
--   what a call answers and writes, and Race is about any number of clients.
-- - Conversations.Paging: `list` of the same service. Query has the query and its filters, Cursor
--   the codec of cursors, Listing the statements and the answer on both paging arms and both
--   strategies; what Postgres and Node do with texts is a record of functions (`Runtime`). Each
--   statement has a snapshot of its own. Order and Slices cut the pages from the sorted list, Walk
--   and Pages follow a client through all of them (the walk has fuel, of which the rows and one are
--   enough), Arms compares the strategies.
-- - RateLimit: the TAKE_TOKEN script of apps/backend/src/redis/redis.service.ts over a key with a
--   time to live, and `decide` of apps/backend/src/entitlements/entitlements.service.ts (Arms, and
--   Fixed for the arm `fixed` over `incrWindow`). Expiry and Bounds prove what the script promises,
--   Burst what fixed windows let through. Tokens are whole numbers of 1/60000 token, exact for a
--   limit per minute; the rounding of doubles is left out.
-- - Tenancy: `withOrg` and `attempt` of apps/backend/src/tenancy/tenant-db.service.ts, over any
--   rows and callback: COMMIT keeps what the callback did, an error restores what was there at
--   BEGIN. The loop of restarts recurs on the restarts left.
-- - Ingest: apps/backend/src/ingest/ingest.service.ts. Store has the tables and statements, Write
--   the transaction (`write`, `upsert`, `plainInsert`, `checkThenInsert`, `bill`), run by
--   `with_org` of Tenancy, and Guard `ingest`, cut into the steps between which other deliveries
--   come in: the SET NX, the GET, the transaction, the write-back. A transaction is one step on the
--   rows at its last statement, and what its earlier reads missed is an argument (`Stale`). Effect
--   and Once are about one transaction, Guarded about the guards, Sound and Race about runs;
--   Counters, Ledger and Billing about the counters.
-- - Jobs: apps/backend/src/jobs/jobs.service.ts and the lease scripts of the Redis service: `lead`,
--   the release at shutdown, `runSlot` as one transaction, and `dueAndRun`, whose loop recurs on
--   the due slots. Times are milliseconds after the first slots of the epoch, where the
--   subtractions of the source do not go below 0. Tick has `dueAndRun` and `tick` in all modes.
--   Once is about the claim, Terms about the lease, Ticks about what a process without the fence
--   remembers.
-- - Entitlements: the plan cache of apps/backend/src/entitlements/entitlements.service.ts
--   (`resolve`, cut before its SET, `load`, `setPlan`, `invalidate`, `consumeIngest`, the
--   listener's DEL), for one organisation and its key; Age is about any number of requests under
--   way. ApiKey has apps/backend/src/ingest/api-key.guard.ts and the header of
--   apps/backend/src/tenancy/org-id.decorator.ts (Bearer), Interceptor the interceptor over all
--   organisations, with the keys of Redis by their text (Isolation).
-- - Search: apps/backend/src/search/search.service.ts. Messages has `search` and `computeStats`,
--   Like what its pattern matches. StatsCache has what the cache holds and its commands, Stats has
--   `stats` with `claim`, `recompute`, `release` and `readStats`, for one organisation: any number
--   of requests, each a phase that one step takes on by one command, with its time and the reply of
--   Redis. The loop of a waiter is steps, so no fuel is needed. Flight is about the lock, Work,
--   Writes and Spacing about what is written under it, Origin, Hand and Honest about the answers.
-- - Observability: what the backend knows of a request. RequestId has the ids of
--   apps/backend/src/observability/request-context.ts and the SQL comment that carries one
--   (Comment), Counters the counters of a request and the histograms of the pool (Observed),
--   Connections `query`, `withClient`, `acquire` and `runOn` of
--   apps/backend/src/postgres/postgres.service.ts, where a callback is a tree of statements and
--   what the code makes of their answers (Accounts), and Finish the interceptor of
--   apps/backend/src/observability/logging.interceptor.ts around them (Reports). A request runs
--   alone here, from any state of the pool.
-- - Frontend: `loadMore` of apps/frontend/app/conversations/conversation-list.tsx, over the list of
--   the backend: the pages that the browser has loaded, with clicks, answers and failures as
--   events. Api has the cached reads of apps/frontend/lib/api.ts over Next's data cache, which is
--   an interface with laws, with the arms and tags of Arms and the URLs of Sources; its child
--   Actions the writes of apps/frontend/app/conversations/actions.ts and the route that expires
--   tags (Expired is about what goes, Held about what the cache holds over time, Fresh about what
--   is read after), and Label who is said to have answered. PageShape reads the backend's pages
--   under the types of the frontend.
-- - Health: apps/backend/src/health/health.service.ts: the probes, readiness, and the drain as
--   events (the shutdown hook, its delay, the server's close, requests and responses).
-- - Imports: apps/backend/src/imports/imports.service.ts. Batch is one transaction, Run the two
--   loops, an attempt and a retry. Keys, Progress, Stream, Calm and Failing build up what an
--   attempt leaves, Laws and Lost state it. The loops recur on the file's rows, so no fuel is
--   needed.
--
-- A table of conversations holds the columns that its component uses. Row-level security is the
-- test of `org_id` in every statement. Ids and times enter by equality and order only and are
-- numbers; `version` keeps the overflow of an `integer`, and the numbers of a claim the ranges of
-- their casts. A transaction that fails is rolled back whole, while the process's own counters stay
-- as they are. The logger, the spooled file, the framework's wiring, the other pages of the
-- frontend and the measuring scripts are not modelled: they are I/O around these parts.
mod Prelude
pub mod Conversations
pub mod RateLimit
pub mod Imports
pub mod Tenancy
pub mod Ingest
pub mod Jobs
pub mod Entitlements
pub mod Health
pub mod Search
pub mod Frontend
pub mod Observability
