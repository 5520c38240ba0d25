-- ===== src/Lib.antt =====
-- A model of the Issues API testbed, a small FastAPI service in front of the issues of one GitHub
-- repository (app/).
--
-- The service has two sides. The issue routes (app/routers/issues.py) validate a request with the
-- models of app/schemas.py, call GitHub through app/github_client.py, and project the answer onto
-- the response models. Listing issues also reads and fills the cache of app/cache.py, by the ETag
-- that GitHub gave for a page, and rewrites GitHub's `Link` header with app/pagination.py. The
-- webhook routes (app/routers/webhooks.py) verify a delivery with app/webhooks.py, record it in the
-- store of app/store.py, and list what is recorded. Every error is an exception that the handlers
-- of app/errors.py turn into a response. app/main.py puts these together from the settings of
-- app/config.py. scripts/replay_webhook.py is a client of the webhook routes.
--
-- The files, and what each models:
--   Prelude           shared names: texts as lists of code points, equality tests, lists, integers
--   Python            JSON values as Python reads them, and the methods of `str` in use
--   Errors, Handlers  app/errors.py: exception classes, the envelope, the exception handlers;
--                     `Result` is a value or the exception that was raised, and `Crash` lists the
--                     exceptions that no code of the service raises on purpose
--   Schemas           app/schemas.py: Requests has the request models with their validators,
--                     Projections the response models, `to_issue` and `to_comment`; Validation and
--                     Patches are about the bodies that are accepted
--   Http              requests and responses as the handlers see them; Bodies has the JSON of the
--                     response models, field by field
--   Contract          openapi.yaml: Shapes has the part of JSON Schema in use, Schemas the schemas
--                     of the bodies, Responses the statuses of each operation and its content;
--                     Fits is about the response bodies; Fields, Accepted and Patched are about
--                     the request bodies
--   Cache             app/cache.py: Defs has `ResponseCache` and its methods, Order the order of
--                     its entries, Lru the cache against an ideal one, Reads what `get` returns,
--                     Entries predicates that hold of every entry, Lines what `set` logs
--   Github            app/github_client.py: Calls has the six calls, Defs `_request` and
--                     `_map_error`, Mapping the table of DESIGN.md, Waiting is about the time to
--                     wait, Token about the token in a call; Lines has what `_request` logs
--   Pagination        app/pagination.py: Defs reads a `Link` header, Rewriting writes one,
--                     Targets has what is left of a URL, Segments, RoundTrip and Forwarded relate
--                     reading and writing
--   Store             app/store.py: Sql has the table and the statements, Defs the methods of
--                     `EventStore`, Idempotent, Redelivery, Recent, Newest, Rows and Payloads what
--                     they do to the rows and read of them; Interleaved has the steps of calls of
--                     `record` that overlap, Claims and Durable are about them; Clock has
--                     the text of a row's time, and Timeline the rows over time
--   Webhooks          app/webhooks.py: Defs has the checks and the summary, Signature is about
--                     which signatures pass
--   Routes            app/routers/: Issues has the issue routes (Listing is `list_issues`,
--                     Caching, Answers and Pages are about one call of it, Interleaved has the
--                     steps of calls that overlap and Provenance is about them, Token has the
--                     routes under two tokens, Lines what they log and Unseen the lines under two
--                     tokens), Webhooks has `receive_webhook` and `list_events` (Deliveries,
--                     Events and Supported are about them, Lines has what they log)
--   Config            app/config.py: `repo_slug` and `sqlite_path`; Settings has `Settings` with
--                     its validators and `get_settings`, Once is about its calls
--   Logging           app/logging.py: the middleware that gives a request its id; Lines has the
--                     chain of processors of `configure_logging` and its level, Carried what a
--                     line takes over from the context
--   App               app/main.py and app/dependencies.py: Defs has `create_app`, the two halves
--                     of `lifespan` and the dependencies, Serving a request from the middleware to
--                     its response, Unrouted a request that no route takes; Opening is about
--                     the store that is opened; Sound, Lifespan, RequestIds, Secrets and Undisclosed are about them; Documented (with Tame,
--                     Raised, Pages, IssueRoutes, HookRoutes, Routing and Stored) and Statuses set
--                     the responses against the contract; OpenApi has `_schema_without_auto_422`
--                     in Defs, and Stripped is about it; Logged has all that is logged for a
--                     request in Defs and by a process in Process, with Agreeing, Identified,
--                     Secret, Unsigned and Signatures about it
--   Replay            scripts/replay_webhook.py: Defs has the script over an HTTP client, Service
--                     the client that the webhook routes make, Accepted, Posted and Passes are
--                     about the two together; Printed has the lines that the script prints
--   Tests             concrete runs
--
-- A stateful operation takes the state and returns it: `EventStore` holds the database that its
-- connection is open on, `ResponseCache` the entries of its `OrderedDict` with the least recently
-- used first. A handler that fails after it has changed the cache returns the changed cache.
--
-- What is not the service's code is a parameter: SQLite (`Sqlite`, with the documented behaviour of
-- the statements in `IsSqlite`) and its file (`Disk`, with `IsDisk`), HMAC-SHA256 (`Hmac`), the
-- module json (`Codec`), floats (`Floats`), GitHub behind httpx (`Upstream`), pydantic's reading of
-- a scalar (`Pydantic`), urllib (`Urls`, with `IsUrlencode`) and structlog (`Structlog`, with
-- `IsStructlog`). GitHub is a function of the request for the length of one call of a handler.
-- Dates are their ISO texts. FastAPI's part in a request is its documented one: the dependencies of
-- a route, then the validation of its parameters, then the handler, and the handler of an exception
-- by its class, that of `Exception` outside the middleware.
--
-- The loops of the source run over a list or a text and are structural recursion, so nothing runs
-- on fuel: the attempts of the replay script are counted down from their number, the loop of
-- `ResponseCache.set` drops entries of a list until its bound is met, and the two regular
-- expressions of app/pagination.py are written out as the matches that they make.
--
-- Requests interleave in the service only at an `await`. The calls of `list_issues` on one cache do
-- so as the steps of Routes.Issues.Interleaved, which part a call where it awaits GitHub; the calls
-- of `record` on one connection as the steps of Store.Interleaved, which part a call at its two
-- `await`s and let the process end at any time. The other models run one handler at a time, and the
-- theorems on redelivery allow any deliveries in between.
--
-- A call of a logger is a `Line`, with its level, event and arguments, and the functions named
-- after a handler with `_lines` have the calls that it makes, in order. Such a line is written as
-- the JSON that the processors make of it and of the context that is bound, if its level is let
-- through. The times of lines, the durations of calls of GitHub, the text of a key of the cache and
-- the text of a traceback are arguments. These are the lines of the service's own loggers:
-- `logging.basicConfig` lets httpx and others write to the same output, and what they write is left
-- out. The text of a traceback may show what the exception was about, a character of a token or of
-- a secret that cannot be encoded included; theorems on what a log does not show leave it out.
--
-- Not modelled: how settings are read from the environment, and the time-out that goes to httpx
-- alone; how Starlette finds that no route takes a request; the schema that FastAPI makes of the
-- routes (an argument of `openapi`), the bytes of a JSON body, the `format` of a value
-- in openapi.yaml with its parameters and headers, the lines that libraries log, and how scripts/replay_webhook.py reads
-- its arguments.
pub mod Prelude
pub mod Config
pub mod Logging
pub mod Python
pub mod Errors
pub mod Schemas
pub mod Http
pub mod Contract
pub mod Handlers
pub mod Cache
pub mod Github
pub mod Pagination
pub mod Store
pub mod Webhooks
pub mod Routes
pub mod App
pub mod Replay
pub mod Tests
