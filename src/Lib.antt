-- ===== src/Lib.antt =====
-- The wallet service: deposits into and withdrawals from a client's positions, modelled from
-- the HTTP handlers to the tables of the database, over any implementation of decimals.
--
-- The parts of the program, and the files that model them:
--   * Domain (internal/domain): the entities Client, Asset, Position and ProcessedCommand, the product
--     types and the errors. A constructor gets the new identifier and the readings of the clock as
--     arguments. Domain/Effect models a call that returns a value or an error. Domain/*/Laws hold
--     what the constructors accept, Domain/Position/Lifecycle what updates keep.
--   * Ports (internal/ports): the interfaces, as records of operations on a state of the outside, with
--     the packages that the services call: UUIDs, times and JSON.
--   * Application (internal/application): Application/Deposit is deposit_service.go and
--     Application/Withdraw is withdraw_service.go. `execute` runs `steps`, which go on or return early
--     (Application/Flow). Application/Withdraw/Lots holds the two loops over the lots; the modules
--     Sale, Overdraft, Division, Precision, Consume, Sales, Allocate and Books beside it reason on
--     them. `Ends` in Application/Flow/Ends is the rule for each kind of step.
--   * Postgres (internal/adapters/outbound/postgres, migrations/001_initial_schema.sql):
--     Postgres/World is the state, tables as lists of rows; Postgres/Statements and Postgres/Writes are
--     the SQL statements with the constraints of the schema; Postgres/Repositories and
--     Postgres/PositionRepository are the repositories; Postgres/Transaction is `Do`.
--   * Http (internal/adapters/inbound/httphandler, cmd/http-lambda/main.go): the handlers and the
--     routing. Http/Observation has the spans, metrics and log lines of the handlers themselves, as
--     events of the process; Http/Handlers/Calls follows the requests that a process serves, and
--     Counts beside it what they count.
--   * Platform (internal/platform): Platform/Database has the settings and the pool, Platform/Logger
--     the loggers and their handlers, and Platform/Telemetry the start of OpenTelemetry.
--   * Lambda (cmd/http-lambda/main.go): the start of the process, with its exits, and the wiring of the
--     handlers.
--   * Skills (.github/skills/*/examples): the examples of handlers for HTTP and SQS that the repository
--     keeps beside the program, which does not use them.
--   * EndToEnd joins the services to the tables: EndToEnd/History for any sequence of requests,
--     EndToEnd/Success for those that nothing stands against, with EndToEnd/Success/Misfit for a row
--     that the table refuses, and EndToEnd/Retry with the handlers; Examples runs them
--     on concrete data.
--
-- How it is modelled. Decimals are an interface (Decimal) with the laws that the documentation of the
-- decimal package gives (Decimal/Laws): exact sums and products, rounding to the nearest value, and
-- division to sixteen digits. Decimal/Whole meets them over the integers, for the examples. What the
-- driver does with values is the parameter `Sql`; JSON, UUIDs and the text of times are parameters
-- too. A use of the connection fails when the world says so, at any point. A version is an `int` of
-- 64 bits that wraps. Every loop is structural recursion over a list, so no fuel is used.
--
-- The library of OpenTelemetry and that of the pool are parameters; the process writes its log lines
-- without failure.
--
-- Not modelled: the spans and log lines of the two services and the spans of the repositories, which
-- only observe; and the isolation of two transactions that run at the same time. What other requests
-- commit between two statements is modelled for the updates of positions, as any sequence of changes,
-- and for a command that another request has stored.
pub mod Prelude
pub mod Decimal
pub mod Domain
pub mod Ports
pub mod Application
pub mod Postgres
pub mod Http
pub mod Lambda
pub mod Platform
pub mod EndToEnd
pub mod Skills
mod Examples
