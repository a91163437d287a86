-- ===== src/Lib.antt =====
-- The payment service (go/internal): HTTP handlers that take charges and refunds, the services behind
-- them, the PostgreSQL store, and the gateways that move the money.
--
-- A request comes to a handler (go/internal/payment/handler.go), which checks it and calls a service.
-- The payment service (service.go) looks for an earlier payment by idempotency key and by order,
-- charges a gateway (go/internal/gateway), and records the payment and a row of the audit log in one
-- transaction of the store (store.go). The refund service (refund.go) locks the payment in a
-- transaction, adds up its refunds, calls the gateway and settles both rows. Errors come back through
-- APIErrorFromErr (errors.go).
--
-- Files, by the code that they model:
--   Errors                errors.go: errors as values with what they wrap; api_error is APIErrorFromErr
--   Model, Model/Status   model.go: the entities; a NullString is an Option, a UUID and a time a number
--   Decimal               shopspring/decimal, a parameter; Decimal/Laws states what is relied on, and
--                         Decimal/Units has an instance with exact numbers
--   Text                  Go strings as lists of bytes, and the functions of package strings
--   Schema                src/main/resources/db/migration: rows, widths, keys, references
--   Schema/Statements     the INSERT, UPDATE and SELECT statements of store.go on these tables
--   World, World/Hoare    the state that a request reads and changes; actions with errors; the rules
--                         that the proofs use for them
--   Store and below       store.go: arguments and scans (Rows), methods and RunInTx (Postgres), a
--                         service's choice between a transaction and a plain store (Backend)
--   Gateway and below     gateway.go (Router), dto.go (Dto), mock.go with Stripe and PayPal (Providers)
--   Payments, Requests    service.go: ProcessPayment is process_payment_service, from the lookups to
--                         recover_duplicate; persist_processed_payment is persistProcessedPayment
--   Refunds               refund.go: ProcessRefund is process_refund_service; its closure persist is
--                         lock_and_check followed by refund_locked
--   Money                 money.go: the amounts of JSON bodies
--   Crypto and below      go/internal/crypto/encryption.go: the encryption service, and the masks
--                         (Masking); Laws says what is relied on of base64 and AES-GCM
--   Config and below      go/internal/config/config.go: Load and DatabaseURI
--   Httpx and below       go/internal/httpx/middleware.go: the rate limiter, its map (Table) and sweep;
--                         Buckets says what is relied on of golang.org/x/time/rate
--   Health, Server        go/internal/health/health.go and go/cmd/server/main.go: the probes, the
--                         gateways of a configuration, the routes, a request through the middleware
--   Handler and below     handler.go and dto.go: a handler takes the parsed body, the headers and the
--                         parameters and gives the status and the body of the answer
-- The other modules below these hold lemmas and theorems; Refunds/Ledger has the abstract ledger that
-- the refund service implements. Tests holds a small world and runs in it.
--
-- What is decided outside the repository is a field of Env, a parameter of every definition: the clock,
-- new UUIDs, random numbers, the Stripe client, the error of each round trip to the database, what
-- other clients do to the tables between round trips, the cast of a text to NUMERIC(19,4). Inside a
-- transaction nobody else changes the tables: the code locks the payment's row (SELECT FOR UPDATE), but
-- isolation of the rest is an assumption of this model. A Rollback, and a connection that is lost before
-- Commit, put the tables back as they were when the transaction began; a Commit that reports an error
-- may have taken effect all the same, as Env's commit_lands says. A round trip of a single statement
-- that fails has had no effect. A SELECT gives its rows newest first, those of the same time in the
-- order of the table: a definition of Schema/Statements that stands for ORDER BY. Every definition is total by structural recursion; there is no fuel.
--
-- A request at the rate limiter is one step: a sweep runs before or after it, not between getLimiter
-- and Allow. gin says which route a request matches; base64, hex, AES-GCM, strconv, QueryEscape, %d and
-- the token bucket are parameters of the definitions that use them.
--
-- Not modelled: gin, JSON and the metrics, which are libraries; the logger, the signals and the shutdown
-- in cmd/server, which are I/O; the rollback on a panic; nil pointers; the table payment_methods, which
-- the Go code does not use; the service in Java. In mock.go the mutex changes no result of a single
-- request.
pub mod Prelude
pub mod Text
pub mod Errors
pub mod Decimal
pub mod Model
pub mod Gateway
pub mod Schema
pub mod World
pub mod Store
pub mod Payments
pub mod Refunds
pub mod Handler
pub mod Crypto
pub mod Money
pub mod Config
pub mod Health
pub mod Server
pub mod Httpx
pub mod Tests
