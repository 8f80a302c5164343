-- ===== src/Lib.antt =====
-- EvenFlow sells tickets for events to crowds. Its Go services share a Postgres database, a Redis
-- store and a message broker. An organiser prepares an event, a moderator approves it, and its sale
-- opens at a set time (services/event). A buyer holds seats (services/ticketing), pays
-- (services/payment), gets signed tickets and shows them at the gate (services/ticketing). The order
-- is the shared object: ticketing creates it as HELD, payment moves it to PAYMENT_PENDING, PAID,
-- REFUNDING, REFUNDED, CANCELLED or EXPIRED and writes an outbox row for each step, and ticketing
-- turns a PAID order into an ISSUED one.
--
-- Files and the code that they are about:
--   Prelude, Prelude/*       Boolean tests, lists, integers, maps, texts and sorting.
--   Distribution             the loop that spreads a quota over buckets, which
--                            services/ticketing/internal/domain/inventory.go and
--                            services/event/internal/domain/ticket_tier.go both contain.
--   Event/Tier               services/event/internal/domain/ticket_tier.go and errors.go.
--   Event/Aggregate          services/event/internal/domain/event.go, one function per method.
--   Event/Lifecycle, Invariant, Sales    proofs about histories of method calls.
--   Event/Repository         services/event/internal/adapter/postgres/event_repo.go: the tables of
--                            events, tiers, stock and outbox, and the statements on them.
--   Event/UseCases, ManageTiers
--                            services/event/internal/app: create_event.go, update_event.go,
--                            transition_state.go, moderation_action.go and manage_tiers.go.
--   Event/Relay              services/event/internal/worker/outbox_relay.go, one round.
--   Event/Governed, Restock, Relaying    proofs.
--   Payment/Types            services/payment/internal/domain/payment.go and errors.go.
--   Payment/Store, Orders, Inbox
--                            services/payment/internal/adapter/postgres/memory_repository.go, one
--                            function per method, from store to store; Store has payments, Orders
--                            cancellations and refunds, Inbox the inbox of webhooks.
--   Payment/App/Ports        the providers of services/payment/internal/port, as records of functions.
--   Payment/App/Webhook, ReplayInbox, InitiatePayment, RefundEvent, Reconcile
--                            services/payment/internal/app, one file per use case, on the in-memory
--                            repository.
--   Payment/App/UseCases     all of them as one step. Cases, Reach, ReachJobs, Counts, Authentic,
--                            Starting, Refunded, EarlyWebhook and LateOrder are proofs.
--   Payment/History, Repeated, Cases, Once, Settlement, Lifecycle, Replay, Pending   proofs.
--   Ticketing/Inventory      services/ticketing/internal/domain/inventory.go, availability.go,
--                            purchase_limit.go and errors.go.
--   Ticketing/Limits         services/ticketing/internal/app/get_purchase_limit.go and the limits
--                            that create_hold.go checks.
--   Ticketing/Ticket, Tables services/ticketing/internal/domain/ticket.go and
--                            services/ticketing/internal/adapter/postgres/ticket_repository.go:
--                            tables as lists of rows, statements and transactions on them.
--   Ticketing/Scan           services/ticketing/internal/app/verify_ticket.go and
--                            check_in_ticket.go.
--   Ticketing/Gate           services/ticketing/internal/adapter/redis/gate.go and its scripts
--                            script/hold.lua and script/release.lua: one event's stock in Redis.
--   Ticketing/CreateHold     services/ticketing/internal/app/create_hold.go, on Gate and on a
--                            repository that is an argument.
--   Ticketing/Ledger         services/ticketing/internal/adapter/postgres/repository.go: PersistHold
--                            and ReleaseHold on the tables of stock, orders and holds.
--   Ticketing/Qr             libs/go/authx/qr.go, on an interface of JSON, base64 and HMAC.
--   Ticketing/Fairness, Cases, Spent, Admission, Issuing, Stock, Conservation, Compensation,
--   Holding, Balance, Solvency, NoOversell, Expiry         proofs.
--   WaitingRoom/Float        numbers with a fraction, as an interface with laws; there is no NaN in it.
--   WaitingRoom/Controller   services/waitingroom/internal/app/admit_controller.go, one round of the
--                            loop; Race interleaves its atomic accesses with an operator's.
--   WaitingRoom/Supervisor   services/waitingroom/internal/app/event_supervisor.go.
--   WaitingRoom/Config, Position
--                            services/waitingroom/internal/config/admit.go and domain/position.go.
--   WaitingRoom/Rates, Recovery, Override, Estimates    proofs.
--   */*Examples               tests, and the theorems at concrete values.
--
-- How the code becomes definitions. A method that changes its receiver returns the new record beside
-- its error; a method of a repository takes the store and returns the new one. A repository call is
-- one step: the in-memory repository holds a mutex for the whole call, and the statements of a
-- transaction take effect together or, on any error, not at all. Interleavings are lists of steps. Go
-- maps are association lists in the order of a `range` loop, and what is proved holds in every order.
-- Times are numbers, of nanoseconds with 0 as the zero time or, in Redis, of milliseconds; clocks,
-- fresh identifiers, the form of a UUID, the check of a QR code and the failures of the database are arguments. Go's `int` and `int64`
-- are integers without a bound: prices, quotas and counts come from 32-bit and 64-bit columns, far
-- from the ends of the 64-bit types in all sums and in the products by 100 that the code forms. Log
-- lines are left out. All loops are recursions on a list or on a count, so that no definition needs
-- fuel.
--
-- Not modelled: HTTP handlers, metrics, message relays and start-up code, which are input and output;
-- the clients of payment providers and password hashing, which rest on third-party protocols; the
-- Postgres repository of payments, whose methods the in-memory one states; the background workers; the
-- waiting room's Redis scripts and the parsing of its settings; the verdicts of the AI review, the
-- records of reviews and audits; the gateway, identity and notification services; the web client and
-- the Python worker.
pub mod Prelude
pub mod Distribution
pub mod Event
pub mod Payment
pub mod Ticketing
pub mod WaitingRoom
