-- ===== src/Lib.antt =====
-- Verification of the moneymate backend: digital wallets on a double-entry ledger.
--
-- Parts of the program and their files:
--   Shared: library names, Boolean tests, signed integers (Shared/Int), tables as lists of rows
--   (Shared/Tables), Go's `strings` (Shared/Text), and actions that may fail (Shared/Action).
--   Errors: shared/pkg/errors/apperrors.go, the error values, MapDBErrors and ParseError.
--   Payment: services/payment. Domain has the rows (internal/domain) and the schema as one store;
--   Constraints has what PostgreSQL tests when a row is written (migrations); Queries has the
--   statements (sqlc/generated); Ledger has ExecuteTransfer and Deposits has ConfirmPayment,
--   MarkFailed and InitiateDeposit (internal/adapter/postgres/repo and internal/usecases); on the
--   ledger stand the use cases Transfers, Withdrawals (with the system transfer) and Pods; Wallets
--   opens wallets and reads them. System puts the use cases together: any sequence of the calls that
--   write but those on categories (internal/transport/http/routes.go), over one store and with any pattern of failures.
--   Auth: services/auth. Pins has the PINs of users (userpin_usecase.go, userpin_repo.go and the
--   statements on user_pins): setting, changing and verifying one, and the lock after five failures;
--   Handles has the handle that a new user is given (handle.go); Sessions has logging in and out,
--   the rotation of refresh tokens and the change of a password (auth_usecase.go, dto.go and the
--   statements on users and refresh_tokens), any sequence of such requests, and the version of a
--   user's tokens in Redis (internal/adapter/redis/token_store.go); Redis has the commands on keys
--   that expire and Codes the codes sent by mail (otp.go, ResetPassword in auth_usecase.go).
--   Rewards: services/rewards. Domain and Repo have the rows, the tables' constraints and the
--   statements (internal/domain, internal/adapter/postgres/repo, migrations); Calculation has the
--   reward of an amount (internal/usecases/rule_engine.go); Rules and Payouts have the operations on
--   rules, the events of completed payments and the replay of failed payouts (reward_usecase.go);
--   Service puts them together (internal/transport/http/routes.go). Beside the tables the store holds
--   the payments that the payment service has made, also those whose answer was an error.
--   Merchant: services/merchant. Campaigns has the creation of offers and the change of their status
--   (campaign_usecase.go, campaign_repo.go) under the limit that the store's plan sets.
--
-- How code is modelled. A repository or use-case method is an action: it takes an environment and
-- a world (the store and the number of calls made so far) and gives a result and a world. The
-- environment says, for each number of a call, whether the database fails there, what the clock
-- shows and which identifier is drawn, so a statement over every environment covers every pattern
-- of failures. A database transaction that raises, or whose COMMIT fails, restores the store.
-- A UUID is the number that its 32 digits write; a time is the number of its instant. Amounts are
-- signed integers: PostgreSQL's BIGINT raises error 22003 out of its range, Go's int64 negation is
-- written out. No definition recurses on fuel: loops are recursion on lists, texts or numbers.
-- Third-party code is a parameter: `uuid.Parse`, the text of a new identifier, the answers of
-- Razorpay and of the payment service, which are given by the number of the call, the hasher of
-- passwords and PINs, what issues and parses tokens, the mailer, the decoder of events, and random numbers.
-- Calls that the code runs at once (parallelrunners.Query2) run one after the other.
--
-- Not modelled: HTTP handlers, protobuf, Kafka clients, configuration and start-up code, which only
-- pass values on; registration, the administrator's operations on users, roles and staff; categories,
-- analytics, subscriptions, stores and support; row locks and isolation levels (transactions run one after another);
-- the overflow of the version column and of Redis's counters; the texts that wrap errors; lists by pages.
pub mod Shared
pub mod Errors
pub mod Payment
pub mod Auth
pub mod Rewards
pub mod Merchant
