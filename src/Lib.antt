-- ===== src/Lib.antt =====
-- CrashWave: the core of an automated player of a crash game, as its TypeScript sources define it.
--
-- Parts and files.
-- - StateMachine: src/core/state-machine. `Types` (types.ts), `Transitions` (the transition table and
--   its lookups), `Guards` (guards.ts), `Effects`, `Dispatch` and `Config` (the class
--   BettingStateMachine of machine.ts: `send` looks up the rule of the state and the event, evaluates
--   its guard, and applies the side effects; the constructor and updateContext overwrite the context).
--   Proofs: `Table` and `Graph` (the table), `View` (the ways a send can end), `Safety` and `Entry`
--   (the gate before a bet), `Runs`, `Halt`, `BetFlag` and `OpenBet`
--   (sequences of events).
-- - Settlement: src/settlement. `Types` and `Engine` (authoritative-settlement-engine.ts over its two
--   tables; a call is a function of the tables, and a transaction that throws leaves them alone).
--   Amounts are whole units of 10⁻⁸, the precision the engine stores. Proofs: `Balance` (the check of
--   each order), `Orders` and `Journal` (sums over both tables), `WellFormed`, `Books` (sequences of
--   calls), `Final`, `Kept` and `Lasting` (orders that are settled).
-- - Betting: src/betting. `Types`; `Idempotency` (idempotency.ts: the interface a placement needs,
--   and the in-memory store with its expiry; the times at which its timer fires between two calls are
--   a parameter), `RedisStore` (the store over a Redis client, which is a parameter: a record
--   of commands that may throw); `Executor` (executor.ts, placeBet: a function of the store that also
--   returns the adapter's calls). The adapter's answers are a function of the attempt; the loop's fuel
--   is its own bound, maxPlacementRetries + 1. Proofs: `Attempts`, `Once` and `Resubmits` (how often
--   the adapter is called), `Outcomes` (what an answer means), `Preserves`, `Expiry`, `Keys`, `Statuses`
--   and `FailSafe` (the store under a placement).
-- - Ledger: src/ledger. `Types`, `Daily` (daily-entries.ts over the rows of one daily key) and
--   `InMemory` (in-memory-daily-ledger.ts). Proofs: `Counts`, `Limit` and `Leak` (Postgres), `Buckets`
--   (in memory).
-- - CashOut: src/betting/cashout.ts. `Controller` (the monitor as a step for each thing that can happen
--   to it, in any order). Proofs: `Monitor` (its invariant), `Resolution` (its promise), `Ticks`.
-- - Risk: src/betting/risk-engine.ts (`Engine`) and src/core/circuit-breaker (`Circuit`), whose state the
--   engine reads. Proofs: `Approval` (what an approval means) and `Breaks` (when the breaker is open).
-- - Queue: src/core/job-queue/priority-queue.ts. `Jobs` (the queue with the jobs that its handler
--   holds; the loop of `pump` runs as often as there are free places). Proofs: `Selection` (which job
--   is taken), `Bounds` and `Runs` (how many jobs wait and run, over any calls).
--
-- - Bets: src/persistence/repositories/bet-repo.ts. `Types`, `Memory` and `Numbering` (the repository in
--   memory), `Postgres` (create and update of the repository over a pool, which is a parameter: a
--   record of the queries it sends, each of which may throw). `Store` is the interface that the
--   clients of a repository rely on, with its laws; `MemoryStore` fills it with the repository in
--   memory. What PostgreSQL does in a transaction is the record of hypotheses `TransactionRules` of
--   `Transactions`: a failed statement poisons its transaction, and its commit is a rollback. Proofs:
--   `Lookup`, `Calls` and `Stats` (in memory), `Transactions` (Postgres).
-- - Recovery: src/ledger/unknown-state-recovery.ts over any `Bets.Store`. `Types` and `Sweep` (the sweep
--   over unknown bets and the operator's resolution). The provider of evidence, the alert and the
--   round's record are parameters that may throw. Stakes are in cents and multipliers in hundredths,
--   the rounding to cents is written out. Proofs: `Evidence` and `Settled` (a sweep), `Manual`.
-- - Emergency: src/core/emergency-stop.ts over any `Bets.Store`. `Stop`; how the executors and the event
--   bus answer is a parameter. Proofs: `Cancelled`, `Gate`, `Complete`.
-- - Reconcile: src/ledger/balance-reconciliation.ts. `Pages` (the expected balance: the paging loops run
--   on fuel 1001, the number of pages of 1000 up to the source's safety stop at offset 1,000,000) and
--   `Run` (reconcile and its alarms). The pages of the repository, the row of the aggregate query, the
--   tracker's balance and the event bus are parameters. Amounts are integers in hundredths, so that
--   rounding to hundredths changes nothing. Proofs: `Paging`, `Sum`, `Streak`.
-- - Settlement/Boot: src/settlement/boot-reconcile.ts, the boot over the settlement engine, with any
--   provider of evidence. Proofs: `Effects`.
-- - Utils: src/utils. `Breaker`, `Retry` (retry.ts; the jitter, onRetry and the operation's
--   answers are parameters, the loop's fuel is its own number of attempts) and `Locks` (async.ts: a mutex and a
--   semaphore as step functions on the holder and the queue of the waiting). Proofs: `Attempts`,
--   `Admission` (the breaker), `Fairness` and `MutexRefinement` (the locks).
-- - Leases: src/core/distributed-mutex.ts. `Types` and `Mutex` (an attempt of an acquisition is a step, and
--   other calls may come between two attempts; the loop runs on fuel `retryCount` + 1, the number of its
--   attempts); the Redis client is a parameter, a record of commands that may throw, and so is the
--   clock. Proofs: `Lasting` and `Exclusion` (while a lease lasts), `Expiry` (how an acquisition ends).
-- - Virtual: src/core/dry-run/virtual-ledger.ts. `Ledger` and its proof `Books`; a payout is stake times
--   target, in cents times hundredths.
-- - Capital: src/capital/in-memory-limits.ts. `Guard` and its proof `Limits`.
-- - Throttle: src/telegram/throttle.ts, one severity. `Channel` (a delivery is in flight until a
--   step of its own ends it, well or badly, in any order). Proofs: `Account`, `Deliveries` and
--   `Lossless`.
-- - EventLog: src/core/event-bus/persistent-log.ts. `Log` and its proof `Last`.
--
-- The machine, the risk engine and the executor are the three gates of a bet: the engine's verdict
-- enters the machine as an event, and the executor asks the idempotency store once more. The settlement
-- engine then books the bet, and the cash-out controller ends it. A boot drives the settlement engine;
-- the recovery sweep and the emergency stop are clients of the repository of bets, through the interface
-- that the repository in memory fills, and the balance reconciliation reads what they leave. Each is
-- modelled as it is called, without the orchestrator between them.
--
-- Other components are not modelled: the browser, the network, the telegram router, the migrations and
-- the services around the core are I/O; prediction and analytics are statistics on floating point.
pub mod Prelude
pub mod Bets
pub mod Betting
pub mod Capital
pub mod CashOut
pub mod Emergency
pub mod EventLog
pub mod Leases
pub mod Ledger
pub mod Queue
pub mod Reconcile
pub mod Recovery
pub mod Risk
pub mod Settlement
pub mod StateMachine
pub mod Throttle
pub mod Utils
pub mod Virtual
