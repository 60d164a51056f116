-- ===== src/Lib.antt =====
-- A verification library for the core of the Nexus trade engine: the path of an order from the risk
-- checks over the live loop and the broker to its fills, and the engines beside it that decide how
-- much may be traded, which strategy may trade live, how capital is split and what is taxed.
--
-- The parts and the files that model them:
--   Oms: engine/core/oms. States has the statuses and `VALID_TRANSITIONS`, Events the broker's facts,
--     Order the immutable order with `apply_event`, Risk the ordered checks and `RiskGate.evaluate`,
--     Persistence the projection to a database row. An error is the `err` of an `Outcome`, and an
--     event returns a new order. Order/Steps puts every accepted event into one equation; Order/
--     History has sequences of events, Order/Average the average fill price.
--   Live: engine/core/live. KillSwitch is the switch that stops submissions and tells its
--     observers; Loop is `LiveLoop`, which asks the risk gate, calls the broker
--     (engine/core/brokers/base.py), engages the switch when the credentials fail, and applies the
--     broker's events to the orders it tracks. An operation takes the loop's state and gives the
--     state that it leaves, also when it raises.
--   RiskLimits: engine/core/risk_limits.py, the account-level gate: the circuit breaker, the caps,
--     the concentrations and the rolling limit on the number of orders.
--   Lifecycle: engine/core/strategy_lifecycle.py, the promotion of a strategy from draft to live.
--   Capital: engine/core/capital_allocation.py, the split of capital by largest remainders.
--   Tax: WashSale is engine/core/tax/wash_sale.py; Kest is engine/core/tax/reports/kest.py and
--     kest_carryover.py, the German tax and its carry-forward; Pfu is france_pfu.py and
--     pfu_carryover.py, the French one with its vintages, Cgt hmrc_cgt.py and cgt_carryover.py, the
--     British one; CapitalLoss is engine/core/tax/reports/carryover.py, the American one, and
--     Carryback is engine/core/tax/reports/section_1256_carryback.py.
--   Versioning: engine/core/strategy_versioning.py, the in-memory registry of a strategy's deployments
--     and the service on it. Updates and Rollback read an operation as a rewriting of every stored
--     version, Reach has the sequences of calls.
--   Portfolio: engine/core/portfolio.py with the lots of engine/core/cost_model.py. Consume is the
--     loop over the lots, Trades has the methods, Invariant and Sale what buys and sales do, Reach
--     the sequences of calls, Oldest the order in which FIFO takes the lots.
--   Signals: engine/core/signal_aggregator.py; Voted where its signals come from, Consensus what
--     strategies that agree decide.
--   OrderManager: engine/core/order_manager.py with risk_engine.py, in front of Portfolio. Risk has
--     the engine's checks, Reconcile a fill in the order and in the portfolio, Pipeline
--     `process_signal` and `continue_order`, whose attempts are bounded by the code's own cap; Daily
--     what the engine remembers, Units the position under a fill, Accounting, Continue and Signals
--     the books.
--   RateLimit: engine/api/rate_limit.py, the process-local token buckets and their eviction.
--   Ws: engine/api/ws. Ws is connection_manager.py with its two tables of rooms, Fanout and Upkeep
--     have its sending and its upkeep, Permissions and Channels are permissions.py and channels.py.
--     Reach has the steps, in any order, Shutdown and Closing the shutdown with what runs while it
--     waits, Delivery what a broadcast delivers, Subscriptions what subscribing and leaving do,
--     Access why a subscription fails.
--   Prelude: tests, lists, dicts, raised errors, integers, Python texts and floats.
--   Examples: concrete runs.
-- The loop owns the switch and the checks that the gate runs; the check of the switch reads the
-- loop's own, which is the process's. The order manager owns a portfolio and a risk engine. The gate
-- of RiskLimits, the lifecycle, the capital split and the tax engine do not call each other.
--
-- What stands for code outside of the repository: the decimal context's division and proration, the
-- text of a decimal, floats with their operations, the clock and what the broker or the backend
-- answers are parameters. What a theorem needs of them it asks for by name: `Rounds` for the division
-- (a quotient between two bounds is not rounded past them) and `Orders` for instants and a gate's
-- window.
-- Decimals are whole numbers of the smallest unit of their kind, so their sums, products and
-- comparisons are exact; the context's limit on digits is not modelled. An operation that runs under
-- a lock is one step. All loops run over lists or up to a bound of the code's, so no fuel is needed.
--
-- Not modelled: log lines, the metrics of the loop and the switch, and the constructors' defaults;
-- the listings and snapshots that only read a registry or a portfolio; of the rest of the repository
-- back-testing, statistics, the remaining tax reports, plugins, market data, and the web (but for the
-- rate limiter and the WebSocket connections), database and client layers.
pub mod Prelude
pub mod Oms
pub mod Live
pub mod RiskLimits
pub mod Lifecycle
pub mod Capital
pub mod Tax
pub mod Versioning
pub mod Ws
pub mod Portfolio
pub mod OrderManager
pub mod Signals
pub mod RateLimit
pub mod Examples
