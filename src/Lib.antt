-- ===== src/Lib.antt =====
-- A verification library for the deterministic core of the stock agent: the parts that decide
-- who works on a job, what a proposal may become, when a decision counts as final and when the
-- system may be trusted to make one. Language models only propose; these parts dispose.
--
-- The parts and how they interact. Jobs wait in a table, from which workers take them under a
-- lease; a job may evaluate the outcome of an earlier decision, which has a lease of its own. A
-- formal decision is a run through fixed states, made only while the upstream systems are ready
-- and with models called through a circuit breaker and retries. Its proposals pass the policy
-- engine; candidates become a portfolio under the budget of the market's regime, which a state
-- machine keeps from day to day. A knowledge conclusion is a run of its own kind, which several
-- workers may move on at once. Backtests replay such decisions on a book of lots, and trading
-- calendars tell which day a session falls on.
--
-- Base: the names that all modules share; Boolean tests, lists, tables of rows with an id, and
--   integers over the native numbers.
-- Jobs: storage/repositories/job_repository.py and workers/job_worker.py. A Task is a row of
--   job_task, a Table a list of rows; create, heartbeat, has_lease, claim_next (both dialects),
--   claim, mark_running, mark_finished, mark_failed and cancel are the methods, each with the
--   clock's reading and the fresh ids as arguments; Worker has process_one_job and heartbeat_loop
--   with the handlers, the clock and what other workers do in the meantime as parameters.
-- OutcomeLease: app/application/outcomes/lease_repository.py, in memory and persistent.
-- Runs: app/domain/decision/run.py and app/domain/knowledge_conclusion_run.py.
-- Conclusion: app/application/knowledge_conclusion/run_service.py. Repository has the store of
--   app/adapters/postgres/knowledge_conclusion_repository.py, Service the operations, each a plan
--   made from the run that was read and executed on the store as it is by then; Growth and Write
--   say what a plan and its execution leave, Concurrent and Evolution what any interleaving
--   leaves, Repeat what a second call does; Replay has replay. Hashes, grounding, the citation
--   edges and the two constructions of a conclusion are parameters.
-- Gateway: app/model_gateway/circuit_breaker.py (Breaker), retry.py (Retry), budget.py (Budget),
--   and ModelGateway.complete of gateway.py with routing.py (Complete; Spending and Fallback prove
--   what it charges and when it answers). The loops of retry_call and of the structured attempts
--   run on fuel, the number that range() is given, so they never run out before the source's
--   loops end. The providers' answers and the clock are parameters.
-- Regime: engines/regime/regime_state_machine.py with the rows of
--   storage/repositories/research_repository.py, for one market.
-- Policy: engines/policy/models.py, rules.py and engine.py. First has the rules of the first
--   generation, Second those of the second, each with the engine's branch for it; Contract has
--   the validators of contracts/decision.py.
-- Portfolio: engines/portfolio/pipeline.py. Target is stage 3, Limits are stages 4 and 5,
--   Turnover is stage 6.
-- Readiness: app/application/readiness/service.py with the statuses of
--   app/ports/upstream_capabilities.py.
-- Authorization: FormalDecisionFinalizer and its envelope of
--   app/domain/decision/execution_authorization.py.
-- Backtest: PositionBook of engines/backtest/execution.py (Book), and _PortfolioState of
--   engines/backtest/portfolio_backtest.py with cost_of (Ledger; Reconcile and Orders compare the
--   cash and the positions with the log of trades). Rebalance has the steps of _rebalance_day,
--   for which the day's view of the market is a parameter; DayTrades and Targets say what it
--   trades.
-- PriceLimit: engines/market/price_limit_rules.py (Rules), and limit_up_price, limit_down_price,
--   can_buy_with_context and can_sell_with_context of engines/backtest/execution.py (Prices).
-- Conflict: resolve_conflicts_v2 of engines/decision/conflict_resolver.py; Veto has its theorems.
-- Calendar: engines/market/trading_clock.py. Sessions has the protocol with the contract its
--   clients rely on and advance_sessions; Weekday and Snapshot are calendars that keep it; Clock
--   has the phase of a session. The loops of Weekday run on fuel 3, which Weekday proves enough
--   for every date; other loops are over lists or counts.
-- Memory: engines/memory/evidence.py (Evidence), and of engines/memory/lifecycle.py
--   record_outcome_evidence for one memory (Lifecycle) and expire_due over the rows (Expiry). The
--   recency of an event, a power of 1/2, is a parameter.
--
-- Conventions. Texts, JSON values and hashes are numbers, 0 the empty text; times are seconds from
-- a fixed origin; weights, prices and confidences are whole numbers of a unit. Floating-point
-- rounding is a parameter in Policy (Arithmetic) and in the targets of Portfolio; elsewhere the
-- arithmetic is exact, or rounds where a definition says so. sha256, handlers and upstream probes
-- are parameters.
--
-- Not modelled: HTTP routes, prompts and agents, the database's own isolation, the DDL, logging,
-- reason texts, and the components that read or format only.
pub mod Base
pub mod Jobs
pub mod OutcomeLease
pub mod Runs
pub mod Gateway
pub mod Regime
pub mod Policy
pub mod Portfolio
pub mod Readiness
pub mod Authorization
pub mod Backtest
pub mod Conclusion
pub mod Calendar
pub mod Conflict
pub mod PriceLimit
pub mod Memory
