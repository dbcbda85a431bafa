-- ===== src/Lib.antt =====
-- iDoris routes requests for language models: to local models on the host, to a subscription relay,
-- or to remote providers, under rules of privacy, price and budget. This library models the parts
-- of its Rust workspace that decide; the parts that move bytes are left out.
--
-- A card (crates/idoris-contracts, crates/idoris-policy/src/card.rs) describes a candidate. A set
-- of cards is registered once, all of it or none. For each request the pipeline filters the
-- registered cards by privacy, role and capability, price and admission, asks the budget of the
-- tenant, and picks the least candidate of what is left. Circuit breakers, one for each class of
-- credential and key, then let the call to the chosen provider through or refuse it, and learn from
-- its outcome. If the chosen model is local and not loaded, the eviction plan says which models
-- must leave the memory of the host first; the supervisor then unloads the victims, asks for a
-- proof that their memory is free, loads the model and probes it until it is ready. The memory that
-- all runtimes of the process claim together is kept in one ledger of capacity. Before a paid call
-- the router sizes the reservation of budget by an estimate of the tokens of the text, reserves it in
-- the ledger of budgets, and settles the reservation at the cost of the call or releases it.
--
-- Files and sources:
--   Contracts             crates/idoris-contracts/src: common.rs, component_card.rs, provider.rs,
--                         load_policy.rs, task_profile.rs, tenant.rs
--   Policy/Role           crates/idoris-policy/src/role.rs; proofs in Role/Parse
--   Policy/Card           crates/idoris-policy/src/card.rs, and the conditions on cards of role.rs
--   Policy/Privacy        crates/idoris-policy/src/privacy.rs
--   Policy/Budget         crates/idoris-policy/src/budget.rs
--   Policy/Registration   crates/idoris-policy/src/registry.rs and card_validation.rs; proofs in
--                         Registration/Accepted
--   Policy/Breaker        crates/idoris-policy/src/breaker.rs, `Breaker`; proofs in
--                         Breaker/Validity, Window and Probe
--   Policy/Breaker/Book   the same file, `BreakerBook`; proofs in Book/Pairs and Book/Atomic
--   Policy/Breaker/RetryAfter   the same file, `parse_retry_after_ms`
--   Policy/Pipeline       crates/idoris-policy/src/pipeline: Types is types.rs; Pick, Stages and
--                         Decide are mod.rs; proofs in Gates, Inversion, Spending, Affinity,
--                         Starved, Rejections, Failures, Precedence and Order
--   Backend/Eviction      crates/idoris-backend/src/eviction.rs; proofs in Eviction/Order, Plans and
--                         Refusals
--   Backend/Error         crates/idoris-backend/src/error.rs
--   Backend/Capacity      crates/idoris-backend/src/global_capacity.rs; Units is the conversion of
--                         amounts; proofs in Units/Bounds, Totals, Growth and History
--   Backend/Supervisor    crates/idoris-backend/src/supervisor.rs: Slots, Accounting, Requests and Admission
--                         are `handle_load`, with the start of a load, and what it reads; Adapter has the
--                         data of a load and the calls of an adapter, Release and LoadFlow are
--                         `run_load_flow` and what it calls; Settlement and OpDone are what the
--                         end of a load changes; proofs in Slots/Victims, OpDone/Answers
--                         and Unconfirmed,
--                         Admission/Replies, Claims, Decisions and Total, Release/Evidence, Quiet, and
--                         LoadFlow/Traces, Endings, Reports, Victims and Length
--   Tenancy/Estimator     crates/idoris-tenancy/src/budget/estimator.rs
--   Tenancy/Budget        crates/idoris-tenancy/src/budget: Types and Amount are error.rs, scope.rs
--                         and the data of ledger.rs, Period is period.rs, and Zones is
--                         `is_iana_time_zone` of crates/idoris-contracts/src/tenant.rs; the rest is
--                         ledger.rs: Keys and Store are its tables and the statements on them,
--                         Configure, Views, Admit, Settle and Extend its methods, Operations the
--                         methods as the steps of a history, with what they leave alone in Frame.
--                         The Endings of a method, and Extend/Lifetime, say how its transaction
--                         ends; proofs in Admit/Limits, Grants and Refusals, Settle/Charges, Once
--                         and Overflow, Extend/Closed, Final and Release, Configure/Agreement, Written and History,
--                         Accounts (Steps, History, Book) and Isolation
--   Prelude               what these share: Boolean tests, lists, texts, integers, `f64`, results,
--                         orders
--   Examples, Fixtures    runs at concrete inputs
--
-- The functions keep the names of the source. A method on `&mut self` returns the new value. A
-- panic is `none` in the book of breakers and in the supervisor, and `panics` in the pipeline. The
-- global counter of breaker identities is passed in and out. A clock reading is an argument, and so is
-- a random identity. A table of the ledger of budgets is a list of rows; a method there takes the
-- store and returns it with its answer, and `transact` gives the old store back where the source
-- leaves before its commit. SQLite runs one writing transaction at a time, so that a history is a
-- sequence of calls; the second read of `replay_settlement` is taken to follow its settlement at
-- once. The failures of SQLite itself (a busy or broken file) are left out, except that a row whose
-- key is taken and a sum that overflows are refused. Texts
-- are lists of code points or of bytes, as each file says.
--
-- Numbers: `u64` saturates or wraps where the source does; `i64` amounts are integers, and the one
-- subtraction on them in the pipeline wraps at 64 bits, as a release build does; the ledger of
-- budgets clamps or checks, as its source does. `f64` is modelled exactly for
-- comparison, addition and subtraction, with rounding to 53 binary digits, infinities and NaN
-- (Prelude/Float). The one function on fuel is the number of binary digits, with a fuel of 2200: a
-- finite `f64` is below 2 ^ 2099 in the unit of 2 ^ -1074, so a sum is below 2 ^ 2100; an amount of
-- units is below 2 ^ 128, so its quotient has fewer digits too. The loops of a load that wait for a
-- release or for readiness run on the number of attempts left, which the configuration bounds.
--
-- Parameters: the URL parser of the `url` crate, and the build's choice to allow the scheme `mock`,
-- in Registration; the budget view of a tenant, in the request context of the pipeline; the answers
-- of the adapter and of the load fence, which may depend on all calls before them, with a call that
-- does not answer in time; the zones and the local months of chrono-tz, as `TimeZones`, in
-- Tenancy/Budget/Period.
--
-- Not modelled: the message loop of the supervisor, with its start, unloads and chats, and the
-- files of the load fence, in crates/idoris-backend; the rest of crates/idoris-tenancy (the
-- schema of the ledger and its migrations, billing, keys, events); crates/idoris-recommender; content inspection and credentials of
-- crates/idoris-policy; the HTTP surface of crates/idoris-router and the clients of crates/idoris-
-- upstream, which are mostly input and output; serialisation and the texts of errors; packages,
-- which holds the TypeScript reference; and vendored code, tools and scripts.

pub mod Prelude
pub mod Contracts
pub mod Policy
pub mod Backend
pub mod Tenancy
