-- ===== src/Lib.antt =====
-- Verification of the core of DRoASMS, a Discord bot for an economy with governance.
--
-- The bot's services keep their state in PostgreSQL and reach it through gateways; the SQL functions
-- that a gateway calls do part of the work. A service returns a `Result` (src/infra/result.py). The
-- services are put together by a container (src/infra/di). The council decides on transfers by
-- votes and asks the transfer service to pay those that pass; a transfer service with an event pool
-- leaves its transfers to a coordinator, which checks, retries and executes them. Account numbers of
-- the government are derived from a guild's number and the registry of departments.
--
-- Parts, and the files that model them:
--   Council: src/bot/services/council_service.py over src/db/gateway/council_governance.py, with the
--     functions of src/db/functions/governance/fn_council.sql that the gateway calls and the records
--     of src/cython_ext/council_governance_models.py. Council/Defs is the data, Council/Gateway the
--     reads and writes of the tables, Council/Service the service: each method is the function of
--     its name (cancel is cancel_proposal; vote is cut into vote_fetched, vote_transaction and
--     evaluate, _attempt_execution into attempt_execution, pay and settle). The world is the tables,
--     the ledger and the events published. The ledger, the transfer service and the state council's
--     configuration are the parameter Services.
--   Economy: src/bot/services/transfer_service.py and adjustment_service.py over the gateways
--     economy_transfers.py, economy_adjustments.py and economy_queries.py of src/db/gateway, with
--     fn_transfer_currency.sql, fn_adjust_balance.sql and fn_get_balance.sql of src/db/functions.
--     Economy/Defs is the tables and the errors that the database raises, Economy/Transfer the
--     function and its gateway, Economy/Service the transfer service (_execute_transfer is
--     execute_transfer; transfer_currency is cut into leave_pending and transfer_now),
--     Economy/Adjust the adjustments, and Economy/Runs sequences of requests. A pending transfer is
--     the row of Pool/Defs. A statement that raises leaves nothing behind.
--   Departments: src/bot/services/department_registry.py (Departments/Defs) and the four functions
--     that derive account numbers (Departments/Accounts), in council_service.py,
--     state_council_service.py and supreme_assembly_service.py of src/bot/services.
--   Container: src/infra/di/container.py and lifecycle.py. Container/Defs has the registrations, the
--     three lifecycles and resolve.
--   Pool: src/bot/services/transfer_event_pool.py and src/cython_ext/transfer_pool_core.py, with the
--     gateway src/db/gateway/economy_pending_transfers.py. Pool/Defs has the store of check results,
--     the rows, retries, execution and cleanup, Pool/Closed sequences of events. The approval is
--     the one of src/db/functions/fn_check_and_approve_transfer.sql.
--   Paginator: src/bot/ui/paginator.py. Paginator/Defs has the pages, the buttons and the menu.
--   Applications: src/bot/services/application_service.py over
--     src/db/gateway/government_applications.py and src/db/gateway/business_license.py, with the
--     functions of src/db/functions/governance/fn_business_licenses.sql. Applications/Table is the
--     table of applications, generic in what is applied for, Applications/Licenses the licences,
--     Applications/Service the service, each method the function of its name, and
--     Applications/Validity sequences of requests. The ledger that a payment changes is a parameter.
--   Companies: src/bot/services/company_service.py over src/db/gateway/company.py and
--     src/db/functions/governance/fn_companies.sql. Companies/Defs has the table with its sequence,
--     the functions and the service; the licences are Applications' and the balances Economy's.
--   Permissions: src/bot/services/permission_service.py, with check_leader_permission and
--     check_department_permission of src/bot/services/state_council_service.py. Permissions/Defs has
--     the five checkers, each as a function of what the services answer to it.
--   Assembly: src/bot/services/supreme_assembly_service.py over
--     src/db/gateway/supreme_assembly_governance.py. Assembly/Defs has the tables and the gateway's
--     statements, Assembly/Service the service (vote is cut into vote_fetched, vote_transaction and
--     evaluate), Assembly/Runs sequences of requests. Each request is handled on its own.
--   History: get_history of src/bot/services/balance_service.py, with fn_get_history.sql and
--     fn_has_more_history.sql of src/db/functions, over the table of transactions of Economy/Defs.
--   Events: council_events.py, supreme_assembly_events.py and state_council_events.py of
--     src/infra/events, which share their code: who is subscribed, and whom an event is handed to.
--   Result: src/infra/result.py; Result/Sanitize is _sanitize_context, whose values are texts, dicts,
--     lists and others.
--   Prelude: tests on numbers, lists, Python's dict by numbers and by texts, and integers.
--
-- Numbers and identifiers are natural numbers where the program never has a negative one; Python's
-- integers do not wrap. A guild's number is a Discord snowflake; the sums that have to fit the
-- 64-bit column of the database are bounded in Departments/Accounts. UUIDs, member and thread
-- identities and times are numbers too. The loops are structural recursions. Container.resolve is
-- recursive through the factories, which Python bounds by its stack: it takes fuel, one for each
-- nested call, and a fuel above the number of registered types that are not being resolved is enough
-- (Container/Resolve).
--
-- Not modelled: Discord (commands, views, embeds), logging, connections and their failures,
-- migrations and scripts, the .pyx twins of the Python modules, which hold the same code, and the
-- services of the state council and the configuration of currencies. In the council the writes of
-- the role tables and the exports are left out; in the assembly its account and the exports; in the
-- pool the start, the stop, what the database's check functions compute, and a result that is
-- handled while a retry of the checks is running, which cancels it; in Result the decorators, the
-- error counters and AsyncResult.

pub mod Applications
pub mod Assembly
pub mod Companies
pub mod Container
pub mod Council
pub mod Departments
pub mod Economy
pub mod Events
pub mod History
pub mod Paginator
pub mod Permissions
pub mod Pool
pub mod Prelude
pub mod Result
