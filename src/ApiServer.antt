-- ===== src/ApiServer.antt =====
-- The REST API of pscheduler-server/pscheduler-server/api-server/pschedulerapiserver/: the limit
-- processor that it keeps, the choice of a tool, and the handlers of tasks and runs.
pub mod LimitProc
pub mod Script
pub mod Requests
pub mod PickTool
pub mod Tasks
pub mod Runs
