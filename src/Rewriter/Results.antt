-- ===== src/Rewriter/Results.antt =====
-- What a rewriter may not change, and what it leaves behind.
use pscheduler.Json.{Json}
use pscheduler.World.{World}
use pscheduler.Proposal.{Proposal}
