-- ===== src/ToolRouter.antt =====
-- src/core/tool-router.ts: routing by tags, delegation with budget and verification, and events.
pub mod Routing
pub mod Delegation
pub mod Consensus
pub mod Verification
pub mod Events
