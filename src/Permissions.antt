-- ===== src/Permissions.antt =====
-- The permission model: src/agents_system/permissions.
pub mod Base
pub mod Registry
pub mod ToolRules
pub mod Builtins
