-- ===== src/Harness.antt =====
-- Tools and their calls: src/agents_system/harness.
pub mod Tools
pub mod Interceptor
