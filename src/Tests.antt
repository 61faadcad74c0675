-- ===== src/Tests.antt =====
-- Samples and tests: each property that has hypotheses is applied to values that meet them.
mod Approvals
mod Samples
mod Workers
mod Frontends
mod Manifests
mod Shells
mod Extension
mod Capabilities
mod Databases
