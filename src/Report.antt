-- ===== src/Report.antt =====
-- internal/report: request and report identifiers, the in-memory cache of finished checks, and the
-- store of promoted reports.
pub mod Id
pub mod Ephemeral
pub mod Store
