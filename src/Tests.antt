-- ===== src/Tests.antt =====
-- Runs of the model at concrete inputs, and the theorems applied to them.
mod Sample
mod AuthRuns
mod Library
mod EntitlementRuns
mod PlaybackRuns
mod LimitRuns
mod UploadRuns
mod SupportRuns
mod LegacyRuns
mod CatalogRuns
mod MigrationRuns
