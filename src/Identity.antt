-- ===== src/Identity.antt =====
-- Identities of agents and the subjects they stand for: `SubjectResolutionService` of
-- identity/subject-resolution.mjs, `PassportMapper` and its file store.
pub mod Mapper
pub mod Subject
pub mod Resolution
pub mod Stable
mod Tests
