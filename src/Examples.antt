-- ===== src/Examples.antt =====
-- The theorems at concrete inputs: one tenant, an unassigned case, an officer and a reply.
mod Fixtures
mod Dictionaries
mod CaseExamples
mod ReplyExamples
mod LedgerExamples
mod AccountExamples
mod KnowledgeExamples
mod IngestExamples
