-- ===== src/Knowledge.antt =====
-- rag/service.py and rag/ingestion.py: documents of the knowledge base, their sections, and
-- answers from them.
pub mod Chunks
pub mod SliceLaws
pub mod ChunkLaws
pub mod Uploads
pub mod Extraction
pub mod Encoding
pub mod Rows
pub mod Documents
pub mod Ingestion
pub mod Life
pub mod Retrieval
pub mod Generation
pub mod Vetting
pub mod Feeding
pub mod Asides
pub mod Indexing
pub mod Operations
pub mod Creation
pub mod Vetted
pub mod Guarantee
pub mod Sources
pub mod Answers
pub mod Failures
