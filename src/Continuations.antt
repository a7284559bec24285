-- ===== src/Continuations.antt =====
-- core/src/weatherflow/continuations: what a model provider needs to resume a run, kept encrypted.
-- Bytes are texts of characters below 256; AES-GCM, SHA-256 and JSON's text are parameters.
pub mod Model
pub mod Crypto
pub mod Repository
pub mod Sealing
pub mod Resuming
pub mod Fitness
