-- ===== src/Generator.antt =====
-- generator.py, by its parts.
pub mod Grouping
pub mod Participants
pub mod Recordings
pub mod Voicemail
pub mod Attributes
pub mod Batch
