-- ===== src/Interpretor.antt =====
-- cel_interpretor.py, by its classes.
pub mod Extra
pub mod Recordings
pub mod Caller
pub mod UserEvents
pub mod Callee
pub mod Dispatch
pub mod LocalOriginate
