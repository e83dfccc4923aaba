-- ===== src/Challenger.antt =====
-- src/challenger.cpp and challenger.h: the filter that challenges the visitors of a host.
pub mod State
pub mod Load
pub mod Answers
pub mod Check
pub mod Failures
pub mod Run
pub mod Pages
