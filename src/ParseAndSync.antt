-- ===== src/ParseAndSync.antt =====
-- backend/python_services/core/use_cases/parse_and_sync.py: the use case that parses a text, syncs
-- the candidates of up to three passes with the lexicon and builds the table; Summaries.antt also
-- has `run` and `default_summary` of core/use_cases/third_pass_orchestrator.py.
pub mod Summaries
pub mod Progress
pub mod Execute
pub mod Rows
pub mod Close
