-- ===== src/LexiconEngine.antt =====
-- backend/python_services/infrastructure/nlp/lexicon_engine.py: the request of a parse as a cascade of
-- five stages. A duration and a time are numbers of milliseconds. The tokenizer and the lemma,
-- WordNet and semantic matchers are parameters: functions of the tokens that return or raise.
pub mod Stages
pub mod Cascade
pub mod Stats
pub mod Hints
pub mod Request
