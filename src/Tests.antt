-- ===== src/Tests.antt =====
-- Runs of the definitions on small inputs, and the theorems at such inputs.
mod TextProcessing
mod Queue
mod Scanner
mod Mwe
mod Resolver
mod Rows
mod Passes
mod Lemmas
mod Tokenizing
mod WordNet
mod Senses
mod MweTables
mod Lexicon
mod Index
mod Engine
mod UseCase
