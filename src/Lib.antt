-- ===== src/Lib.antt =====
-- The Python core of vocabulary-micro, under backend/python_services: the text processor, the queue
-- of background synchronisation, the resolver of candidates that fills it, the detector of
-- expressions of several words, the scanner of assignments, the lexicon engine with its index, and
-- the use case that runs a whole parse on them.
--
-- Prelude.antt passes on the shared names: tests on numbers, an equality interface with Python's
-- sets and dictionaries as lists, native lengths, and Python's stable sort. Text.antt is `str` as
-- the list of its code points: `strip`, `split`, `join`, `endswith` and slices are the methods of
-- those names, and white space is Python's; `lower`, `upper` and `casefold` change ASCII letters
-- only, so the results hold of texts whose other letters have no case.
--
-- TextProcessor.antt and its children model core/domain/services/text_processor.py: Tables.antt the
-- word lists, Patterns.antt WORD_RE and SAFE_TERM_RE as an automaton, Forms.antt `unique`,
-- `normalize_lexeme`, `normalize_term`, `normalize_verb_head` and `canonicalize_expression`,
-- Admission.antt `allow_auto_add`, and Tokens.antt what is read from parsed tokens.
--
-- SyncQueue.antt and its children model core/domain/services/sync_queue.py. A method body under the
-- lock is one atomic action on the record of the object's fields; Threads.antt gives the worker
-- loop as a program counter with one action at each place, and the interleavings of workers,
-- callers of `enqueue`, `shutdown` and `_clear_queued_jobs` as a step relation. The loop of
-- `_clear_queued_jobs` takes fuel, and a round more than there are jobs is enough. Reports.antt has
-- `wait_for_idle` and `shutdown` with its report. The clock is not read: other threads make any
-- number of steps between the actions of a caller, and a wait ends after any number of looks.
-- Logging is not modelled; a handler is a step that ends, with or without an error, since both go
-- on alike. QueueBuilder.antt models core/use_cases/async_sync_queue_builder.py, which chooses that
-- queue or one of a factory.
--
-- AssignmentScanner.antt and its children model core/domain/services/assignment_scanner_service.py:
-- Tokens.antt, Matches.antt, Mask.antt, Missing.antt and Scan.antt are the methods that `scan`
-- composes. The loop that writes the known mask takes fuel, a round for each token, which is
-- enough. The answer of the lexicon search, the opcodes of `difflib` and the rounding of the
-- coverage to a percentage are arguments; durations are left out.
--
-- MweDetector.antt and its children model core/domain/services/mwe_detector.py: Particles.antt
-- `_find_particle_index`, Contiguous.antt and Separable.antt the two passes with `detect`, and
-- Overlaps.antt `_dedupe_overlaps`; Choices.antt has what holds of the result. A score is of any
-- type with a strict order and a zero, and the injected scorers are functions that may fail.
--
-- CandidateResolver.antt and its children model core/use_cases/parse_sync_candidate_resolver.py:
-- the categories, Sync.antt `sync_candidates`, Partition.antt `partition_sync_candidates`,
-- Enqueue.antt `enqueue_async_sync` on the queue of SyncQueue.antt, and Rows.antt the candidate of
-- a row. The repositories are arguments, and each call of the lexicon's returns, raises TypeError or
-- raises another error (Stored.antt has what the calls have entered by then); the clock is a function
-- that says of every round whether the time is over. TextProcessor/Tokens.antt has the methods of
-- the text processor that read tokens and occurrences.
--
-- TableBuilder.antt and its children model core/use_cases/parse_table_builder.py: the rows of
-- tokens, of occurrences and of phrases, with the rounding of a score as an argument.
--
-- ThirdPass.antt and its children model core/use_cases/third_pass_orchestrator.py: the policy,
-- Upsert.antt the records of expressions with the save behind them, and Extractor.antt the attempts
-- to call the extractor.
--
-- PhraseMatcher.antt and its children model infrastructure/nlp/phrase_matcher.py: the trie of the
-- lexicon's phrases, with the stack of `iter_phrases` in Iteration.antt, whose rounds are as many
-- as the trie has nodes, which is enough. IndexProvider.antt and its children model
-- infrastructure/nlp/index_provider.py with TOKEN_PATTERN of infrastructure/nlp/text_utils.py
-- (Pieces.antt): the index of the lexicon, Build.antt its extension against its rebuild, and
-- Provider.antt the class that keeps it, with the pending entries of its debounce period; the
-- readings of the clock and the answers of the loaders are arguments, and so are the class of
-- letters and the digest. ExactMatcher.antt models infrastructure/nlp/exact_matcher.py.
--
-- Tokenizer.antt and its children model infrastructure/nlp/tokenizer.py, with the pipelines of
-- spaCy as arguments, and Spans.antt where the tokens of the pattern stand in the text.
-- LemmaMatcher.antt and its children model infrastructure/nlp/lemma_inflect_matcher.py: the stage
-- that looks unknown tokens up by their lemmas and inflections, which lemminflect gives
-- (Candidates.antt, with the two caches). WordNetMatcher.antt and its children model
-- infrastructure/nlp/wordnet_matcher.py: the stage that asks WordNet, whether it is installed, and
-- DataPath.antt where its data are looked for. LruCache.antt is the bounded cache of both, and
-- History.antt what it keeps of all that was written. MweIndex.antt and its children model
-- infrastructure/nlp/mwe_index_provider.py: the indexes of expressions and senses that the second
-- pass reads, and the snapshot that is kept of them; Records.antt has the data and Digest.antt the
-- hash. The rows of the loaders are arguments, the embeddings for each model and revision. MweDisambiguator.antt models
-- infrastructure/nlp/mwe_disambiguator.py, which gives each candidate a sense of that index, for
-- scores of any type with the literals and operations the code uses.
--
-- LexiconEngine.antt and its children model infrastructure/nlp/lexicon_engine.py: Stages.antt how a
-- stage is run, Cascade.antt the five stages of `parse_text`, Hints.antt and Stats.antt what
-- follows them, and Request.antt the checks and the response. The tokenizer and the lemma, WordNet
-- and semantic stages are fields of the engine, functions that return or raise; metrics, logging
-- and the report of which libraries are available are left out.
--
-- ParseAndSync.antt and its children model core/use_cases/parse_and_sync.py on these parts:
-- Summaries.antt the summaries of the second and the third pass, with `run` and `default_summary`
-- of the orchestrator; Progress.antt the lists, sets, queue and calls that `execute` carries from
-- pass to pass, and the sync of each; Execute.antt `execute`, with what it takes and answers in
-- Execute/Requests.antt; Rows.antt `sync_single_row`; and Close.antt `close` with the ways to call
-- the release of a request's resources. The sets that a direct sync changes in place are passed on
-- from pass to pass. A service's call is a function that returns or raises, and an error of a direct
-- sync or of `pipeline_status` leaves `execute` without a report; the kind of such an error, the
-- texts, versions and model descriptions that are only passed on are left out, and so is logging.
--
-- Not modelled: the services in TypeScript, the web front end and the developers' scripts; storage,
-- the gateways over HTTP, settings and logging, which are input and output; spaCy, lemminflect,
-- WordNet and the language model, whose answers are arguments; the second pass's own search, the
-- semantic matcher and the requests of the third pass, which arrange calls of those libraries; and
-- the warm-up coordinator, which starts them ahead of time.
pub mod Prelude
pub mod Text
pub mod TextProcessor
pub mod SyncQueue
pub mod QueueBuilder
pub mod AssignmentScanner
pub mod MweDetector
pub mod CandidateResolver
pub mod TableBuilder
pub mod ThirdPass
pub mod PhraseMatcher
pub mod IndexProvider
pub mod ExactMatcher
pub mod Tokenizer
pub mod LruCache
pub mod LemmaMatcher
pub mod WordNetMatcher
pub mod LexiconEngine
pub mod MweIndex
pub mod MweDisambiguator
pub mod ParseAndSync
mod Tests
