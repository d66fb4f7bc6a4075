-- ===== src/Tests/Engine.antt =====
-- The stages of the lexicon engine with a tokenizer that finds one word, a lemma stage that fails
-- and a WordNet stage that would report.
use vocabulary_micro.Prelude.{
  ℕ, ◌+◌, ◌*◌, ◌/◌, ◌≡◌, refl, inl, Bool, true, false, none, List, [], ◌∷◌, map, if◌then◌else◌,
  nat_equality, list_beq, list_equality, pair_equality, lookup,
}
use vocabulary_micro.Text.{Text, codes}
use vocabulary_micro.AssignmentScanner.Tokens.{is_alpha}
use vocabulary_micro.IndexProvider.{LexiconIndexSnapshot, build_snapshot}
use vocabulary_micro.ExactMatcher.{TokenRecord}
use vocabulary_micro.LexiconEngine.Stages.{
  Engine, Reading, Outcome, raised, returned, no_metadata, token_list, StageStatus,
  skipped_stage_status,
}
use vocabulary_micro.LexiconEngine.Cascade.{Readings, run_stages}
use vocabulary_micro.LexiconEngine.Request.{parse_text}
use vocabulary_micro.LexiconEngine.Request.Laws.{IsAnswerTo, parse_text-IsAnswer}

abbrev dog_token : Bool → TokenRecord
dog_token known = record {
  token = codes "Dog";
  normalized = codes "dog";
  lemma = codes "dog";
  pos = codes "NOUN";
  start = 0;
  stop = 3;
  categories = [];
  known = known;
  match_source = if known then codes "exact" else codes "none";
  matched_form = [];
  bert_score = none;
}

abbrev failing_lemma : Engine
failing_lemma = record {
  max_input_chars = 10;
  max_request_bytes = 20;
  request_timeout = 1000;
  tokenize_timeout = 100;
  exact_match_timeout = 100;
  lemma_timeout = 100;
  wordnet_timeout = 100;
  bert_timeout = 100;
  tokenizer = λ text. inl (token_list (dog_token false ∷ []));
  last_backend = codes "regex";
  lemma = λ single ts. (ts, raised (codes "no model"));
  wordnet = λ ts. (ts, returned no_metadata);
  semantic = λ snapshot ts. (ts, returned no_metadata);
}

abbrev no_lexicon : LexiconIndexSnapshot
no_lexicon = build_snapshot is_alpha (λ t. t) [] 7

abbrev steady : Readings
steady = record {
  at_tokenize = record { now = 1; elapsed = 5 };
  at_exact = record { now = 6; elapsed = 5 };
  at_lemma = record { now = 11; elapsed = 5 };
  at_wordnet = record { now = 16; elapsed = 5 };
  at_bert = record { now = 21; elapsed = 5 };
}

statuses_of : List StageStatus → List Text
statuses_of statuses = map (λ s. s.status) statuses

failed_lemma :
    statuses_of (run_stages failing_lemma no_lexicon (codes "Dog") 1000 steady).1
    ≡ codes "ok" ∷ codes "ok" ∷ codes "failed" ∷ codes "skipped" ∷ codes "skipped" ∷ []
unfolding statuses_of run_stages vocabulary_micro.LexiconEngine.Cascade.then_stages
    vocabulary_micro.LexiconEngine.Stages.run_stage
    vocabulary_micro.LexiconEngine.Stages.is_blocking_stage
    vocabulary_micro.LexiconEngine.Stages.outcome_status vocabulary_micro.Prelude.list_beq
    vocabulary_micro.LexiconEngine.Stages.run_tokenizer
    vocabulary_micro.LexiconEngine.Stages.tokenize_on_result
    vocabulary_micro.LexiconEngine.Cascade.exact_stage
    vocabulary_micro.LexiconEngine.Stages.run_exact_stage
    vocabulary_micro.LexiconEngine.Cascade.lemma_stage
    vocabulary_micro.LexiconEngine.Stages.on_tokens
    vocabulary_micro.LexiconEngine.Cascade.skip_stages skipped_stage_status
failed_lemma = refl

abbrev ratio : ℕ → ℕ → ℕ
ratio known total = known * 10000 / total

abbrev twenty : ℕ → Text
twenty n = codes "20"

parse_text-IsAnswer_example :
    IsAnswerTo failing_lemma
      (codes "Dog")
      (parse_text ratio twenty failing_lemma no_lexicon 7 0 steady (codes "Dog") (codes "r1"))
parse_text-IsAnswer_example =
    parse_text-IsAnswer ratio twenty failing_lemma no_lexicon 7 0 steady (codes "Dog") (codes "r1")
