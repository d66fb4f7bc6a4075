-- ===== src/LexiconEngine/Request.antt =====
-- `LexiconEngine.parse_text`: the checks of a request, the stages, and the response. The snapshot
-- and the version of the lexicon are what the index provider gives the request, `start` is the
-- time it starts at. The response has no report of which libraries are available.
pub mod Laws
use vocabulary_micro.Prelude.{
  ℕ, ◌+◌, ◌*◌, Bool, ◌&&◌, ◌||◌, not, Option, none, some, List, [], ◌∷◌, ◌++◌, ltb, leb,
  if◌then◌else◌, length, any, nat_equality, list_equality, pair_equality,
}
use vocabulary_micro.Text.{Text, codes}
use vocabulary_micro.IndexProvider.{LexiconIndexSnapshot}
use vocabulary_micro.ExactMatcher.{TokenRecord, PhraseMatchRecord}
use vocabulary_micro.LexiconEngine.Stages.{StageStatus, Engine}
use vocabulary_micro.LexiconEngine.Cascade.{Readings, run_stages}
use vocabulary_micro.LexiconEngine.Stats.{PipelineStats, build_stats, derive_pipeline_status}
use vocabulary_micro.LexiconEngine.Hints.{apply_pos_category_hints}

pub record Response : Type 0 where
  pub error : Option Text
  pub tokens : List TokenRecord
  pub phrase_matches : List PhraseMatchRecord
  pub stats : PipelineStats
  pub stage_statuses : List StageStatus
  pub pipeline_status : Text
  pub request_id : Text
  pub lexicon_version : ℕ

-- NON_LATIN_SCRIPT_PATTERN of backend/python_services/infrastructure/nlp/text_utils.py.
unfoldable pub is_non_latin : ℕ → Bool
is_non_latin c =
    leb 1024 c && leb c 1279
    || (leb 1424 c && leb c 1535
        || (leb 1536 c && leb c 1791
            || (leb 2304 c && leb c 2431
                || (leb 12352 c && leb c 12543
                    || (leb 13312 c && leb c 19903
                        || (leb 19968 c && leb c 40959
                            || (leb 44032 c && leb c 55215 || leb 63744 c && leb c 64255)))))))

unfoldable pub is_english_text : Text → Bool
is_english_text text = not (any is_non_latin text)

-- `len(text.encode("utf-8"))`, for a text without surrogates.
unfoldable pub utf8_length : Text → ℕ
utf8_length [] = 0
utf8_length (c ∷ s) =
    (if leb c 127 then 1 else if leb c 2047 then 2 else if leb c 65535 then 3 else 4)
    + utf8_length s

unfoldable pub error_response : Text → Text → ℕ → Response
error_response request_id message version = record {
  error = some message;
  tokens = [];
  phrase_matches = [];
  stats = record {
    tokens_total = 0;
    known_tokens = 0;
    unknown_tokens = 0;
    coverage_percent = 0;
    source_counts = [];
  };
  stage_statuses = [];
  pipeline_status = codes "failed";
  request_id = request_id;
  lexicon_version = version;
}

module _ (percent : ℕ → ℕ → ℕ) (decimal : ℕ → Text) (engine : Engine) where
  -- The message of the check that a text fails.
  unfoldable pub rejection : Text → Option Text
  rejection text =
      if not (is_english_text text)
      then some (codes "Only English text is supported by this pipeline.")
      else if ltb engine.max_input_chars (length text)
      then some
          (codes "Input exceeds MAX_INPUT_CHARS (" ++ decimal engine.max_input_chars ++ codes ").")
      else if ltb engine.max_request_bytes (utf8_length text)
      then some (
          codes "Input exceeds MAX_REQUEST_BYTES ("
          ++ decimal engine.max_request_bytes
          ++ codes ").")
      else none

  -- `parse_text` behind its checks.
  unfoldable pub parse_accepted : LexiconIndexSnapshot → ℕ → Readings → Text → Text → Response
  parse_accepted snapshot start clock text request_id =
      let ran = run_stages engine snapshot text (start + engine.request_timeout) clock in
      let tokens = apply_pos_category_hints ran.0.tokens in
      record {
        error = none;
        tokens = tokens;
        phrase_matches = ran.0.phrase_matches;
        stats = build_stats percent tokens;
        stage_statuses = ran.1;
        pipeline_status = derive_pipeline_status ran.1;
        request_id = request_id;
        lexicon_version = snapshot.version;
      }

  unfoldable pub parse_text : LexiconIndexSnapshot → ℕ → ℕ → Readings → Text → Text → Response
  parse_text snapshot version start clock text request_id = elim (rejection text) [
    | some message ↦ error_response request_id message version
    | none ↦ parse_accepted snapshot start clock text request_id
  ]
