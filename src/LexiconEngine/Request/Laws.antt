-- ===== src/LexiconEngine/Request/Laws.antt =====
-- The responses of `LexiconEngine.parse_text`.
use vocabulary_micro.Prelude.{
  ap, List, not, any, ℕ, ◌+◌, ◌≡◌, refl, inl, inr, Bool, true, false, ◌&&◌, Option, none, some, [],
  ◌∷◌, arith, leb, Option-cases, length, nat_equality, list_equality, pair_equality,
}
use vocabulary_micro.Text.{Text, codes}
use vocabulary_micro.IndexProvider.{LexiconIndexSnapshot}
use vocabulary_micro.LexiconEngine.Stages.{Engine}
use vocabulary_micro.LexiconEngine.Cascade.{Readings, from_exact}
use vocabulary_micro.LexiconEngine.Cascade.Laws.{stage_names, IsCascade, run_stages-IsCascade}
use vocabulary_micro.LexiconEngine.Stats.{build_stats, derive_pipeline_status}
use vocabulary_micro.LexiconEngine.Request.{
  Response, is_non_latin, is_english_text, utf8_length, error_response, rejection, parse_accepted,
  parse_text,
}

-- The blocks of Unicode whose letters the service refuses: Cyrillic, Hebrew, Arabic, Devanagari, the
-- Japanese syllabaries, the Chinese characters with extension A and their compatibility forms, and
-- the Korean syllables.
abbrev pub refused_blocks : List (ℕ × ℕ)
refused_blocks =
    (1024, 1279)
    ∷ (1424, 1535)
    ∷ (1536, 1791)
    ∷ (2304, 2431)
    ∷ (12352, 12543)
    ∷ (13312, 19903)
    ∷ (19968, 40959)
    ∷ (44032, 55215)
    ∷ (63744, 64255)
    ∷ []

abbrev pub is_refused : ℕ → Bool
is_refused c = any (λ (block : ℕ × ℕ). leb block.0 c && leb c block.1) refused_blocks

-- The texts that the service takes.
unfoldable pub accepts : Engine → Text → Bool
accepts engine text =
    not (any is_refused text)
    && (leb (length text) engine.max_input_chars && leb (utf8_length text) engine.max_request_bytes)

-- A response without an error reports the five stages as a cascade; one with an error has no token,
-- no phrase and no stage.
abbrev IsAnswer : Option Text → Response → Type 0
IsAnswer none r =
    (stage_names r.stage_statuses ≡ codes "tokenize" ∷ from_exact)
    × IsCascade r.stage_statuses
    × (r.stats.tokens_total ≡ length r.tokens)
    × (r.pipeline_status ≡ derive_pipeline_status r.stage_statuses)
IsAnswer (some message) r =
    (r.tokens ≡ [])
    × (r.phrase_matches ≡ [])
    × (r.stage_statuses ≡ [])
    × (r.pipeline_status ≡ codes "failed")

abbrev is_none : Option Text → Bool
is_none none = true
is_none (some message) = false

abbrev pub IsAnswerTo : Engine → Text → Response → Type 0
IsAnswerTo engine text r = (is_none r.error ≡ accepts engine text) × IsAnswer r.error r

is_non_latin_lem : (c : ℕ) → is_non_latin c ≡ is_refused c
unfolding is_non_latin
is_non_latin_lem c = ground arith

any-is_non_latin : (text : Text) → is_english_text text ≡ not (any is_refused text)
unfolding is_english_text
any-is_non_latin text = ap not (go text)
  where
    go : (s : Text) → any is_non_latin s ≡ any is_refused s
    go [] = refl
    go (c ∷ s) = rw (is_non_latin_lem c, go s) refl

module _ (percent : ℕ → ℕ → ℕ) (decimal : ℕ → Text) (engine : Engine) where
  is_none-rejection :
      (text : Text) → is_none (rejection percent decimal engine text) ≡ accepts engine text
  unfolding rejection accepts
  is_none-rejection text = ground (arith, any-is_non_latin text)

  module _ (snapshot : LexiconIndexSnapshot) (version start : ℕ) (clock : Readings)
      (text request_id : Text) where
    accepted-IsAnswer :
        IsAnswer none (parse_accepted percent decimal engine snapshot start clock text request_id)
    unfolding parse_accepted build_stats
    accepted-IsAnswer =
        let report =
          run_stages-IsCascade engine snapshot text (start + engine.request_timeout) clock in
        (report.0, report.1, refl, refl)

    -- A text is parsed exactly when it has no character of the Cyrillic, Hebrew, Arabic, Devanagari,
    -- Japanese, Chinese and Korean blocks that are refused and it is within the limits of characters
    -- and of bytes. The response to it reports all five stages in their order and as a cascade; the
    -- response to any other text has an error, the status failed, and no token, phrase or stage.
    pub parse_text-IsAnswer :
        IsAnswerTo engine text
          (parse_text percent decimal engine snapshot version start clock text request_id)
    unfolding parse_text parse_accepted error_response
    parse_text-IsAnswer =
        let taken = is_none-rejection text in
        elim (Option-cases (rejection percent decimal engine text)) [
          | inl e ↦ rw (e, parse_text) (rw e at taken, accepted-IsAnswer)
          | inr (m, e) ↦ rw (e, parse_text) (rw e at taken, (refl, refl, refl, refl))
        ]
