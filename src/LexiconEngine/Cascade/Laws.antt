-- ===== src/LexiconEngine/Cascade/Laws.antt =====
-- The statuses of a request's stages.
use vocabulary_micro.Prelude.{
  ℕ, ◌≡◌, refl, ap, inl, inr, Bool, true, ◌||◌, not, List, [], ◌∷◌, map, arith, Bool-cases, all,
  ◌==◌, nat_equality, list_beq, list_equality, pair_equality,
}
use vocabulary_micro.Text.{Text, codes}
use vocabulary_micro.IndexProvider.{LexiconIndexSnapshot}
use vocabulary_micro.LexiconEngine.Stages.{
  StageStatus, Session, Reading, Outcome, Engine, skipped_stage_status, run_stage, outcome_status,
  returned, raised, is_blocking_stage, run_tokenizer, run_exact_stage, on_tokens,
}
use vocabulary_micro.LexiconEngine.Cascade.{
  Readings, skip_stages, then_stages, from_bert, from_wordnet, from_lemma, from_exact, bert_stage,
  wordnet_stage, lemma_stage, exact_stage, run_stages,
}

abbrev pub stage_names : List StageStatus → List Text
stage_names statuses = map (λ s. s.stage) statuses

abbrev was_skipped : StageStatus → Bool
was_skipped s = s.status == codes "skipped"

-- Behind a stage that blocks every stage is skipped.
abbrev pub IsCascade : List StageStatus → Type 0
IsCascade [] = Unit
IsCascade (s ∷ statuses) =
    ((not (is_blocking_stage s) || all was_skipped statuses) ≡ true) × IsCascade statuses

-- The stages of these names have reported, in this order, as a cascade.
abbrev IsReport : List Text → Session × List StageStatus → Type 0
IsReport names r = (stage_names r.1 ≡ names) × IsCascade r.1

skip_stages-IsReport :
    (session : Session) (reason : Text) (names : List Text)
    → IsReport names (session, skip_stages reason names)
      × (all was_skipped (skip_stages reason names) ≡ true)
unfolding skip_stages skipped_stage_status is_blocking_stage list_beq
skip_stages-IsReport session reason [] = ((refl, tt), refl)
skip_stages-IsReport session reason (n ∷ names) =
    let rest = skip_stages-IsReport session reason names in
    ((ap (◌∷◌ n) rest.0.0, (ground (arith, rest.1), rest.0.1)), rest.1)

stage-outcome_status :
    (stage : Text) (timeout : ℕ) (reading : Reading) (outcome : Outcome)
    → (outcome_status stage timeout reading outcome).stage ≡ stage
unfolding outcome_status
stage-outcome_status stage timeout reading (returned metadata) = ground arith
stage-outcome_status stage timeout reading (raised error) = refl

stage-run_stage :
    (stage : Text) (timeout deadline : ℕ) (reading : Reading)
    (execute : Session → Session × Outcome) (session : Session)
    → (run_stage stage timeout deadline reading execute session).1.stage ≡ stage
unfolding run_stage skipped_stage_status
stage-run_stage stage timeout deadline reading execute session =
    ground (arith, stage-outcome_status stage timeout reading (execute session).1)

then_stages-IsReport :
    (ran : Session × StageStatus) (reason stage : Text) (names : List Text)
    (next : Session → Session × List StageStatus)
    → ran.1.stage ≡ stage
    → ((session : Session) → IsReport names (next session))
    → IsReport (stage ∷ names) (then_stages ran reason names next)
unfolding then_stages
then_stages-IsReport ran reason stage names next e k =
    let skip = skip_stages-IsReport ran.0 reason names in
    let run = k ran.0 in
    elim (Bool-cases (is_blocking_stage ran.1)) [
      | inl b ↦ rw b (cc, (ground (arith, b, skip.1), skip.0.1))
      | inr b ↦ rw b (cc, (ground (arith, b), run.1))
    ]

module _ (engine : Engine) (snapshot : LexiconIndexSnapshot) (text : Text) (deadline : ℕ)
    (clock : Readings) where
  bert_stage-IsReport :
      (session : Session)
      → IsReport from_bert (bert_stage engine snapshot text deadline clock session)
  unfolding bert_stage
  bert_stage-IsReport session =
      let ran =
        run_stage (codes "bert_match") engine.bert_timeout deadline clock.at_bert
          (on_tokens (engine.semantic snapshot)) session in
      let name =
        stage-run_stage (codes "bert_match") engine.bert_timeout deadline clock.at_bert
          (on_tokens (engine.semantic snapshot)) session in
      (cc, (ground arith, tt))

  wordnet_stage-IsReport :
      (session : Session)
      → IsReport from_wordnet (wordnet_stage engine snapshot text deadline clock session)
  unfolding wordnet_stage
  wordnet_stage-IsReport session =
      let change = on_tokens engine.wordnet in
      then_stages-IsReport
        (run_stage (codes "wordnet_match") engine.wordnet_timeout deadline clock.at_wordnet change
          session)
        (codes "wordnet_stage_not_ok") (codes "wordnet_match") from_bert
        (bert_stage engine snapshot text deadline clock)
        (stage-run_stage (codes "wordnet_match") engine.wordnet_timeout deadline clock.at_wordnet
          change session)
        bert_stage-IsReport

  lemma_stage-IsReport :
      (session : Session)
      → IsReport from_lemma (lemma_stage engine snapshot text deadline clock session)
  unfolding lemma_stage
  lemma_stage-IsReport session =
      let change = on_tokens (engine.lemma snapshot.single_word) in
      then_stages-IsReport
        (run_stage (codes "lemma_inflect") engine.lemma_timeout deadline clock.at_lemma change
          session)
        (codes "lemma_stage_not_ok") (codes "lemma_inflect") from_wordnet
        (wordnet_stage engine snapshot text deadline clock)
        (stage-run_stage (codes "lemma_inflect") engine.lemma_timeout deadline clock.at_lemma change
          session)
        wordnet_stage-IsReport

  exact_stage-IsReport :
      (session : Session)
      → IsReport from_exact (exact_stage engine snapshot text deadline clock session)
  unfolding exact_stage
  exact_stage-IsReport session =
      let change = run_exact_stage snapshot text in
      then_stages-IsReport
        (run_stage (codes "exact_match") engine.exact_match_timeout deadline clock.at_exact change
          session)
        (codes "exact_stage_not_ok") (codes "exact_match") from_lemma
        (lemma_stage engine snapshot text deadline clock)
        (stage-run_stage (codes "exact_match") engine.exact_match_timeout deadline clock.at_exact
          change session)
        lemma_stage-IsReport

  -- Every request reports the five stages once each and in their order, whatever they do, and
  -- behind a stage that failed or timed out every stage is reported as skipped.
  pub run_stages-IsCascade :
      (stage_names (run_stages engine snapshot text deadline clock).1
        ≡ codes "tokenize" ∷ from_exact)
      × IsCascade (run_stages engine snapshot text deadline clock).1
  unfolding run_stages
  run_stages-IsCascade =
      let change = run_tokenizer engine text in
      let start : Session = record { tokens = []; phrase_matches = [] } in
      then_stages-IsReport
        (run_stage (codes "tokenize") engine.tokenize_timeout deadline clock.at_tokenize change
          start)
        (codes "tokenize_stage_not_ok") (codes "tokenize") from_exact
        (exact_stage engine snapshot text deadline clock)
        (stage-run_stage (codes "tokenize") engine.tokenize_timeout deadline clock.at_tokenize
          change start)
        exact_stage-IsReport
