-- ===== src/LexiconEngine/Cascade.antt =====
-- The stages of `LexiconEngine.parse_text`, each run behind the one before it, and each skipped if
-- that one failed or timed out.
pub mod Laws
use vocabulary_micro.Prelude.{
  ℕ, ◌*◌, List, [], ◌∷◌, map, if◌then◌else◌, nat_equality, list_equality, pair_equality,
}
use vocabulary_micro.Text.{Text, codes}
use vocabulary_micro.IndexProvider.{LexiconIndexSnapshot}
use vocabulary_micro.LexiconEngine.Stages.{
  StageStatus, Session, Reading, Engine, skipped_stage_status, run_stage, is_blocking_stage,
  run_tokenizer, run_exact_stage, on_tokens,
}

-- The readings of the clock, stage by stage.
pub record Readings : Type 0 where
  pub at_tokenize : Reading
  pub at_exact : Reading
  pub at_lemma : Reading
  pub at_wordnet : Reading
  pub at_bert : Reading

unfoldable pub skip_stages : Text → List Text → List StageStatus
skip_stages reason stages = map (λ stage. skipped_stage_status stage reason) stages

-- One stage of the cascade: its status, then the stages behind it, which are skipped if it blocks.
unfoldable pub then_stages :
    Session × StageStatus
    → Text
    → List Text
    → (Session → Session × List StageStatus)
    → Session × List StageStatus
then_stages ran reason stages next =
    let rest = if is_blocking_stage ran.1 then (ran.0, skip_stages reason stages) else next ran.0 in
    (rest.0, ran.1 ∷ rest.1)

-- The names of the stages from each stage on.
abbrev pub from_bert : List Text
from_bert = codes "bert_match" ∷ []

abbrev pub from_wordnet : List Text
from_wordnet = codes "wordnet_match" ∷ from_bert

abbrev pub from_lemma : List Text
from_lemma = codes "lemma_inflect" ∷ from_wordnet

abbrev pub from_exact : List Text
from_exact = codes "exact_match" ∷ from_lemma

module _ (engine : Engine) (snapshot : LexiconIndexSnapshot) (text : Text) (deadline : ℕ)
    (clock : Readings) where
  unfoldable pub bert_stage : Session → Session × List StageStatus
  bert_stage session =
      let ran =
        run_stage (codes "bert_match") engine.bert_timeout deadline clock.at_bert
          (on_tokens (engine.semantic snapshot)) session in
      (ran.0, ran.1 ∷ [])

  unfoldable pub wordnet_stage : Session → Session × List StageStatus
  wordnet_stage session =
      then_stages
        (run_stage (codes "wordnet_match") engine.wordnet_timeout deadline clock.at_wordnet
          (on_tokens engine.wordnet) session)
        (codes "wordnet_stage_not_ok") from_bert bert_stage

  unfoldable pub lemma_stage : Session → Session × List StageStatus
  lemma_stage session =
      then_stages
        (run_stage (codes "lemma_inflect") engine.lemma_timeout deadline clock.at_lemma
          (on_tokens (engine.lemma snapshot.single_word)) session)
        (codes "lemma_stage_not_ok") from_wordnet wordnet_stage

  unfoldable pub exact_stage : Session → Session × List StageStatus
  exact_stage session =
      then_stages
        (run_stage (codes "exact_match") engine.exact_match_timeout deadline clock.at_exact
          (run_exact_stage snapshot text) session)
        (codes "exact_stage_not_ok") from_lemma lemma_stage

  unfoldable pub run_stages : Session × List StageStatus
  run_stages =
      then_stages
        (run_stage (codes "tokenize") engine.tokenize_timeout deadline clock.at_tokenize
          (run_tokenizer engine text) (record { tokens = []; phrase_matches = [] }))
        (codes "tokenize_stage_not_ok") from_exact exact_stage
