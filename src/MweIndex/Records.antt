-- ===== src/MweIndex/Records.antt =====
-- The rows, records and indexes of mwe_index_provider.py. A row of a loader has every column; an
-- embedding is the list of its numbers as they are printed.
use vocabulary_micro.Prelude.{
  ℕ, Bool, Option, none, some, List, [], ◌++◌, if◌then◌else◌, is_empty, nat_equality, list_equality,
  pair_equality,
}
use vocabulary_micro.Text.{Text, codes}
use vocabulary_micro.MweDetector.Contiguous.{ContiguousIndex}
use vocabulary_micro.MweDetector.Separable.{SeparableIndex}

pub record ExpressionRow : Type 0 where
  pub id : ℕ
  pub canonical_form : Text
  pub expression_type : Text
  pub base_lemma : Text
  pub particle : Text
  pub is_separable : ℕ
  pub max_gap_tokens : ℕ

pub record SenseRow : Type 0 where
  pub id : ℕ
  pub expression_id : ℕ
  pub sense_key : Text
  pub gloss : Text
  pub usage_label : Text
  pub example : Text
  pub priority : ℕ

pub record MweExpressionRecord : Type 0 where
  pub expression_id : ℕ
  pub canonical_form : Text
  pub tokens : List Text
  pub expression_type : Text
  pub base_lemma : Text
  pub particle : Text
  pub is_separable : Bool
  pub max_gap_tokens : ℕ

pub record MweSenseRecord : Type 0 where
  pub sense_id : ℕ
  pub expression_id : ℕ
  pub sense_key : Text
  pub gloss : Text
  pub usage_label : Text
  pub example : Text
  pub priority : ℕ
  pub embedding : Option (List Text)

-- `text_for_embedding`
unfoldable pub text_for_embedding : MweSenseRecord → Text
text_for_embedding s =
    if is_empty s.example then s.gloss else s.gloss ++ codes " Example: " ++ s.example

abbrev pub SenseIndex : Type 0
SenseIndex = List (ℕ × List MweSenseRecord)

pub record MweIndexSnapshot : Type 0 where
  pub version : ℕ
  pub expressions : List (ℕ × MweExpressionRecord)
  pub senses_by_expression : SenseIndex
  pub contiguous_index : ContiguousIndex
  pub separable_index : SeparableIndex
  pub candidate_hash : Text
  pub model_name : Text
  pub model_revision : Option Text

-- What the three loaders give.
pub record Tables : Type 0 where
  pub expression_rows : List ExpressionRow
  pub sense_rows : List SenseRow
  pub sense_embeddings : Text → Option Text → List (ℕ × List Text)

-- The three dictionaries that the loop over the expressions fills.
pub record Indexes : Type 0 where
  pub expressions : List (ℕ × MweExpressionRecord)
  pub contiguous : ContiguousIndex
  pub separable : SeparableIndex

abbrev pub or_no_items {ℓ} : {A : Type ℓ} → Option (List A) → List A
or_no_items none = []
or_no_items (some xs) = xs
