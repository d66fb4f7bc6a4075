-- ===== src/MweIndex.antt =====
-- backend/python_services/infrastructure/nlp/mwe_index_provider.py: how the indexes of expressions
-- and senses for the second pass are built, and the provider that keeps the last ones it built.
-- `is_letter` is the class `[^\W\d_]`, `sha1` the digest in hexadecimal, `decimal` the `str` of an
-- integer.
pub mod Digest
pub mod Records
pub mod Complete
pub mod Contiguous
pub mod Senses
pub mod Serve
use vocabulary_micro.MweIndex.Digest.{
  candidate_hash_of, expression_chunk, join_bars, sense_chunk, sense_chunks,
}
use vocabulary_micro.MweIndex.Records.{
  ExpressionRow, Indexes, MweExpressionRecord, MweIndexSnapshot, MweSenseRecord, SenseIndex,
  SenseRow, Tables, or_no_items, text_for_embedding,
}
use vocabulary_micro.Prelude.{
  ℕ, ◌*◌, Bool, true, false, ◌&&◌, ◌||◌, not, Option, none, some, List, [], ◌∷◌, ◌++◌, map, ltb,
  leb, if◌then◌else◌, is_empty, sort, then_by, HasEquality, ◌==◌, nat_equality, list_equality,
  pair_equality, contains, lookup, upsert, keys,
}
use vocabulary_micro.Text.{Text, codes, lower, strip, or_else}
use vocabulary_micro.IndexProvider.{join_units}
use vocabulary_micro.IndexProvider.Pieces.{normalize_whitespace, pieces}
use vocabulary_micro.MweDetector.Contiguous.{ContiguousIndex, sorted_ids}
use vocabulary_micro.MweDetector.Separable.{SeparableIndex}

-- `m.setdefault(key, []).append(item)`
unfoldable pub append_item :
    {K A : Type 0} ⦃e : HasEquality K⦄ → List (K × List A) → K → A → List (K × List A)
append_item m key item = upsert m key (λ o. or_no_items o ++ item ∷ [])

abbrev pub last_of : Text → List Text → Text
last_of x [] = x
last_of x (y ∷ ys) = last_of y ys

-- `(tokens[0], tokens[-1])` of two tokens or more
abbrev pub ends : List Text → Option (Text × Text)
ends [] = none
ends (x ∷ []) = none
ends (x ∷ y ∷ ys) = some (x, last_of y ys)

-- The key of an expression in the separable index.
unfoldable pub separable_pair : MweExpressionRecord → Option (Text × Text)
separable_pair e =
    if not e.is_separable
    then none
    else if not (is_empty e.base_lemma) && not (is_empty e.particle)
    then some (e.base_lemma, e.particle)
    else if e.expression_type == codes "phrasal_verb"
    then ends e.tokens
    else none

abbrev add_pair : SeparableIndex → ℕ → Option (Text × Text) → SeparableIndex
add_pair index id none = index
add_pair index id (some pair) = append_item index pair id

unfoldable pub add_expression : Indexes → MweExpressionRecord → Indexes
add_expression i e = record {
  expressions = upsert i.expressions e.expression_id (λ o. e);
  contiguous = append_item i.contiguous e.tokens e.expression_id;
  separable = add_pair i.separable e.expression_id (separable_pair e);
}

module _ (is_letter : ℕ → Bool) where
  -- The expression of a row, unless its form has no token.
  unfoldable pub read_expression : ExpressionRow → Option MweExpressionRecord
  read_expression row =
      let form = lower (normalize_whitespace row.canonical_form) in
      if is_empty form || is_empty (pieces is_letter form)
      then none
      else some (record {
        expression_id = row.id;
        canonical_form = form;
        tokens = pieces is_letter form;
        expression_type = row.expression_type;
        base_lemma = lower (strip row.base_lemma);
        particle = lower (strip row.particle);
        is_separable = not (row.is_separable == 0);
        max_gap_tokens = if leb row.max_gap_tokens 1 then 1 else row.max_gap_tokens;
      })

  abbrev pub add_read : Indexes → Option MweExpressionRecord → Indexes
  add_read i none = i
  add_read i (some e) = add_expression i e

  -- The loop over the expressions.
  unfoldable pub index_expressions : Indexes → List ExpressionRow → Indexes
  index_expressions i [] = i
  index_expressions i (row ∷ rows) = index_expressions (add_read i (read_expression row)) rows

unfoldable pub read_sense : List (ℕ × List Text) → SenseRow → MweSenseRecord
read_sense embeddings row = record {
  sense_id = row.id;
  expression_id = row.expression_id;
  sense_key = strip row.sense_key;
  gloss = strip row.gloss;
  usage_label = or_else (lower (strip row.usage_label)) (codes "idiomatic");
  example = strip row.example;
  priority = row.priority;
  embedding = lookup embeddings row.id;
}

-- The loop over the senses, those of unknown expressions left out.
unfoldable pub index_senses :
    List (ℕ × MweExpressionRecord) → List (ℕ × List Text) → SenseIndex → List SenseRow → SenseIndex
index_senses expressions embeddings m [] = m
index_senses expressions embeddings m (row ∷ rows) =
    let sense = read_sense embeddings row in
    let known = contains (keys expressions) row.expression_id in
    index_senses expressions embeddings
      (if known then append_item m sense.expression_id sense else m) rows

-- `sorted(items, key=lambda item: (item.priority, item.sense_id))`
unfoldable pub sense_before : MweSenseRecord → MweSenseRecord → Bool
sense_before = then_by (λ a b. ltb a.priority b.priority) (λ a b. ltb a.sense_id b.sense_id)

unfoldable pub freeze_senses : SenseIndex → SenseIndex
freeze_senses m = map (λ x. (x.0, sort sense_before x.1)) m

-- `{key: tuple(sorted(set(expression_ids))) for key, expression_ids in m.items()}`
unfoldable pub freeze_ids : {K : Type 0} → List (K × List ℕ) → List (K × List ℕ)
freeze_ids m = map (λ x. (x.0, sorted_ids x.1)) m

module _ (is_letter : ℕ → Bool) (sha1 : Text → Text) (decimal : ℕ → Text) where
  -- `_build_snapshot`
  unfoldable pub build_mwe_snapshot : Tables → ℕ → Text → Option Text → MweIndexSnapshot
  build_mwe_snapshot t version name revision =
      let indexes =
        index_expressions is_letter (record { expressions = []; contiguous = []; separable = [] })
          t.expression_rows in
      let senses =
        freeze_senses
          (index_senses indexes.expressions (t.sense_embeddings name revision) [] t.sense_rows) in
      record {
        version = version;
        expressions = indexes.expressions;
        senses_by_expression = senses;
        contiguous_index = freeze_ids indexes.contiguous;
        separable_index = freeze_ids indexes.separable;
        candidate_hash = candidate_hash_of sha1 decimal indexes.expressions senses name revision;
        model_name = name;
        model_revision = revision;
      }

  abbrev pub same_revision : Option Text → Option Text → Bool
  same_revision none none = true
  same_revision none (some y) = false
  same_revision (some x) none = false
  same_revision (some x) (some y) = x == y

  -- A cached snapshot that still serves.
  unfoldable pub is_current : MweIndexSnapshot → ℕ → Text → Option Text → Bool
  is_current s version name revision =
      s.version == version && (s.model_name == name && same_revision s.model_revision revision)

  -- `get_snapshot` with what the loaders give: the cache behind it, the snapshot, and whether it
  -- came from the cache.
  unfoldable pub get_mwe_snapshot :
      Option MweIndexSnapshot
      → ℕ
      → Tables
      → Text
      → Option Text
      → Option MweIndexSnapshot × MweIndexSnapshot × Bool
  get_mwe_snapshot none version t name revision =
      let built = build_mwe_snapshot t version name revision in (some built, built, false)
  get_mwe_snapshot (some s) version t name revision =
      let built = build_mwe_snapshot t version name revision in
      if is_current s version name revision then (some s, s, true) else (some built, built, false)

-- `invalidate`: what is kept is dropped.
unfoldable invalidate_cache : Option MweIndexSnapshot → Option MweIndexSnapshot
invalidate_cache cache = none
