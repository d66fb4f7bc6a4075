-- ===== src/Tests/MweTables.antt =====
-- Runs of the index of expressions and senses, with what holds of them.
use vocabulary_micro.Prelude.{
  ℕ, ◌+◌, ◌*◌, ◌≡◌, refl, Bool, ◌&&◌, none, some, List, [], ◌∷◌, map, leb, take, All, insert_sorted,
  sort, then_by, nat_equality, list_beq, list_equality, pair_beq, pair_equality, contains, Distinct,
  lookup, upsert,
}
use vocabulary_micro.Text.{
  Text, codes, is_space, lower_code, lower, lstrip, rstrip, strip, collapse_from, collapse,
}
use vocabulary_micro.MweDetector.Contiguous.{ids_at}
use vocabulary_micro.MweIndex.{separable_pair, build_mwe_snapshot, get_mwe_snapshot}
use vocabulary_micro.MweIndex.Records.{
  or_no_items, ExpressionRow, SenseRow, Tables, MweIndexSnapshot,
}
use vocabulary_micro.MweIndex.Complete.{has_key}
use vocabulary_micro.MweIndex.Contiguous.{
  has_verb_and_particle, words_of_expression, build_mwe_snapshot-IsComplete,
}
use vocabulary_micro.MweIndex.Senses.{AreSenses, build_mwe_snapshot-AreSenses}
use vocabulary_micro.MweIndex.Serve.{fresh_snapshot, IsTrue, get_mwe_snapshot-IsTrue}

abbrev letter : ℕ → Bool
letter c = leb b'a' c && leb c b'z'

abbrev digest : Text → Text
digest s = take 2 s

abbrev number : ℕ → Text
number n = (b'0' + n) ∷ []

abbrev row : ℕ → Text → ℕ → ExpressionRow
row id form separable = record {
  id = id;
  canonical_form = form;
  expression_type = codes "phrasal_verb";
  base_lemma = [];
  particle = [];
  is_separable = separable;
  max_gap_tokens = 0;
}

abbrev sense : ℕ → ℕ → ℕ → SenseRow
sense id expression priority = record {
  id = id;
  expression_id = expression;
  sense_key = codes "k";
  gloss = codes "g";
  usage_label = [];
  example = [];
  priority = priority;
}

abbrev tables : Tables
tables = record {
  expression_rows = row 2 (codes "Up to") 1 ∷ row 1 (codes "up  to") 0 ∷ row 3 (codes "?") 1 ∷ [];
  sense_rows = sense 8 1 5 ∷ sense 9 3 0 ∷ sense 7 1 0 ∷ [];
  sense_embeddings = λ name revision. (7, codes "0.5" ∷ []) ∷ [];
}

abbrev up_to : List Text
up_to = codes "up" ∷ codes "to" ∷ []

abbrev built : MweIndexSnapshot
built = build_mwe_snapshot letter digest number tables 4 (codes "m") none

both_ids : ids_at built.contiguous_index up_to ≡ 1 ∷ 2 ∷ []
unfolding contains lower strip build_mwe_snapshot ids_at vocabulary_micro.MweIndex.index_expressions
    vocabulary_micro.MweIndex.read_expression vocabulary_micro.MweIndex.add_expression
    vocabulary_micro.MweIndex.append_item vocabulary_micro.MweIndex.separable_pair
    vocabulary_micro.MweIndex.index_senses vocabulary_micro.MweIndex.read_sense
    vocabulary_micro.MweIndex.sense_before vocabulary_micro.MweIndex.freeze_senses
    vocabulary_micro.MweIndex.freeze_ids vocabulary_micro.MweDetector.Contiguous.sorted_ids
    vocabulary_micro.TextProcessor.Forms.unique vocabulary_micro.TextProcessor.Forms.unique_from
    vocabulary_micro.IndexProvider.Pieces.pieces
    vocabulary_micro.IndexProvider.Pieces.normalize_whitespace
    vocabulary_micro.IndexProvider.Pieces.find_pieces vocabulary_micro.IndexProvider.Pieces.finish
    vocabulary_micro.IndexProvider.Pieces.take_letter
    vocabulary_micro.IndexProvider.Pieces.joins_words
    vocabulary_micro.IndexProvider.Pieces.take_other vocabulary_micro.Prelude.list_beq
    vocabulary_micro.Prelude.pair_beq vocabulary_micro.Prelude.lookup
    vocabulary_micro.Prelude.upsert vocabulary_micro.Prelude.insert_sorted
    vocabulary_micro.Prelude.sort vocabulary_micro.Prelude.then_by vocabulary_micro.Text.collapse
    vocabulary_micro.Text.collapse_from vocabulary_micro.Text.is_space
    vocabulary_micro.Text.lower_code vocabulary_micro.Text.lstrip vocabulary_micro.Text.rstrip
both_ids = refl

one_pair : built.separable_index ≡ ((codes "up", codes "to"), 2 ∷ []) ∷ []
unfolding contains lower strip build_mwe_snapshot ids_at vocabulary_micro.MweIndex.index_expressions
    vocabulary_micro.MweIndex.read_expression vocabulary_micro.MweIndex.add_expression
    vocabulary_micro.MweIndex.append_item vocabulary_micro.MweIndex.separable_pair
    vocabulary_micro.MweIndex.index_senses vocabulary_micro.MweIndex.read_sense
    vocabulary_micro.MweIndex.sense_before vocabulary_micro.MweIndex.freeze_senses
    vocabulary_micro.MweIndex.freeze_ids vocabulary_micro.MweDetector.Contiguous.sorted_ids
    vocabulary_micro.TextProcessor.Forms.unique vocabulary_micro.TextProcessor.Forms.unique_from
    vocabulary_micro.IndexProvider.Pieces.pieces
    vocabulary_micro.IndexProvider.Pieces.normalize_whitespace
    vocabulary_micro.IndexProvider.Pieces.find_pieces vocabulary_micro.IndexProvider.Pieces.finish
    vocabulary_micro.IndexProvider.Pieces.take_letter
    vocabulary_micro.IndexProvider.Pieces.joins_words
    vocabulary_micro.IndexProvider.Pieces.take_other vocabulary_micro.Prelude.list_beq
    vocabulary_micro.Prelude.pair_beq vocabulary_micro.Prelude.lookup
    vocabulary_micro.Prelude.upsert vocabulary_micro.Prelude.insert_sorted
    vocabulary_micro.Prelude.sort vocabulary_micro.Prelude.then_by vocabulary_micro.Text.collapse
    vocabulary_micro.Text.collapse_from vocabulary_micro.Text.is_space
    vocabulary_micro.Text.lower_code vocabulary_micro.Text.lstrip vocabulary_micro.Text.rstrip
one_pair = refl

sense_ids :
    map {B = ℕ × List ℕ} (λ x. (x.0, map (λ s. s.sense_id) x.1)) built.senses_by_expression
    ≡ (1, 7 ∷ 8 ∷ []) ∷ []
unfolding contains lower strip build_mwe_snapshot ids_at vocabulary_micro.MweIndex.index_expressions
    vocabulary_micro.MweIndex.read_expression vocabulary_micro.MweIndex.add_expression
    vocabulary_micro.MweIndex.append_item vocabulary_micro.MweIndex.separable_pair
    vocabulary_micro.MweIndex.index_senses vocabulary_micro.MweIndex.read_sense
    vocabulary_micro.MweIndex.sense_before vocabulary_micro.MweIndex.freeze_senses
    vocabulary_micro.MweIndex.freeze_ids vocabulary_micro.MweDetector.Contiguous.sorted_ids
    vocabulary_micro.TextProcessor.Forms.unique vocabulary_micro.TextProcessor.Forms.unique_from
    vocabulary_micro.IndexProvider.Pieces.pieces
    vocabulary_micro.IndexProvider.Pieces.normalize_whitespace
    vocabulary_micro.IndexProvider.Pieces.find_pieces vocabulary_micro.IndexProvider.Pieces.finish
    vocabulary_micro.IndexProvider.Pieces.take_letter
    vocabulary_micro.IndexProvider.Pieces.joins_words
    vocabulary_micro.IndexProvider.Pieces.take_other vocabulary_micro.Prelude.list_beq
    vocabulary_micro.Prelude.pair_beq vocabulary_micro.Prelude.lookup
    vocabulary_micro.Prelude.upsert vocabulary_micro.Prelude.insert_sorted
    vocabulary_micro.Prelude.sort vocabulary_micro.Prelude.then_by vocabulary_micro.Text.collapse
    vocabulary_micro.Text.collapse_from vocabulary_micro.Text.is_space
    vocabulary_micro.Text.lower_code vocabulary_micro.Text.lstrip vocabulary_micro.Text.rstrip
sense_ids = refl

Distinct-rows : Distinct (map (λ (r : ExpressionRow). r.id) tables.expression_rows)
Distinct-rows = (unfold contains in (refl, (refl, (refl, tt))))

abbrev up_and_to : Text × Text
up_and_to = (codes "up", codes "to")

build_mwe_snapshot-IsComplete_example :
    (contains (ids_at built.contiguous_index up_to) 2
      ≡ has_key words_of_expression (lookup built.expressions 2) up_to)
    × (contains (or_no_items (lookup built.separable_index up_and_to)) 2
        ≡ has_verb_and_particle (lookup built.expressions 2) up_and_to)
build_mwe_snapshot-IsComplete_example =
    build_mwe_snapshot-IsComplete letter digest number tables 4 (codes "m") none up_to up_and_to 2
      Distinct-rows

build_mwe_snapshot-AreSenses_example : All (AreSenses built.expressions) built.senses_by_expression
build_mwe_snapshot-AreSenses_example =
    build_mwe_snapshot-AreSenses letter digest number tables 4 (codes "m") none

abbrev versions : ℕ → Tables
versions version = tables

built-IsTrue : IsTrue letter digest number versions (some built)
unfolding build_mwe_snapshot
built-IsTrue = refl

get_mwe_snapshot-IsTrue_example :
    (let r = get_mwe_snapshot letter digest number (some built) 5 tables (codes "m") none in
      (r.1 ≡ fresh_snapshot letter digest number versions 5 (codes "m") none)
      × (r.0 ≡ some (fresh_snapshot letter digest number versions 5 (codes "m") none))
      × IsTrue letter digest number versions r.0)
get_mwe_snapshot-IsTrue_example =
    get_mwe_snapshot-IsTrue letter digest number versions (some built) 5 (codes "m") none
      built-IsTrue
