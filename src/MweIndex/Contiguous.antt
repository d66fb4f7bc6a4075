-- ===== src/MweIndex/Contiguous.antt =====
-- Which expressions the indexes of token tuples and of verbs with particles have.
use vocabulary_micro.Prelude.{
  pair_beq, true, not, ap, ◌∙◌, ◌-◌, ◌&&◌, ◌||◌, false, [], ◌∷◌, leb, take, drop, is_empty, ◌==◌,
  if◌then◌else◌, length, arith, list_beq, ℕ, ◌≡◌, refl, Bool, Option, none, some, List, map,
  nat_equality, list_equality, pair_equality, contains, Distinct, lookup,
}
use vocabulary_micro.Text.{Text, codes}
use vocabulary_micro.MweDetector.Contiguous.{ids_at}
use vocabulary_micro.MweDetector.Separable.{SeparableIndex}
use vocabulary_micro.MweIndex.{
  last_of, ends, separable_pair, add_pair, add_expression, build_mwe_snapshot,
}
use vocabulary_micro.MweIndex.Records.{
  ExpressionRow, MweExpressionRecord, Indexes, Tables, or_no_items,
}
use vocabulary_micro.MweIndex.Complete.{add_at, is_key, has_key, index_expressions-IsComplete}

abbrev pub words_of_expression : MweExpressionRecord → Option (List Text)
words_of_expression e = some e.tokens

contiguous_step :
    (i : Indexes) (e : MweExpressionRecord)
    → (add_expression i e).contiguous ≡ add_at i.contiguous e.expression_id (words_of_expression e)
unfolding add_expression
contiguous_step i e = refl

add_pair_lem :
    (m : SeparableIndex) (id : ℕ) (o : Option (Text × Text)) → add_pair m id o ≡ add_at m id o
add_pair_lem m id none = refl
add_pair_lem m id (some pair) = refl

separable_step :
    (i : Indexes) (e : MweExpressionRecord)
    → (add_expression i e).separable ≡ add_at i.separable e.expression_id (separable_pair e)
unfolding add_expression
separable_step i e = add_pair_lem i.separable e.expression_id (separable_pair e)

last_token : (x : Text) (xs : List Text) → drop (length xs) (x ∷ xs) ≡ last_of x xs ∷ []
last_token x [] = refl
last_token x (y ∷ ys) = last_token y ys

-- The verb and the particle of a separable expression: its lemma and its particle if it has both, and
-- otherwise the first and the last of the two or more tokens of a phrasal verb.
abbrev pub has_verb_and_particle : Option MweExpressionRecord → Text × Text → Bool
has_verb_and_particle none pair = false
has_verb_and_particle (some e) (verb, particle) =
    e.is_separable
    && (if is_empty e.base_lemma || is_empty e.particle
        then e.expression_type == codes "phrasal_verb"
          && (leb 2 (length e.tokens)
              && ((take 1 e.tokens == verb ∷ [])
                  && (drop (length e.tokens - 1) e.tokens == particle ∷ [])))
        else e.base_lemma == verb && e.particle == particle)

ends_lem :
    (ts : List Text) (verb particle : Text)
    → is_key (ends ts) (verb, particle) ≡ (
        leb 2 (length ts)
        && ((take 1 ts == verb ∷ []) && (drop (length ts - 1) ts == particle ∷ [])))
unfolding list_beq pair_beq
ends_lem [] verb particle = refl
ends_lem (x ∷ []) verb particle = refl
ends_lem (x ∷ y ∷ ys) verb particle =
    let count : length (x ∷ y ∷ ys) - 1 ≡ length (y ∷ ys) = omega arith in
    let last : drop (length (x ∷ y ∷ ys) - 1) (x ∷ y ∷ ys) ≡ last_of y ys ∷ [] =
      ap (λ n. drop n (x ∷ y ∷ ys)) count ∙ last_token y ys in
    let long : leb 2 (length (x ∷ y ∷ ys)) ≡ true = ground arith in rw (long, last) (ground arith)

chosen_pair :
    (separable no_lemma no_particle phrasal : Bool) (own : Text × Text) (o : Option (Text × Text))
    (pair : Text × Text)
    → is_key
        (if not separable
          then none
          else if not no_lemma && not no_particle
          then some own
          else if phrasal
          then o
          else none)
        pair
      ≡ (separable
          && (if no_lemma || no_particle
              then phrasal && is_key o pair
              else own.0 == pair.0 && own.1 == pair.1))
unfolding list_beq pair_beq
chosen_pair false b p t own o pair = refl
chosen_pair true false false t own o pair = refl
chosen_pair true false true false own o pair = refl
chosen_pair true false true true own o pair = refl
chosen_pair true true p false own o pair = refl
chosen_pair true true p true own o pair = refl

separable_pair_lem :
    (o : Option MweExpressionRecord) (pair : Text × Text)
    → has_key separable_pair o pair ≡ has_verb_and_particle o pair
unfolding separable_pair
separable_pair_lem none pair = refl
separable_pair_lem (some e) (verb, particle) =
    chosen_pair e.is_separable (is_empty e.base_lemma) (is_empty e.particle)
      (e.expression_type == codes "phrasal_verb") (e.base_lemma, e.particle) (ends e.tokens)
      (verb, particle)
    ∙ rw (ends_lem e.tokens verb particle) refl

-- If the rows of the expressions have distinct ids, the index of token tuples has under each tuple
-- exactly the expressions of the snapshot with those tokens, and the index of separable expressions
-- under each pair exactly the separable ones with that verb and particle: their lemma and particle
-- if they have both, and otherwise, for a phrasal verb of two tokens or more, its first and last
-- token.
pub build_mwe_snapshot-IsComplete :
    (is_letter : ℕ → Bool) (sha1 : Text → Text) (decimal : ℕ → Text) (t : Tables) (version : ℕ)
    (name : Text) (revision : Option Text) (words : List Text) (pair : Text × Text) (id : ℕ)
    → Distinct (map (λ (r : ExpressionRow). r.id) t.expression_rows)
    → (let s = build_mwe_snapshot is_letter sha1 decimal t version name revision in
        (contains (ids_at s.contiguous_index words) id
          ≡ has_key words_of_expression (lookup s.expressions id) words)
        × (contains (or_no_items (lookup s.separable_index pair)) id
            ≡ has_verb_and_particle (lookup s.expressions id) pair))
unfolding build_mwe_snapshot ids_at
build_mwe_snapshot-IsComplete is_letter sha1 decimal t version name revision words pair id d = (
  index_expressions-IsComplete words_of_expression (λ i. i.contiguous) contiguous_step is_letter
      t.expression_rows words id d refl,
  index_expressions-IsComplete separable_pair (λ i. i.separable) separable_step is_letter
        t.expression_rows pair id d refl
      ∙ separable_pair_lem
          (lookup (build_mwe_snapshot is_letter sha1 decimal t version name revision).expressions
            id)
          pair,
)
