-- ===== src/Tests/Mwe.antt =====
-- mwe_detector.py: "he gave it up", with a separable verb and an idiom that share a token.
use vocabulary_micro.Prelude.{
  ℕ, ◌+◌, ◌*◌, ◌≡◌, refl, true, false, none, some, List, [], ◌∷◌, map, ltb, any, All, fold, range,
  insert_sorted, sort, IsSorted, then_by, ascending-IsWeakOrder, nat_equality, list_beq,
  list_equality, pair_equality, contains, lookup, upsert,
}
use vocabulary_micro.Text.{
  Text, codes, is_space, lower_code, lower, upper_code, upper, lstrip, rstrip, strip,
}
use vocabulary_micro.TextProcessor.Forms.{unique, unique_from}
use vocabulary_micro.MweDetector.{
  MweToken, MweExpression, MweCandidate, MweSettings, init_detector, max_score, build_candidate,
}
use vocabulary_micro.MweDetector.Particles.{
  reads_as, is_tagged, among_children, in_window, find_particle_index,
}
use vocabulary_micro.MweDetector.Overlaps.{earlier, outranks, intersects, select, dedupe_overlaps}
use vocabulary_micro.MweDetector.Overlaps.Apart.{Disjoint}
use vocabulary_micro.MweDetector.Overlaps.Choice.{beats}
use vocabulary_micro.MweDetector.Contiguous.{
  ContiguousIndex, detect_contiguous, contiguous_start, key_lengths, contiguous_length,
  matching_ids, sorted_ids, lemma_of, ids_at, contiguous_id, contiguous_candidate, add_found,
  same_marker,
}
use vocabulary_micro.MweDetector.Separable.{
  SeparableIndex, detect_separable, detect, add_option, group_by_verb, is_ambiguous_relation,
  is_particle_relation, judge_link, options_of, score_by, separable_candidate, separable_id,
  separable_option, separable_start,
}
use vocabulary_micro.MweDetector.Choices.{
  IsDetected, detected, both_passes, detect_lem, detect-beats,
}

abbrev word : ℕ → Text → Text → Text → Text → MweToken
word i t lemma pos dep = record {
  index = i;
  doc_index = i;
  text = t;
  lower_text = t;
  lemma = lemma;
  pos = pos;
  dep = dep;
  start = 3 * i;
  stop = 3 * i + 2;
  sentence_text = [];
  children_indices = [];
}

abbrev sentence : List MweToken
sentence =
    word 0 (codes "he") (codes "he") (codes "PRON") (codes "nsubj")
    ∷ word 1 (codes "gave") (codes "give") (codes "VERB") (codes "root")
    ∷ word 2 (codes "it") (codes "it") (codes "PRON") (codes "dobj")
    ∷ word 3 (codes "up") (codes "up") (codes "ADP") (codes "prt")
    ∷ []

abbrev give_up : MweExpression
give_up = record {
  expression_id = 1;
  canonical_form = codes "give up";
  expression_type = codes "phrasal_verb";
  is_separable = true;
  max_gap_tokens = 2;
  base_lemma = codes "give";
  particle = codes "up";
  words = codes "give" ∷ codes "up" ∷ [];
}

abbrev it_up : MweExpression
it_up = record {
  expression_id = 2;
  canonical_form = codes "it up";
  expression_type = codes "idiom";
  is_separable = false;
  max_gap_tokens = 0;
  base_lemma = [];
  particle = [];
  words = codes "it" ∷ codes "up" ∷ [];
}

abbrev known_expressions : List (ℕ × MweExpression)
known_expressions = (1, give_up) ∷ (2, it_up) ∷ []

abbrev by_words : ContiguousIndex
by_words = (codes "it" ∷ codes "up" ∷ [], 2 ∷ []) ∷ []

abbrev by_verbs : SeparableIndex
by_verbs = ((codes "give", codes "up"), 1 ∷ []) ∷ []

abbrev limits : MweSettings ℕ
limits = record {
  second_pass_max_gap_tokens = 4;
  wordnet_semantic_threshold = 52;
  trf_semantic_threshold = 58;
}

limits_init : init_detector ltb 0 4 52 58 ≡ limits
unfolding init_detector max_score
limits_init = refl

up_found : find_particle_index sentence 1 (codes "up") 4 ≡ some 3
unfolding find_particle_index among_children in_window reads_as is_tagged contains list_beq lower
    strip
up_found = refl

off_missing : find_particle_index sentence 1 (codes "off") 4 ≡ none
unfolding find_particle_index among_children in_window reads_as is_tagged contains list_beq lower
    strip
off_missing = refl

abbrev answer : List (MweCandidate ℕ)
answer = detected ltb 0 limits [] sentence known_expressions none none by_words by_verbs

detect_lem_example :
    All (IsDetected ltb 0 limits [] sentence known_expressions none none by_words by_verbs) answer
    × Disjoint answer
    × IsSorted earlier answer
detect_lem_example =
    detect_lem ltb 0 limits [] sentence known_expressions none none by_words by_verbs

no_empty_key : lookup by_words [] ≡ none
unfolding lookup list_beq
no_empty_key = refl

detect-beats_example :
    All
      (λ c. any (beats (outranks ltb) c) answer ≡ true)
      (both_passes ltb 0 limits [] sentence known_expressions none none by_words by_verbs)
detect-beats_example =
    detect-beats ltb 0 limits [] sentence known_expressions none none by_words by_verbs
      (ascending-IsWeakOrder (λ n. n)) no_empty_key

-- The verb and its particle, from token 1 to token 3, win over the idiom inside.
one_choice : map (λ c. c.expression_id) answer ≡ 1 ∷ []
unfolding detect detect_contiguous detect_separable dedupe_overlaps sort fold range contiguous_start
    key_lengths unique unique_from contains contiguous_length matching_ids sorted_ids list_beq
    lemma_of ids_at lookup contiguous_id contiguous_candidate add_found same_marker earlier
    intersects outranks select among_children find_particle_index in_window is_tagged reads_as
    add_option group_by_verb is_ambiguous_relation is_particle_relation judge_link options_of
    score_by separable_candidate separable_id separable_option separable_start build_candidate
    max_score upsert insert_sorted then_by lower strip is_space lower_code lstrip rstrip upper
    upper_code
one_choice = refl
