-- ===== src/Tests/Lemmas.antt =====
-- Runs of the lemma and inflection stage, with what holds of them.
use vocabulary_micro.Prelude.{
  All, ◌+◌, ◌*◌, ◌≡◌, refl, Bool, true, false, ◌&&◌, ◌||◌, none, some, List, [], ◌∷◌, map, leb,
  if◌then◌else◌, length, insert_sorted, sort, ◌==◌, nat_equality, list_beq, list_equality,
  pair_equality, contains, lookup, upsert, keys,
}
use vocabulary_micro.Text.{
  Text, codes, is_space, lower_code, lower, lstrip, rstrip, strip, collapse_from, collapse,
}
use vocabulary_micro.ExactMatcher.{TokenRecord}
use vocabulary_micro.LruCache.{BoundedCache}
use vocabulary_micro.LemmaMatcher.{apply_lemmas, count_unknown_tokens}
use vocabulary_micro.LemmaMatcher.Candidates.{LemmaMatcher}
use vocabulary_micro.LruCache.Window.{last}
use vocabulary_micro.LruCache.History.{
  Use, read, write, latest, use_cache, history, use_cache-history,
}
use vocabulary_micro.LruCache.Bounds.{IsBounded}
use vocabulary_micro.IndexProvider.{or_empty}
use vocabulary_micro.LemmaMatcher.Faithful.{
  IsKeyed, IsOwn, tokens_uncached, apply_lemmas-IsFaithful,
}
use vocabulary_micro.LemmaMatcher.Laws.{apply_lemmas-IsBounded}

abbrev word : Text → Bool → TokenRecord
word form known = record {
  token = form;
  normalized = lower form;
  lemma = lower form;
  pos = codes "VERB";
  start = 0;
  stop = length form;
  categories = [];
  known = known;
  match_source = codes "none";
  matched_form = [];
  bert_score = none;
}

abbrev matcher : LemmaMatcher
matcher = record {
  enabled = true;
  max_unknown_tokens = 5;
  max_candidates = 4;
  cache_max_entries = 1;
  all_lemmas = some (λ s. if s == codes "ran" then (codes "run" ∷ []) ∷ [] else []);
  all_inflections = some (λ s. if s == codes "run" then (codes "Runs" ∷ []) ∷ [] else []);
  is_letter = λ c. leb b'A' c && leb c b'Z' || leb b'a' c && leb c b'z';
}

abbrev lexicon : List (Text × List Text)
lexicon = (codes "run", codes "Verb" ∷ codes "Noun" ∷ []) ∷ []

abbrev words : List TokenRecord
words =
    word (codes "ran") false
    ∷ word (codes "the") false
    ∷ word (codes "ax") true
    ∷ word (codes "zz") false
    ∷ []

abbrev old_cache : BoundedCache (List Text)
old_cache = (codes "old", []) ∷ []

forms : List Text
forms = map (λ t. t.matched_form) (apply_lemmas matcher lexicon words old_cache).0

one_match : forms ≡ codes "run" ∷ [] ∷ [] ∷ [] ∷ []
unfolding forms apply_lemmas lower contains vocabulary_micro.LemmaMatcher.Candidates.is_available
    vocabulary_micro.LemmaMatcher.match_lemmas vocabulary_micro.LemmaMatcher.match_lemma
    vocabulary_micro.LemmaMatcher.Candidates.skip_token
    vocabulary_micro.LemmaMatcher.Candidates.is_weird_code
    vocabulary_micro.LemmaMatcher.match_candidates vocabulary_micro.LemmaMatcher.matched_categories
    vocabulary_micro.LemmaMatcher.Candidates.lemma_inflect_candidates
    vocabulary_micro.LemmaMatcher.Candidates.compute_candidates
    vocabulary_micro.LemmaMatcher.Candidates.extend_bases
    vocabulary_micro.LemmaMatcher.Candidates.extend_forms vocabulary_micro.LemmaMatcher.join_commas
    vocabulary_micro.LemmaMatcher.matched_forms
    vocabulary_micro.LemmaMatcher.Candidates.recall_candidates
    vocabulary_micro.LemmaMatcher.set_lemma_match
    vocabulary_micro.LemmaMatcher.Candidates.unique_candidates vocabulary_micro.LruCache.cache_get
    vocabulary_micro.LruCache.cache_put vocabulary_micro.LruCache.drop_oldest
    vocabulary_micro.LruCache.move_to_end vocabulary_micro.LruCache.refresh
    vocabulary_micro.LruCache.without_key vocabulary_micro.IndexProvider.Pieces.normalize_whitespace
    vocabulary_micro.IndexProvider.Pieces.find_pieces vocabulary_micro.IndexProvider.Pieces.finish
    vocabulary_micro.IndexProvider.Pieces.take_letter
    vocabulary_micro.IndexProvider.Pieces.joins_words
    vocabulary_micro.IndexProvider.Pieces.take_other vocabulary_micro.Prelude.list_beq
    vocabulary_micro.Prelude.lookup vocabulary_micro.Prelude.upsert
    vocabulary_micro.Prelude.insert_sorted vocabulary_micro.Prelude.sort
    vocabulary_micro.Text.Order.text_before vocabulary_micro.Text.Sets.sorted_set
    vocabulary_micro.Text.Sets.to_set vocabulary_micro.Text.strip vocabulary_micro.Text.lstrip
    vocabulary_micro.Text.rstrip vocabulary_micro.Text.collapse vocabulary_micro.Text.collapse_from
    vocabulary_micro.Text.is_space vocabulary_micro.Text.lower_code
    vocabulary_micro.TextProcessor.Admission.is_digit_text
one_match = refl

cached_keys : keys (apply_lemmas matcher lexicon words old_cache).1 ≡ codes "zz|zz|zz" ∷ []
unfolding apply_lemmas lower contains vocabulary_micro.LemmaMatcher.Candidates.is_available
    vocabulary_micro.LemmaMatcher.match_lemmas vocabulary_micro.LemmaMatcher.match_lemma
    vocabulary_micro.LemmaMatcher.Candidates.skip_token
    vocabulary_micro.LemmaMatcher.Candidates.is_weird_code
    vocabulary_micro.LemmaMatcher.match_candidates vocabulary_micro.LemmaMatcher.matched_categories
    vocabulary_micro.LemmaMatcher.Candidates.lemma_inflect_candidates
    vocabulary_micro.LemmaMatcher.Candidates.compute_candidates
    vocabulary_micro.LemmaMatcher.Candidates.extend_bases
    vocabulary_micro.LemmaMatcher.Candidates.extend_forms vocabulary_micro.LemmaMatcher.join_commas
    vocabulary_micro.LemmaMatcher.matched_forms
    vocabulary_micro.LemmaMatcher.Candidates.recall_candidates
    vocabulary_micro.LemmaMatcher.set_lemma_match
    vocabulary_micro.LemmaMatcher.Candidates.unique_candidates vocabulary_micro.LruCache.cache_get
    vocabulary_micro.LruCache.cache_put vocabulary_micro.LruCache.drop_oldest
    vocabulary_micro.LruCache.move_to_end vocabulary_micro.LruCache.refresh
    vocabulary_micro.LruCache.without_key vocabulary_micro.IndexProvider.Pieces.normalize_whitespace
    vocabulary_micro.IndexProvider.Pieces.find_pieces vocabulary_micro.IndexProvider.Pieces.finish
    vocabulary_micro.IndexProvider.Pieces.take_letter
    vocabulary_micro.IndexProvider.Pieces.joins_words
    vocabulary_micro.IndexProvider.Pieces.take_other vocabulary_micro.Prelude.list_beq
    vocabulary_micro.Prelude.lookup vocabulary_micro.Prelude.upsert
    vocabulary_micro.Prelude.insert_sorted vocabulary_micro.Prelude.sort
    vocabulary_micro.Text.Order.text_before vocabulary_micro.Text.Sets.sorted_set
    vocabulary_micro.Text.Sets.to_set vocabulary_micro.Text.strip vocabulary_micro.Text.lstrip
    vocabulary_micro.Text.rstrip vocabulary_micro.Text.collapse vocabulary_micro.Text.collapse_from
    vocabulary_micro.Text.is_space vocabulary_micro.Text.lower_code
    vocabulary_micro.TextProcessor.Admission.is_digit_text
cached_keys = refl

old_cache-IsBounded : IsBounded 1 old_cache
unfolding contains
old_cache-IsBounded = ((refl, tt), refl)

apply_lemmas-IsBounded_example : IsBounded 1 (apply_lemmas matcher lexicon words old_cache).1
apply_lemmas-IsBounded_example =
    apply_lemmas-IsBounded matcher lexicon words old_cache old_cache-IsBounded

abbrev calls : List (Use (List Text))
calls = write (codes "a") [] ∷ write (codes "b") [] ∷ read (codes "a") ∷ write (codes "c") [] ∷ []

evicted : keys (use_cache 2 [] calls) ≡ codes "a" ∷ codes "c" ∷ []
unfolding use_cache vocabulary_micro.LruCache.cache_get vocabulary_micro.LruCache.cache_put
    vocabulary_micro.LruCache.drop_oldest vocabulary_micro.LruCache.move_to_end
    vocabulary_micro.LruCache.refresh vocabulary_micro.LruCache.without_key
    vocabulary_micro.Prelude.list_beq vocabulary_micro.Prelude.lookup
evicted = refl

use_cache-history_example :
    use_cache 2 (last 2 (latest old_cache)) calls ≡ last 2 (latest (history 2 old_cache calls))
use_cache-history_example = use_cache-history 2 old_cache calls

abbrev own_candidates : List (Text × List Text)
own_candidates =
    (codes "ran|ran|ran", codes "ran" ∷ codes "run" ∷ codes "runs" ∷ [])
    ∷ (codes "the|the|the", codes "the" ∷ [])
    ∷ (codes "ax|ax|ax", codes "ax" ∷ [])
    ∷ (codes "zz|zz|zz", codes "zz" ∷ [])
    ∷ []

abbrev of_key : Text → List Text
of_key key = or_empty (lookup own_candidates key)

words-AreKeyed : All (IsKeyed matcher of_key) words
unfolding lower contains vocabulary_micro.LemmaMatcher.Candidates.is_available
    vocabulary_micro.LemmaMatcher.match_lemmas vocabulary_micro.LemmaMatcher.match_lemma
    vocabulary_micro.LemmaMatcher.Candidates.skip_token
    vocabulary_micro.LemmaMatcher.Candidates.is_weird_code
    vocabulary_micro.LemmaMatcher.match_candidates vocabulary_micro.LemmaMatcher.matched_categories
    vocabulary_micro.LemmaMatcher.Candidates.lemma_inflect_candidates
    vocabulary_micro.LemmaMatcher.Candidates.compute_candidates
    vocabulary_micro.LemmaMatcher.Candidates.extend_bases
    vocabulary_micro.LemmaMatcher.Candidates.extend_forms vocabulary_micro.LemmaMatcher.join_commas
    vocabulary_micro.LemmaMatcher.matched_forms
    vocabulary_micro.LemmaMatcher.Candidates.recall_candidates
    vocabulary_micro.LemmaMatcher.set_lemma_match
    vocabulary_micro.LemmaMatcher.Candidates.unique_candidates vocabulary_micro.LruCache.cache_get
    vocabulary_micro.LruCache.cache_put vocabulary_micro.LruCache.drop_oldest
    vocabulary_micro.LruCache.move_to_end vocabulary_micro.LruCache.refresh
    vocabulary_micro.LruCache.without_key vocabulary_micro.IndexProvider.Pieces.normalize_whitespace
    vocabulary_micro.IndexProvider.Pieces.find_pieces vocabulary_micro.IndexProvider.Pieces.finish
    vocabulary_micro.IndexProvider.Pieces.take_letter
    vocabulary_micro.IndexProvider.Pieces.joins_words
    vocabulary_micro.IndexProvider.Pieces.take_other vocabulary_micro.Prelude.list_beq
    vocabulary_micro.Prelude.lookup vocabulary_micro.Prelude.upsert
    vocabulary_micro.Prelude.insert_sorted vocabulary_micro.Prelude.sort
    vocabulary_micro.Text.Order.text_before vocabulary_micro.Text.Sets.sorted_set
    vocabulary_micro.Text.Sets.to_set vocabulary_micro.Text.strip vocabulary_micro.Text.lstrip
    vocabulary_micro.Text.rstrip vocabulary_micro.Text.collapse vocabulary_micro.Text.collapse_from
    vocabulary_micro.Text.is_space vocabulary_micro.Text.lower_code
    vocabulary_micro.TextProcessor.Admission.is_digit_text
words-AreKeyed = (refl, (refl, (refl, (refl, tt))))

old_cache-AreOwn : All (IsOwn matcher of_key) old_cache
unfolding lookup list_beq
old_cache-AreOwn = (refl, tt)

apply_lemmas-IsFaithful_example :
    (let r = apply_lemmas matcher lexicon words old_cache in
      (r.0 ≡ tokens_uncached matcher lexicon words)
      × IsBounded 1 r.1
      × All (IsOwn matcher of_key) r.1
      × (r.2.matched_tokens + count_unknown_tokens r.0 ≡ count_unknown_tokens words))
apply_lemmas-IsFaithful_example =
    apply_lemmas-IsFaithful matcher of_key lexicon words old_cache words-AreKeyed
      old_cache-IsBounded old_cache-AreOwn
