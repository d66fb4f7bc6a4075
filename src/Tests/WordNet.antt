-- ===== src/Tests/WordNet.antt =====
-- Runs of the WordNet stage, with what holds of them.
use vocabulary_micro.Prelude.{
  ◌+◌, ◌*◌, ◌≡◌, refl, Bool, true, false, ◌&&◌, ◌||◌, none, some, List, [], ◌∷◌, map, leb,
  if◌then◌else◌, length, ◌==◌, nat_equality, list_beq, list_equality, pair_equality, contains,
  lookup, keys,
}
use vocabulary_micro.Text.{Text, codes, is_space, lower_code, lower, lstrip, rstrip, strip}
use vocabulary_micro.ExactMatcher.{TokenRecord}
use vocabulary_micro.LemmaMatcher.{count_unknown_tokens}
use vocabulary_micro.WordNetMatcher.Availability.{
  Nltk, WordNetState, loaded, lookup_error, new_state, ensure_available,
}
use vocabulary_micro.WordNetMatcher.{WordNetSettings, EntryCache, apply_wordnet, wordnet_lookup}
use vocabulary_micro.WordNetMatcher.Laws.{
  IsFaithful, tokens_uncached, or_zero, apply_wordnet-IsFaithful,
}

abbrev word : Text → Text → Bool → TokenRecord
word form lemma known = record {
  token = form;
  normalized = form;
  lemma = lemma;
  pos = codes "NOUN";
  start = 0;
  stop = length form;
  categories = [];
  known = known;
  match_source = codes "none";
  matched_form = [];
  bert_score = none;
}

abbrev nltk : Nltk
nltk = record {
  imported = true;
  ensure_loaded = loaded;
  find_omw_14 = lookup_error;
  find_omw = lookup_error;
  synsets = λ s. some (s == codes "cat" || s == codes "go");
  morphy = λ s. if s == codes "went" then some (codes "go") else none;
}

abbrev settings : WordNetSettings
settings = record {
  enable_wordnet = true;
  max_unknown_tokens = 5;
  cache_max_entries = 2;
  is_letter = λ c. leb b'a' c && leb c b'z';
}

abbrev words : List TokenRecord
words =
    word (codes "cats") (codes "cat") false
    ∷ word (codes "went") (codes "went") false
    ∷ word (codes "ax") (codes "ax") true
    ∷ word (codes "zz") (codes "zz") false
    ∷ []

abbrev old_cache : EntryCache
old_cache = (codes "cat", true) ∷ []

forms : List Text
forms = map (λ t. t.matched_form) (apply_wordnet nltk settings new_state words old_cache).0

two_matches : forms ≡ codes "cat" ∷ codes "went" ∷ [] ∷ [] ∷ []
unfolding forms apply_wordnet ensure_available wordnet_lookup contains lower strip
    vocabulary_micro.WordNetMatcher.skip_probe vocabulary_micro.WordNetMatcher.build_probe_forms
    vocabulary_micro.WordNetMatcher.recall_entry vocabulary_micro.WordNetMatcher.has_wordnet_entry
    vocabulary_micro.WordNetMatcher.first_entry vocabulary_micro.WordNetMatcher.set_wordnet_match
    vocabulary_micro.WordNetMatcher.match_form vocabulary_micro.WordNetMatcher.match_wordnet
    vocabulary_micro.WordNetMatcher.match_all_wordnet
    vocabulary_micro.WordNetMatcher.Availability.ensure_omw_available
    vocabulary_micro.WordNetMatcher.Availability.settle
    vocabulary_micro.WordNetMatcher.Availability.set_omw_state vocabulary_micro.LruCache.cache_get
    vocabulary_micro.LruCache.cache_put vocabulary_micro.LruCache.drop_oldest
    vocabulary_micro.LruCache.move_to_end vocabulary_micro.LruCache.refresh
    vocabulary_micro.LruCache.without_key vocabulary_micro.IndexProvider.Pieces.find_pieces
    vocabulary_micro.IndexProvider.Pieces.finish vocabulary_micro.IndexProvider.Pieces.take_letter
    vocabulary_micro.IndexProvider.Pieces.joins_words
    vocabulary_micro.IndexProvider.Pieces.take_other vocabulary_micro.Prelude.list_beq
    vocabulary_micro.Prelude.lookup vocabulary_micro.Text.is_space vocabulary_micro.Text.lower_code
    vocabulary_micro.Text.lstrip vocabulary_micro.Text.rstrip
    vocabulary_micro.TextProcessor.Admission.is_digit_text
    vocabulary_micro.LemmaMatcher.Candidates.is_weird_code
two_matches = refl

cached_keys :
    keys (apply_wordnet nltk settings new_state words old_cache).2 ≡ codes "went" ∷ codes "zz" ∷ []
unfolding apply_wordnet ensure_available wordnet_lookup contains lower strip
    vocabulary_micro.WordNetMatcher.skip_probe vocabulary_micro.WordNetMatcher.build_probe_forms
    vocabulary_micro.WordNetMatcher.recall_entry vocabulary_micro.WordNetMatcher.has_wordnet_entry
    vocabulary_micro.WordNetMatcher.first_entry vocabulary_micro.WordNetMatcher.set_wordnet_match
    vocabulary_micro.WordNetMatcher.match_form vocabulary_micro.WordNetMatcher.match_wordnet
    vocabulary_micro.WordNetMatcher.match_all_wordnet
    vocabulary_micro.WordNetMatcher.Availability.ensure_omw_available
    vocabulary_micro.WordNetMatcher.Availability.settle
    vocabulary_micro.WordNetMatcher.Availability.set_omw_state vocabulary_micro.LruCache.cache_get
    vocabulary_micro.LruCache.cache_put vocabulary_micro.LruCache.drop_oldest
    vocabulary_micro.LruCache.move_to_end vocabulary_micro.LruCache.refresh
    vocabulary_micro.LruCache.without_key vocabulary_micro.IndexProvider.Pieces.find_pieces
    vocabulary_micro.IndexProvider.Pieces.finish vocabulary_micro.IndexProvider.Pieces.take_letter
    vocabulary_micro.IndexProvider.Pieces.joins_words
    vocabulary_micro.IndexProvider.Pieces.take_other vocabulary_micro.Prelude.list_beq
    vocabulary_micro.Prelude.lookup vocabulary_micro.Text.is_space vocabulary_micro.Text.lower_code
    vocabulary_micro.Text.lstrip vocabulary_micro.Text.rstrip
    vocabulary_micro.TextProcessor.Admission.is_digit_text
    vocabulary_micro.LemmaMatcher.Candidates.is_weird_code
cached_keys = refl

no_omw :
    (ensure_available nltk true new_state).omw_unavailable_reason
    ≡ some (codes "omw_corpus_missing")
unfolding ensure_available vocabulary_micro.WordNetMatcher.Availability.ensure_omw_available
    vocabulary_micro.WordNetMatcher.Availability.settle
    vocabulary_micro.WordNetMatcher.Availability.set_omw_state
no_omw = refl

old_cache-IsFaithful : IsFaithful nltk 2 old_cache
unfolding contains wordnet_lookup vocabulary_micro.Prelude.list_beq
old_cache-IsFaithful = (((refl, tt), refl), (refl, tt))

apply_wordnet-IsFaithful_example :
    (let r = apply_wordnet nltk settings new_state words old_cache in
      (r.0 ≡ tokens_uncached nltk settings new_state words)
      × IsFaithful nltk 2 r.2
      × (or_zero nltk r.3.matched_tokens + count_unknown_tokens r.0 ≡ r.3.unknown_tokens))
apply_wordnet-IsFaithful_example =
    apply_wordnet-IsFaithful nltk settings new_state words old_cache old_cache-IsFaithful
