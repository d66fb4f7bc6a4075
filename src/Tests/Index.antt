-- ===== src/Tests/Index.antt =====
-- The index provider of the lexicon on a lexicon of two entries.
use vocabulary_micro.Prelude.{
  ℕ, zero, suc, ◌≡◌, refl, Bool, true, false, none, some, List, [], ◌∷◌, ◌++◌, map, arith,
  get_elem?, nat_equality, list_equality, pair_equality,
}
use vocabulary_micro.Text.{Text, codes, lower}
use vocabulary_micro.AssignmentScanner.Tokens.{is_alpha}
use vocabulary_micro.IndexProvider.{
  LexiconEntry, LexiconIndexSnapshot, build_snapshot, apply_entries_to_snapshot,
}
use vocabulary_micro.IndexProvider.Pieces.{pieces}
use vocabulary_micro.IndexProvider.Build.{apply_entries_to_snapshot-build_snapshot}
use vocabulary_micro.IndexProvider.Provider.{
  LexiconIndexProvider, can_rebuild, maybe_apply_pending, apply_entry, get_snapshot,
}
use vocabulary_micro.IndexProvider.Provider.Store.{current_index, IsIndexed, apply_entry-IsIndexed}
use vocabulary_micro.IndexProvider.Provider.Serve.{get_snapshot-IsServed, IsServed}
use vocabulary_micro.ExactMatcher.{TokenRecord, apply_phrase_matching}
use vocabulary_micro.ExactMatcher.Laws.{IsMarked, apply_phrase_matching-IsMarked}
use vocabulary_micro.PhraseMatcher.{longest_matches}

abbrev entry_of : Text → Text → LexiconEntry
entry_of category value = record { row = 1; column = 1; category = category; value = value }

abbrev dog : LexiconEntry
dog = entry_of (codes "Noun") (codes "dog")

abbrev give_up : LexiconEntry
give_up = entry_of (codes "Phrasal Verb") (codes "Give up")

-- The lexicon is empty, then has one entry, then two.
abbrev lexicon : ℕ → List LexiconEntry
lexicon zero = []
lexicon (suc zero) = dog ∷ []
lexicon (suc (suc n)) = dog ∷ give_up ∷ []

abbrev same_text_digest : Text → Text
same_text_digest t = t

pieces_of :
    pieces is_alpha (codes "Mother-in-law's 2nd") ≡ codes "mother-in-law's" ∷ codes "nd" ∷ []
unfolding pieces vocabulary_micro.IndexProvider.Pieces.find_pieces is_alpha
    vocabulary_micro.IndexProvider.Pieces.take_other
    vocabulary_micro.IndexProvider.Pieces.take_letter
    vocabulary_micro.IndexProvider.Pieces.joins_words vocabulary_micro.Text.lower
    vocabulary_micro.IndexProvider.Pieces.finish
pieces_of = refl

apply_entries_to_snapshot-build_snapshot_example :
    apply_entries_to_snapshot is_alpha same_text_digest
      (build_snapshot is_alpha same_text_digest (dog ∷ []) 1)
      (give_up ∷ [])
      2
    ≡ build_snapshot is_alpha same_text_digest (dog ∷ give_up ∷ []) 2
apply_entries_to_snapshot-build_snapshot_example =
    apply_entries_to_snapshot-build_snapshot is_alpha same_text_digest (dog ∷ []) (give_up ∷ []) 1 2

-- A provider with a debounce period of 5, whose snapshot has the entry of version 1.
abbrev waiting : LexiconIndexProvider
waiting = record {
  cached = some (current_index is_alpha same_text_digest lexicon 1);
  rebuild_debounce = 5;
  last_rebuild = 10;
  pending_entries = [];
  pending_version = none;
}

waiting-IsIndexed : IsIndexed is_alpha same_text_digest lexicon waiting
unfolding build_snapshot vocabulary_micro.IndexProvider.snapshot_from_maps
waiting-IsIndexed = (refl, refl, λ z. refl, λ z. refl)

version_one : (current_index is_alpha same_text_digest lexicon 1).version ≡ 1
unfolding build_snapshot vocabulary_micro.IndexProvider.snapshot_from_maps
version_one = refl

next_version : (v : ℕ) → v ≡ 1 → lexicon 2 ≡ lexicon v ++ give_up ∷ []
next_version zero h = absurd (ground arith)
next_version (suc zero) h = refl
next_version (suc (suc v)) h = absurd (omega arith)

-- The entry waits for the end of the period.
apply_entry-IsIndexed_example :
    IsIndexed is_alpha same_text_digest lexicon
      (apply_entry is_alpha same_text_digest waiting give_up 2 12)
apply_entry-IsIndexed_example =
    apply_entry-IsIndexed is_alpha same_text_digest lexicon waiting give_up 2 12
      (λ v h. ground (arith, version_one, h))
      (λ v h. next_version v (ground (arith, version_one, h))) waiting-IsIndexed

-- A version that the store has moved past is indexed again.
get_snapshot-IsServed_example :
    IsServed is_alpha same_text_digest lexicon 2 20
      (maybe_apply_pending is_alpha same_text_digest waiting 20 false)
      (get_snapshot is_alpha same_text_digest waiting 2 (lexicon 2) 20 20 21)
unfolding can_rebuild
get_snapshot-IsServed_example =
    get_snapshot-IsServed is_alpha same_text_digest lexicon waiting 2 20 20 21 refl
      waiting-IsIndexed

abbrev token_of : Text → Bool → TokenRecord
token_of word known = record {
  token = word;
  normalized = word;
  lemma = word;
  pos = [];
  start = 0;
  stop = 0;
  categories = [];
  known = known;
  match_source = codes "none";
  matched_form = [];
  bert_score = none;
}

abbrev three_tokens : List TokenRecord
three_tokens =
    token_of (codes "give") false ∷ token_of (codes "up") true ∷ token_of (codes "dog") false ∷ []

abbrev both : LexiconIndexSnapshot
both = build_snapshot is_alpha same_text_digest (dog ∷ give_up ∷ []) 2

apply_phrase_matching-IsMarked_example :
    IsMarked
      (longest_matches both.phrase_matcher (map (λ (t : TokenRecord). t.normalized) three_tokens))
      1
      (get_elem? three_tokens 1)
      (get_elem? (apply_phrase_matching (codes "give up dog") three_tokens both).0 1)
apply_phrase_matching-IsMarked_example =
    apply_phrase_matching-IsMarked (codes "give up dog") three_tokens both 1
