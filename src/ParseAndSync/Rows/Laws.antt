-- ===== src/ParseAndSync/Rows/Laws.antt =====
-- The results of `sync_single_row` of parse_and_sync.py, branch by branch.
use vocabulary_micro.Prelude.{
  ◌≡◌, ◌⊎◌, Bool, true, false, ◌&&◌, not, Option, none, some, List, [], ◌∷◌, is_empty, any,
  nat_equality, list_equality, pair_equality,
}
use vocabulary_micro.Text.{Text}
use vocabulary_micro.TextProcessor.Admission.{allow_auto_add}
use vocabulary_micro.CandidateResolver.{LexiconIndex}
use vocabulary_micro.CandidateResolver.Sync.{
  RepositoryCall, add_entries, add_entry, add_plain_entry, save,
}
use vocabulary_micro.CandidateResolver.Rows.{resolve_row_sync_candidate, first_category_hint}
use vocabulary_micro.ParseAndSync.Summaries.{CallAnswer, answered, type_error, failure}
use vocabulary_micro.ParseAndSync.Rows.{
  RowRequest, RowRepository, RowStatus, row_rejected, row_already_exists, row_added,
  row_sync_exception, RowResult, exists_in_category,
}

abbrev is_save : RepositoryCall → Bool
is_save (add_entries entries) = false
is_save (add_entry category value) = false
is_save (add_plain_entry category value) = false
is_save save = true

-- The index that the repository gives has the value in the category.
abbrev found_in : CallAnswer LexiconIndex → Text → Text → Bool
found_in (answered index) value category = exists_in_category index value category
found_in (type_error e) value category = false
found_in (failure e) value category = false

-- An entry that was added and saved, or a save that did not happen.
abbrev IsSaved : Text → Text → List RepositoryCall → Type 0
IsSaved category value calls =
    (calls ≡ add_entry category value ∷ save ∷ [])
    ⊎ (calls ≡ add_plain_entry category value ∷ save ∷ [])

abbrev IsAddition : Text → Text → List RepositoryCall → Option Text → Type 0
IsAddition category value calls none = IsSaved category value calls
IsAddition category value calls (some e) = any is_save calls ≡ false

-- What each status of a row says of the lexicon and of the calls.
abbrev IsRowOutcome :
    CallAnswer LexiconIndex → Bool → RowStatus → RowResult → List RepositoryCall → Type 0
IsRowOutcome index allowed row_rejected r calls =
    (calls ≡ []) × (r.row_ok ≡ false) × (allowed ≡ false)
IsRowOutcome index allowed row_already_exists r calls =
    (calls ≡ [])
    × (r.row_ok ≡ true)
    × (allowed ≡ true)
    × (found_in index r.row_value r.row_category ≡ true)
IsRowOutcome index allowed row_added r calls =
    IsSaved r.row_category r.row_value calls
    × (r.row_ok ≡ true)
    × (allowed ≡ true)
    × (found_in index r.row_value r.row_category ≡ false)
IsRowOutcome index allowed row_sync_exception r calls =
    (any is_save calls ≡ false) × (r.row_ok ≡ false) × (allowed ≡ true)

abbrev pub IsRowSync : CallAnswer LexiconIndex → Bool → RowResult × List RepositoryCall → Type 0
IsRowSync index allowed r = IsRowOutcome index allowed r.0.row_status r.0 r.1

module _ (auto_add_category : Text) (repository : RowRepository) where
  -- The row has a candidate, and it may be added without review.
  abbrev pub may_sync : RowRequest → Bool
  may_sync r =
      not (is_empty (resolve_row_sync_candidate r.row_token r.row_normalized r.row_lemma))
      && allow_auto_add (resolve_row_sync_candidate r.row_token r.row_normalized r.row_lemma)
          (first_category_hint r.row_categories)
