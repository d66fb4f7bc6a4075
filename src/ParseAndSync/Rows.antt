-- ===== src/ParseAndSync/Rows.antt =====
-- `sync_single_row` of parse_and_sync.py: one row of the table is added to the lexicon. The order of
-- the set of existing categories is that of its list.
pub mod Laws
use vocabulary_micro.Prelude.{
  ◌*◌, Bool, true, false, ◌&&◌, not, Option, none, some, List, [], ◌∷◌, ◌++◌, if◌then◌else◌,
  is_empty, any, ◌==◌, nat_equality, list_equality, pair_equality, lookup,
}
use vocabulary_micro.Text.{Text, codes, lower, split_words, or_else}
use vocabulary_micro.TextProcessor.Admission.{allow_auto_add}
use vocabulary_micro.CandidateResolver.{
  LexiconIndex, stripped_values, collect_existing_categories, resolve_sync_category,
}
use vocabulary_micro.CandidateResolver.Sync.{
  RepositoryCall, add_entry, add_plain_entry, save, has_space,
}
use vocabulary_micro.CandidateResolver.Rows.{resolve_row_sync_candidate, first_category_hint}
use vocabulary_micro.ParseAndSync.Summaries.{CallAnswer, answered, type_error, failure}
use vocabulary_micro.ParseAndSync.Progress.{Syncing}

pub record RowRequest : Type 0 where
  pub row_token : Text
  pub row_normalized : Text
  pub row_lemma : Text
  pub row_categories : Text

-- The calls of the repository: `build_index`, `list_categories`, `add_entry` with the long arguments
-- or without, and `save`.
pub record RowRepository : Type 0 where
  pub build_index : CallAnswer LexiconIndex
  pub list_categories : Option (List Text)
  pub create_row_category : Text → Option (List Text)
  pub add_row_entry : Bool → Text → Text → CallAnswer Unit
  pub save_rows : CallAnswer Unit

pub data RowStatus : Type 0 where
  row_rejected : RowStatus
  row_already_exists : RowStatus
  row_added : RowStatus
  row_sync_exception : RowStatus

-- `ParseRowSyncResultDTO`, and whether it is given as a success.
pub record RowResult : Type 0 where
  pub row_status : RowStatus
  pub row_value : Text
  pub row_category : Text
  pub row_message : Text
  pub category_fallback_used : Bool
  pub row_ok : Bool

-- `{item.casefold(): item for item in existing_categories if item}.get(hinted.casefold(), "")`
unfoldable pub canonical_hint : List Text → Text → Text
canonical_hint [] hinted = []
canonical_hint (c ∷ cs) hinted =
    let later = canonical_hint cs hinted in
    if is_empty later && not (is_empty c) && lower c == lower hinted then c else later

-- The categories under which the lexicon has a value.
unfoldable pub existing_for_value : LexiconIndex → Text → List Text
existing_for_value index candidate =
    let found : Option (List Text) =
      if has_space candidate
      then lookup index.1 (split_words candidate)
      else lookup index.0 candidate in
    elim found [ none ↦ [] | some cs ↦ stripped_values cs ]

unfoldable pub exists_in_category : LexiconIndex → Text → Text → Bool
exists_in_category index candidate category =
    any (λ c. lower c == lower category) (existing_for_value index candidate)

-- `add_entry` and `save`: the calls that succeed, and the text of an exception.
unfoldable pub save_after : RepositoryCall → CallAnswer Unit → List RepositoryCall × Option Text
save_after call (answered u) = (call ∷ save ∷ [], none)
save_after call (type_error e) = (call ∷ [], some e)
save_after call (failure e) = (call ∷ [], some e)

unfoldable pub add_plainly :
    RowRepository → Text → Text → CallAnswer Unit → List RepositoryCall × Option Text
add_plainly repository category value (answered u) =
    save_after (add_plain_entry category value) repository.save_rows
add_plainly repository category value (type_error e) = ([], some e)
add_plainly repository category value (failure e) = ([], some e)

unfoldable pub add_row :
    RowRepository → Text → Text → CallAnswer Unit → List RepositoryCall × Option Text
add_row repository category value (answered u) =
    save_after (add_entry category value) repository.save_rows
add_row repository category value (type_error e) =
    add_plainly repository category value (repository.add_row_entry false category value)
add_row repository category value (failure e) = ([], some e)

unfoldable pub row_error : Text → Text → Text → RowResult
row_error auto value error = record {
  row_status = row_sync_exception;
  row_value = value;
  row_category = auto;
  row_message = codes "Row sync failed: " ++ error;
  category_fallback_used = true;
  row_ok = false;
}

unfoldable pub row_refused : Text → Text → Text → RowResult
row_refused auto value message = record {
  row_status = row_rejected;
  row_value = value;
  row_category = auto;
  row_message = message;
  category_fallback_used = true;
  row_ok = false;
}

module _ (auto_add_category : Text) (repository : RowRepository) where
  -- The last part: the entry is added unless the lexicon has the value in the chosen category.
  unfoldable pub sync_row_value : LexiconIndex → Text → Text → RowResult × List RepositoryCall
  sync_row_value index hinted candidate =
      let existing = collect_existing_categories index repository.list_categories in
      let canonical = if is_empty hinted then [] else canonical_hint existing hinted in
      let chosen =
        resolve_sync_category repository.create_row_category auto_add_category
          (or_else canonical hinted) existing in
      let added =
        add_row repository chosen.0 candidate (repository.add_row_entry true chosen.0 candidate) in
      if exists_in_category index candidate chosen.0
      then (
        record {
          row_status = row_already_exists;
          row_value = candidate;
          row_category = chosen.0;
          row_message =
              codes "Row sync skipped: '"
              ++ candidate
              ++ codes "' already exists in category '"
              ++ chosen.0
              ++ codes "'.";
          category_fallback_used = chosen.1;
          row_ok = true;
        },
        [],
      )
      else elim added.1 [
        | some e ↦ (row_error auto_add_category candidate e, added.0)
        | none ↦ (
          record {
            row_status = row_added;
            row_value = candidate;
            row_category = chosen.0;
            row_message =
                codes "Row sync added '"
                ++ candidate
                ++ codes "' to category '"
                ++ chosen.0
                ++ codes "' (source=auto, status=pending_review).";
            category_fallback_used = chosen.1;
            row_ok = true;
          },
          added.0,
        )
      ]

  unfoldable pub sync_row_indexed :
      CallAnswer LexiconIndex → Text → Text → RowResult × List RepositoryCall
  sync_row_indexed (answered index) hinted candidate = sync_row_value index hinted candidate
  sync_row_indexed (type_error e) hinted candidate = (row_error auto_add_category candidate e, [])
  sync_row_indexed (failure e) hinted candidate = (row_error auto_add_category candidate e, [])

  -- The result, and the calls of the repository that succeeded.
  unfoldable pub sync_single_row : RowRequest → RowResult × List RepositoryCall
  sync_single_row r =
      let candidate = resolve_row_sync_candidate r.row_token r.row_normalized r.row_lemma in
      let hinted = first_category_hint r.row_categories in
      if is_empty candidate
      then (row_refused auto_add_category [] (codes "Row sync rejected: empty token value."), [])
      else if not (allow_auto_add candidate hinted)
      then (
        row_refused auto_add_category candidate (
            codes "Row sync rejected for '"
            ++ candidate
            ++ codes "' by auto-add validation rules."),
        [],
      )
      else sync_row_indexed repository.build_index hinted candidate
