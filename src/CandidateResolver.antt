-- ===== src/CandidateResolver.antt =====
-- core/use_cases/parse_sync_candidate_resolver.py: `SyncCandidateResolver`, first its categories. A
-- set is the list of its elements. The two repositories are arguments: `index` is what
-- `build_index` returns, `create` what `create_category` does, none where the call raises.
pub mod Sync
pub mod Stored
pub mod SyncLaws
pub mod Partition
pub mod PartitionLaws
pub mod Enqueue
pub mod Rows
use vocabulary_micro.Prelude.{
  Bool, true, false, Option, none, some, List, [], ◌∷◌, ◌++◌, map, if◌then◌else◌, is_empty, fold,
  nat_equality, list_equality, contains, set_default,
}
use vocabulary_micro.Text.{Text, codes, strip, join, or_else}
use vocabulary_micro.TextProcessor.Tables.{pos_category_hints}
use vocabulary_micro.TextProcessor.Forms.{normalize_lexeme, normalize_term, canonicalize_expression}

-- AUTO_CREATE_SYNC_CATEGORIES
abbrev auto_create_sync_categories : List Text
auto_create_sync_categories =
    codes "Idiom" ∷ codes "Phrasal Verb" ∷ map (λ h. h.1) pos_category_hints

-- `str(auto_add_category or "").strip() or "Auto Added"` of `__init__`
unfoldable init_category : Text → Text
init_category auto_add_category = or_else (strip auto_add_category) (codes "Auto Added")

-- The values of a list that are not blank, stripped.
unfoldable pub stripped_values : List Text → List Text
stripped_values [] = []
stripped_values (c ∷ cs) =
    let rest = stripped_values cs in if is_empty (strip c) then rest else strip c ∷ rest

-- The categories after the call: what it returns, always true for a category that is not blank,
-- is beside them.
unfoldable pub ensure_category_exists :
    (Text → Option (List Text)) → Text → List Text → Bool × List Text
ensure_category_exists create category existing_categories =
    let clean_category = strip category in
    let reported : List Text = elim (create clean_category) [
      | some cs ↦ stripped_values cs ++ existing_categories
      | none ↦ existing_categories
    ] in
    if is_empty clean_category
    then (false, existing_categories)
    else if contains existing_categories clean_category
    then (true, existing_categories)
    else if contains reported clean_category
    then (true, reported)
    else (true, clean_category ∷ reported)

-- The chosen category, whether it is the fallback, and the categories after the call.
unfoldable pub resolve_sync_category :
    (Text → Option (List Text)) → Text → Text → List Text → Text × Bool × List Text
resolve_sync_category create auto_add_category suggested_category existing_categories =
    let clean_suggested = strip suggested_category in
    let ensured = ensure_category_exists create clean_suggested existing_categories in
    if is_empty clean_suggested
    then (auto_add_category, true, existing_categories)
    else if contains existing_categories clean_suggested
    then (clean_suggested, false, existing_categories)
    else if contains auto_create_sync_categories clean_suggested
    then (if ensured.0
        then (clean_suggested, false, ensured.1)
        else (auto_add_category, true, ensured.1))
    else (auto_add_category, true, existing_categories)

-- `dict[str, list[str]]` and `dict[tuple[str, …], list[str]]` of `build_index`
abbrev pub LexiconIndex : Type 0
LexiconIndex = List (Text × List Text) × List (List Text × List Text)

unfoldable pub flat_categories : {K : Type 0} → List (K × List Text) → List Text
flat_categories [] = []
flat_categories ((k, cs) ∷ m) = stripped_values cs ++ flat_categories m

-- `listed` is what `list_categories` returns.
unfoldable pub collect_existing_categories : LexiconIndex → Option (List Text) → List Text
collect_existing_categories index listed =
    flat_categories index.0
    ++ flat_categories index.1
    ++ elim listed [ some cs ↦ stripped_values cs | none ↦ [] ]

-- `set(d.keys())`
abbrev key_set : {K : Type 0} → List (K × List Text) → List K
key_set m = map (λ x. x.0) m

pub record SyncIndex : Type 0 where
  pub known_lemmas : List Text
  pub existing_single : List Text
  pub existing_multi : List Text
  pub existing_categories : List Text

-- `normed for item in items if (normed := f(item))`
unfoldable pub normed : (Text → Text) → List Text → List Text
normed f [] = []
normed f (x ∷ xs) = let rest = normed f xs in if is_empty (f x) then rest else f x ∷ rest

abbrev pub index_of : LexiconIndex → Option (List Text) → SyncIndex
index_of index listed = record {
  known_lemmas = normed normalize_lexeme (key_set index.0);
  existing_single = key_set index.0;
  existing_multi = map join (key_set index.1);
  existing_categories = collect_existing_categories index listed;
}

unfoldable pub load_sync_index_state : Option LexiconIndex → Option (List Text) → SyncIndex
load_sync_index_state none listed = record {
  known_lemmas = [];
  existing_single = [];
  existing_multi = [];
  existing_categories = [];
}
load_sync_index_state (some index) listed = index_of index listed

unfoldable pub load_known_terms_from_repository :
    Option LexiconIndex → Option (List Text) → List Text × List Text
load_known_terms_from_repository index listed =
    let state = load_sync_index_state index listed in
    (
      state.known_lemmas,
      normed normalize_term state.existing_single ++ normed normalize_term state.existing_multi,
    )

-- The body of the loop of `canonicalize_candidate_categories`.
unfoldable pub canonical_entry : Text → List (Text × Text) → Text × Text → List (Text × Text)
canonical_entry auto_add_category normalized entry =
    let canonical = canonicalize_expression entry.0 [] in
    if is_empty canonical
    then normalized
    else set_default normalized canonical (or_else (strip entry.1) auto_add_category)

unfoldable pub canonicalize_candidate_categories :
    Text → Option (List (Text × Text)) → Option (List (Text × Text))
canonicalize_candidate_categories auto_add_category none = none
canonicalize_candidate_categories auto_add_category (some m) =
    some (fold (canonical_entry auto_add_category) [] m)
