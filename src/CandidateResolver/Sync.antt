-- ===== src/CandidateResolver/Sync.antt =====
-- `sync_candidates` of `SyncCandidateResolver`. `late` says of the rounds of the loop whether the
-- clock is past `sync_timeout_ms` when they begin.
use vocabulary_micro.Prelude.{
  ℕ, ◌+◌, Bool, true, false, ◌&&◌, not, Option, none, some, List, [], ◌∷◌, ◌++◌, if◌then◌else◌,
  length, is_empty, fold, ◌==◌, nat_equality, list_equality, contains, lookup, upsert,
}
use vocabulary_micro.Text.{Text, codes, space}
use vocabulary_micro.CandidateResolver.{resolve_sync_category, SyncIndex, LexiconIndex, index_of}

pub record SyncState : Type 0 where
  pub added : List Text
  pub already_existed : List Text
  pub category_review_required : List (Text × Text)
  pub to_insert : List (Text × Text)
  pub timed_out : Bool
  pub existing_single : List Text
  pub existing_multi : List Text
  pub existing_categories : List Text

-- `" " in candidate`
abbrev pub has_space : Text → Bool
has_space candidate = contains candidate space

-- `exists`
unfoldable pub is_known : SyncState → Text → Bool
is_known s candidate =
    if has_space candidate
    then contains s.existing_multi candidate
    else contains s.existing_single candidate

-- `candidate_categories.get(candidate, auto)`, or `auto` where there are none.
unfoldable pub suggested_for : Text → Option (List (Text × Text)) → Text → Text
suggested_for auto none candidate = auto
suggested_for auto (some m) candidate = elim (lookup m candidate) [
  | some category ↦ category
  | none ↦ auto
]

unfoldable pub start_sync : List Text → List Text → List Text → SyncState
start_sync existing_single existing_multi existing_categories = record {
  added = [];
  already_existed = [];
  category_review_required = [];
  to_insert = [];
  timed_out = false;
  existing_single = existing_single;
  existing_multi = existing_multi;
  existing_categories = existing_categories;
}

module _ (create : Text → Option (List Text)) (auto_add_category : Text)
    (candidate_categories : Option (List (Text × Text))) where
  -- The rest of the loop's body, for a candidate that is not known.
  unfoldable pub add_candidate : SyncState → Text → SyncState
  add_candidate s candidate =
      let suggested = suggested_for auto_add_category candidate_categories candidate in
      let chosen = resolve_sync_category create auto_add_category suggested s.existing_categories in
      record {
        added = s.added ++ candidate ∷ [];
        already_existed = s.already_existed;
        category_review_required =
            if chosen.1 && not (suggested == auto_add_category)
            then s.category_review_required ++ (candidate, suggested) ∷ []
            else s.category_review_required;
        to_insert = s.to_insert ++ (chosen.0, candidate) ∷ [];
        timed_out = s.timed_out;
        existing_single =
            if has_space candidate then s.existing_single else candidate ∷ s.existing_single;
        existing_multi =
            if has_space candidate then candidate ∷ s.existing_multi else s.existing_multi;
        existing_categories = chosen.0 ∷ chosen.2;
      }

  unfoldable pub sync_one : SyncState → Text → SyncState
  sync_one s candidate =
      if is_known s candidate
      then record s { already_existed = s.already_existed ++ candidate ∷ [] }
      else add_candidate s candidate

  -- The loop from round `i` on.
  unfoldable pub sync_from : List Text → (ℕ → Bool) → ℕ → SyncState → SyncState
  sync_from [] late i s = s
  sync_from (c ∷ cs) late i s =
      let rest = sync_from cs late (i + 1) (sync_one s c) in
      if late i then record s { timed_out = true } else rest

-- What the repository is told to do.
pub data RepositoryCall : Type 0 where
  add_entries : List (Text × Text) → RepositoryCall
  add_entry : Text → Text → RepositoryCall
  add_plain_entry : Text → Text → RepositoryCall
  save : RepositoryCall

-- How a call of the repository ends: it returns, raises TypeError, or raises another error.
pub data RepositoryAnswer : Type 0 where
  stored : RepositoryAnswer
  rejects : Text → RepositoryAnswer
  raises : Text → RepositoryAnswer

-- The answers of the repository to `add_entries`, to `add_entry` with the long arguments and
-- without, and to `save` behind the given entries. A call that raises enters nothing.
pub record SyncRepository : Type 0 where
  pub answer_entries : List (Text × Text) → RepositoryAnswer
  pub answer_entry : Text → Text → RepositoryAnswer
  pub answer_plain_entry : Text → Text → RepositoryAnswer
  pub answer_save : List (Text × Text) → RepositoryAnswer

-- The calls that succeed, and the error that leaves them.
abbrev pub Calls : Type 0
Calls = List RepositoryCall × Option Text

abbrev pub call_once : RepositoryCall → RepositoryAnswer → Calls
call_once call stored = (call ∷ [], none)
call_once call (rejects e) = ([], some e)
call_once call (raises e) = ([], some e)

-- What follows is not reached behind an error.
abbrev pub then_calls : Calls → Calls → Calls
then_calls (calls, none) next = (calls ++ next.0, next.1)
then_calls (calls, some e) next = (calls, some e)

module _ (repository : SyncRepository) where
  -- The `try` around the `add_entry` of an entry.
  abbrev pub enter_one : Text × Text → RepositoryAnswer → Calls
  enter_one e stored = (add_entry e.0 e.1 ∷ [], none)
  enter_one e (rejects m) =
      call_once (add_plain_entry e.0 e.1) (repository.answer_plain_entry e.0 e.1)
  enter_one e (raises m) = ([], some m)

  unfoldable pub enter_each : List (Text × Text) → Calls
  enter_each [] = ([], none)
  enter_each (e ∷ es) = then_calls (enter_one e (repository.answer_entry e.0 e.1)) (enter_each es)

  -- The `try` around `add_entries`, and the loop where it raises TypeError.
  abbrev pub enter_all : List (Text × Text) → RepositoryAnswer → Calls
  enter_all es stored = (add_entries es ∷ [], none)
  enter_all es (rejects m) = enter_each es
  enter_all es (raises m) = ([], some m)

  unfoldable pub store : SyncState → Calls
  store s =
      if is_empty s.added
      then ([], none)
      else then_calls (enter_all s.to_insert (repository.answer_entries s.to_insert))
          (call_once save (repository.answer_save s.to_insert))

pub record SyncReport : Type 0 where
  pub status : Text
  pub reason : Text
  pub candidate_count : ℕ
  pub added_count : ℕ
  pub already_existed_count : ℕ
  pub rejected_count : ℕ
  pub category_review_required_count : ℕ

unfoldable pub report : List Text → SyncState → SyncReport
report candidates s = record {
  status = if s.timed_out then codes "timed_out" else codes "ok";
  reason = if s.timed_out then codes "sync_timeout_exceeded" else [];
  candidate_count = length candidates;
  added_count = length s.added;
  already_existed_count = length s.already_existed;
  rejected_count = 0;
  category_review_required_count = length s.category_review_required;
}

-- `sync_candidates`, given the sets: the final state, the calls, and the report if no error leaves
-- them.
unfoldable pub sync_candidates :
    (Text → Option (List Text))
    → Text
    → Option (List (Text × Text))
    → (ℕ → Bool)
    → SyncRepository
    → SyncIndex
    → List Text
    → SyncState × Calls × SyncReport
sync_candidates create auto categories late repository index candidates =
    let s =
      sync_from create auto categories candidates late 0
        (start_sync index.existing_single index.existing_multi index.existing_categories) in
    (s, store repository s, report candidates s)

-- `dict(items)`
unfoldable dict_of : List (Text × Text) → List (Text × Text)
dict_of items = fold (λ m item. upsert m item.0 (λ old. item.1)) [] items

-- `process_async_sync_job`: the sets come from a fresh index.
unfoldable process_async_sync_job :
    (Text → Option (List Text))
    → Text
    → (ℕ → Bool)
    → SyncRepository
    → LexiconIndex
    → Option (List Text)
    → List Text
    → List (Text × Text)
    → SyncState × Calls × SyncReport
process_async_sync_job create auto late repository index listed candidates categories =
    sync_candidates create auto (some (dict_of categories)) late repository (index_of index listed)
      candidates
