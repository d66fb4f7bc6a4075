-- ===== src/WordNetMatcher/Availability.antt =====
-- Whether wordnet_matcher.py can use WordNet, which it checks once.
use vocabulary_micro.Prelude.{
  Bool, true, false, not, Option, none, some, [], if◌then◌else◌, nat_equality, list_equality,
  pair_equality,
}
use vocabulary_micro.Text.{Text, codes}

-- How a call that loads or looks for data ends.
pub data Loaded : Type 0 where
  loaded : Loaded
  lookup_error : Loaded
  other_error : Loaded

-- The library: whether its import succeeded, how `ensure_loaded` and the searches for the two
-- corpora end, whether there are synsets of a text, and the base form of a text, none or empty
-- where there is none. A call of the last two may raise.
pub record Nltk : Type 0 where
  pub imported : Bool
  pub ensure_loaded : Loaded
  pub find_omw_14 : Loaded
  pub find_omw : Loaded
  pub synsets : Text → Option Bool
  pub morphy : Text → Option Text

pub record WordNetState : Type 0 where
  pub available_checked : Bool
  pub available : Bool
  pub unavailable_reason : Option Text
  pub omw_checked : Bool
  pub omw_available : Bool
  pub omw_unavailable_reason : Option Text

abbrev pub new_state : WordNetState
new_state = record {
  available_checked = false;
  available = false;
  unavailable_reason = none;
  omw_checked = false;
  omw_available = false;
  omw_unavailable_reason = none;
}

-- `_set_omw_state`
unfoldable pub set_omw_state : Bool → Text → WordNetState → WordNetState
set_omw_state available reason s = record {
  available_checked = s.available_checked;
  available = s.available;
  unavailable_reason = s.unavailable_reason;
  omw_checked = true;
  omw_available = available;
  omw_unavailable_reason = some (if available then [] else reason);
}

abbrev second_corpus : Loaded → WordNetState → WordNetState
second_corpus loaded s = set_omw_state true [] s
second_corpus lookup_error s = set_omw_state false (codes "omw_corpus_missing") s
second_corpus other_error s = set_omw_state false (codes "omw_check_failed") s

abbrev first_corpus : Loaded → Loaded → WordNetState → WordNetState
first_corpus loaded second s = set_omw_state true [] s
first_corpus lookup_error second s = second_corpus second s
first_corpus other_error second s = set_omw_state false (codes "omw_check_failed") s

-- `_ensure_omw_available`
unfoldable pub ensure_omw_available : Nltk → WordNetState → WordNetState
ensure_omw_available nltk s =
    if s.omw_checked
    then s
    else if not nltk.imported
    then set_omw_state false (codes "nltk_unavailable") s
    else first_corpus nltk.find_omw_14 nltk.find_omw s

-- The checked state, with WordNet there or not.
unfoldable pub settle : Bool → Text → WordNetState → WordNetState
settle available reason s = record {
  available_checked = true;
  available = available;
  unavailable_reason = some reason;
  omw_checked = s.omw_checked;
  omw_available = s.omw_available;
  omw_unavailable_reason = s.omw_unavailable_reason;
}

-- A reason that holds of both.
abbrev neither : Text → WordNetState → WordNetState
neither reason s = set_omw_state false reason (settle false reason s)

abbrev load_wordnet : Loaded → Nltk → WordNetState → WordNetState
load_wordnet loaded nltk s = ensure_omw_available nltk (settle true [] s)
load_wordnet lookup_error nltk s = neither (codes "wordnet_corpus_missing") s
load_wordnet other_error nltk s = neither (codes "wordnet_load_failed") s

-- `_ensure_available`
unfoldable pub ensure_available : Nltk → Bool → WordNetState → WordNetState
ensure_available nltk enabled s =
    if s.available_checked
    then s
    else if not enabled
    then neither (codes "wordnet_disabled") s
    else if not nltk.imported
    then neither (codes "nltk_unavailable") s
    else load_wordnet nltk.ensure_loaded nltk s
