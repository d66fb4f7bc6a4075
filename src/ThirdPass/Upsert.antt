-- ===== src/ThirdPass/Upsert.antt =====
-- `upsert_mwe_records_from_occurrences` of `ThirdPassOrchestrator`. What the repository does is an
-- argument: whether the two upserts of an expression succeed, and whether its `save` can be called and raises.
pub mod Laws
use vocabulary_micro.Prelude.{
  ℕ, ◌+◌, ◌*◌, Bool, false, ◌&&◌, ◌||◌, not, Option, none, some, List, [], ◌∷◌, ◌++◌, ltb,
  if◌then◌else◌, length, is_empty, fold, ◌==◌, nat_equality, list_equality, pair_equality, contains,
}
use vocabulary_micro.Text.{Text, codes, space, lower, strip, split_parts, or_else, replace_code}
use vocabulary_micro.TextProcessor.Forms.{canonicalize_expression}
use vocabulary_micro.TextProcessor.Tokens.{Occurrence}

-- `_guess_phrasal_parts`
abbrev last_part : Text → List Text → Text
last_part p [] = p
last_part p (q ∷ qs) = last_part q qs

abbrev nonempty_parts : List Text → List Text
nonempty_parts [] = []
nonempty_parts (p ∷ ps) = if is_empty p then nonempty_parts ps else p ∷ nonempty_parts ps

abbrev ends_of : List Text → Text × Text
ends_of [] = ([], [])
ends_of (p ∷ []) = ([], [])
ends_of (p ∷ q ∷ qs) = (p, last_part q qs)

unfoldable pub guess_phrasal_parts : Text → Text → Text × Text
guess_phrasal_parts candidate expression_type =
    if not (expression_type == codes "phrasal_verb")
    then ([], [])
    else ends_of (nonempty_parts (split_parts candidate))

-- The arguments of `upsert_mwe_expression` and `upsert_mwe_sense`.
pub record MweRecord : Type 0 where
  pub canonical_form : Text
  pub expression_type : Text
  pub is_separable : Bool
  pub max_gap_tokens : ℕ
  pub base_lemma : Text
  pub particle : Text
  pub sense_key : Text
  pub gloss : Text
  pub usage_label : Text
  pub example : Text

unfoldable pub upsert_type : Occurrence → Text
upsert_type o = lower (strip o.expression_type)

abbrev pub is_upsert_type : Text → Bool
is_upsert_type t = t == codes "phrasal_verb" || t == codes "idiom"

unfoldable pub upsert_form : Occurrence → Text
upsert_form o =
    canonicalize_expression (lower (strip (or_else o.canonical_form o.surface))) (upsert_type o)

abbrev label_of : Text → Text
label_of label =
    if label == codes "literal" || label == codes "idiomatic" then label else codes "idiomatic"

unfoldable pub record_of : ℕ → Occurrence → MweRecord
record_of max_gap_tokens o =
    let parts = guess_phrasal_parts (upsert_form o) (upsert_type o) in
    record {
      canonical_form = upsert_form o;
      expression_type = upsert_type o;
      is_separable = o.is_separable;
      max_gap_tokens = max_gap_tokens;
      base_lemma = parts.0;
      particle = parts.1;
      sense_key = codes "llm_" ++ replace_code space b'_' (upsert_form o) ++ codes "_1";
      gloss =
          or_else (strip o.gloss) (codes "Expression extracted by LLM from input text context.");
      usage_label = label_of (lower (strip o.usage_label));
      example = or_else (strip o.sentence_text) (strip o.surface);
    }

-- The counters of the loop, the markers it has seen, and the records the repository has taken.
pub record Upserts : Type 0 where
  pub upserted : ℕ
  pub failed : ℕ
  pub seen : List (Text × Text)
  pub taken : List MweRecord

module _ (succeeds : MweRecord → Bool) (max_gap_tokens : ℕ) where
  unfoldable pub try_upsert : Upserts → Occurrence → Upserts
  try_upsert s o =
      let seen = s.seen ++ (upsert_form o, upsert_type o) ∷ [] in
      if succeeds (record_of max_gap_tokens o)
      then record {
        upserted = s.upserted + 1;
        failed = s.failed;
        seen = seen;
        taken = s.taken ++ record_of max_gap_tokens o ∷ [];
      }
      else record { upserted = s.upserted; failed = s.failed + 1; seen = seen; taken = s.taken }

  -- The body of the loop; an item is none where it is no dictionary.
  unfoldable pub upsert_one : Upserts → Option Occurrence → Upserts
  upsert_one s none = s
  upsert_one s (some o) =
      if not (is_upsert_type (upsert_type o))
      then s
      else if is_empty (upsert_form o)
      then s
      else if contains s.seen (upsert_form o, upsert_type o)
      then s
      else try_upsert s o

abbrev pub no_upserts : Upserts
no_upserts = record { upserted = 0; failed = 0; seen = []; taken = [] }

pub record UpsertReport : Type 0 where
  pub status : Text
  pub reason : Text
  pub upserted_count : ℕ
  pub failed_count : ℕ
  pub candidate_count : ℕ

unfoldable pub report_of : Upserts → UpsertReport
report_of s = record {
  status =
      if s.failed == 0
      then codes "ok"
      else if ltb 0 s.upserted
      then codes "partial"
      else codes "failed";
  reason = if s.failed == 0 then [] else codes "mwe_upsert_errors";
  upserted_count = s.upserted;
  failed_count = s.failed;
  candidate_count = length s.seen;
}

abbrev pub skipped : Text → UpsertReport
skipped reason = record {
  status = codes "skipped";
  reason = reason;
  upserted_count = 0;
  failed_count = 0;
  candidate_count = 0;
}

-- `available` says whether the repository has both upserts; `occurrences` is none where it is no
-- list.
unfoldable pub upsert_mwe_records_from_occurrences :
    Bool
    → (MweRecord → Bool)
    → ℕ
    → Option (List (Option Occurrence))
    → UpsertReport × List MweRecord
upsert_mwe_records_from_occurrences available succeeds gap none =
    (skipped (codes "invalid_occurrences"), [])
upsert_mwe_records_from_occurrences available succeeds gap (some os) =
    let s = fold (upsert_one succeeds gap) no_upserts os in
    if not available
    then (skipped (codes "mwe_repository_unavailable"), [])
    else (report_of s, s.taken)

-- The `save` behind the loop: whether it is called, and whether an error of it is logged. It does not
-- change the report.
unfoldable save_upserts : Bool → Option (List (Option Occurrence)) → Bool → Bool → Bool × Bool
save_upserts available none can_save raises = (false, false)
save_upserts available (some os) can_save raises =
    (available && can_save, available && (can_save && raises))
