-- ===== src/CandidateResolver/Partition.antt =====
-- `partition_sync_candidates` of `SyncCandidateResolver`. The sets of what was seen hold the same
-- items as the lists.
use vocabulary_micro.Prelude.{
  Bool, Option, none, some, List, [], ◌∷◌, ◌++◌, if◌then◌else◌, is_empty, fold, nat_equality,
  list_equality, contains, lookup,
}
use vocabulary_micro.Text.{Text, strip, or_else}
use vocabulary_micro.TextProcessor.Forms.{canonicalize_expression}
use vocabulary_micro.TextProcessor.Admission.{allow_auto_add}

-- The category that is suggested for a candidate, "" for none.
unfoldable pub suggested_category : Option (List (Text × Text)) → Text → Text
suggested_category none candidate = []
suggested_category (some m) candidate =
    let own : Text = elim (lookup m candidate) [ some category ↦ category | none ↦ [] ] in
    let canonical : Text = elim (lookup m (canonicalize_expression candidate [])) [
      | some category ↦ category
      | none ↦ []
    ] in
    strip (or_else own canonical)

-- `append`, unless the item was seen.
unfoldable pub add_once : List Text → Text → List Text
add_once xs x = if contains xs x then xs else xs ++ x ∷ []

-- The canonical candidate may be added without review.
unfoldable pub is_accepted : Option (List (Text × Text)) → Text → Bool
is_accepted categories candidate =
    allow_auto_add (canonicalize_expression candidate []) (suggested_category categories candidate)

unfoldable pub partition_one :
    Option (List (Text × Text)) → List Text × List Text → Text → List Text × List Text
partition_one categories p candidate =
    let canonical_candidate = canonicalize_expression candidate [] in
    if is_empty canonical_candidate
    then p
    else if is_accepted categories candidate
    then (add_once p.0 canonical_candidate, p.1)
    else (p.0, add_once p.1 canonical_candidate)

unfoldable pub partition_sync_candidates :
    List Text → Option (List (Text × Text)) → List Text × List Text
partition_sync_candidates candidates categories =
    fold (partition_one categories) ([], []) candidates
