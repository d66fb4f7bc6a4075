-- ===== src/CandidateResolver/Rows.antt =====
-- `first_category_hint` and `resolve_row_sync_candidate` of `SyncCandidateResolver`.
use vocabulary_micro.Prelude.{
  ◌≡◌, refl, ◌∙◌, Bool, true, false, ◌&&◌, ◌||◌, not, List, [], ◌∷◌, arith, if◌then◌else◌, is_empty,
  any, ◌==◌, nat_equality, list_equality,
}
use vocabulary_micro.Text.{Text, codes, lower, strip, runs, or_else}
use vocabulary_micro.TextProcessor.Forms.{normalize_lexeme, canonicalize_expression}
use vocabulary_micro.TextProcessor.Admission.{allow_auto_add}

-- The loop of `first_category_hint` over the pieces.
unfoldable pub first_hint : List Text → Text
first_hint [] = []
first_hint (item ∷ items) =
    let rest = first_hint items in
    let category = strip item in
    if is_empty category || category == codes "-" then rest else category

unfoldable pub first_category_hint : Text → Text
first_category_hint categories = first_hint (runs (λ c. c == b',') categories)

abbrev is_blank_probe : Text → Bool
is_blank_probe candidate = is_empty candidate || candidate == codes "-"

-- The loop over the probes; `fallback` is the first that is not blank.
unfoldable pub resolve_probes : List Text → Text → Text
resolve_probes [] fallback = fallback
resolve_probes (probe ∷ probes) fallback =
    let candidate = lower (strip probe) in
    let skipped = resolve_probes probes fallback in
    let rest = resolve_probes probes (or_else fallback candidate) in
    if is_blank_probe candidate
    then skipped
    else if allow_auto_add candidate []
    then candidate
    else rest

abbrev probes_of : Text → Text → Text → List Text
probes_of token normalized lemma =
    canonicalize_expression normalized []
    ∷ canonicalize_expression token []
    ∷ normalize_lexeme lemma
    ∷ normalize_lexeme normalized
    ∷ normalize_lexeme token
    ∷ []

unfoldable pub resolve_row_sync_candidate : Text → Text → Text → Text
resolve_row_sync_candidate token normalized lemma =
    resolve_probes (probes_of token normalized lemma) []

-- The probe, cleaned, may be added without review.
abbrev is_allowed_probe : Text → Bool
is_allowed_probe probe =
    not (is_blank_probe (lower (strip probe))) && allow_auto_add (lower (strip probe)) []

abbrev is_filled_probe : Text → Bool
is_filled_probe probe = not (is_blank_probe (lower (strip probe)))

resolve_probes-filled :
    (ps : List Text) (f : Text)
    → is_empty (resolve_probes ps f) ≡ not (any is_filled_probe ps || not (is_empty f))
unfolding resolve_probes
resolve_probes-filled [] f = ground arith
resolve_probes-filled (p ∷ ps) f =
    let c = lower (strip p) in
    ground (arith, resolve_probes-filled ps f, resolve_probes-filled ps (or_else f c))

resolve_probes-allowed :
    (ps : List Text) (f : Text)
    → (not (any is_allowed_probe ps) || allow_auto_add (resolve_probes ps f) []) ≡ true
unfolding resolve_probes
resolve_probes-allowed [] f = refl
resolve_probes-allowed (p ∷ ps) f =
    ground
      (arith, resolve_probes-allowed ps f, resolve_probes-allowed ps (or_else f (lower (strip p))))

-- A row has a candidate exactly if a probe is not blank, and one that may be added without review
-- if there is such a probe.
resolve_row_sync_candidate_lem :
    (token normalized lemma : Text)
    → (is_empty (resolve_row_sync_candidate token normalized lemma)
        ≡ not (any is_filled_probe (probes_of token normalized lemma)))
      × ((not (any is_allowed_probe (probes_of token normalized lemma))
            || allow_auto_add (resolve_row_sync_candidate token normalized lemma) [])
          ≡ true)
unfolding resolve_row_sync_candidate
resolve_row_sync_candidate_lem token normalized lemma =
    let probes = probes_of token normalized lemma in
    (
      resolve_probes-filled probes [] ∙ not_or_false (any is_filled_probe probes),
      resolve_probes-allowed probes [],
    )
  where
    not_or_false : (b : Bool) → not (b || false) ≡ not b
    not_or_false b = ground arith
