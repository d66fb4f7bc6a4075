-- ===== src/TextProcessor/Tokens/Phrasal.antt =====
-- `extract_phrasal_verbs` and `_is_valid_phrasal_particle_token` of `TextProcessor`.
pub mod Second
use vocabulary_micro.Prelude.{
  ℕ, zero, suc, ◌+◌, Bool, true, false, ◌&&◌, ◌||◌, not, Option, none, some, List, [], ◌∷◌, ◌++◌,
  ltb, if◌then◌else◌, is_empty, ◌==◌, nat_equality, list_equality, contains,
}
use vocabulary_micro.Text.{Text, codes, space, lower, strip, or_else}
use vocabulary_micro.TextProcessor.Tables.{
  phrasal_particles, weak_phrasal_particles, phrasal_verb_pos, phrasal_particle_pos,
  phrasal_particle_dep,
}
use vocabulary_micro.TextProcessor.Patterns.{matches_word}
use vocabulary_micro.TextProcessor.Forms.{unique, normalize_lexeme, canonicalize_expression}
use vocabulary_micro.TextProcessor.Tokens.{ParsedToken, tag_of}

unfoldable pub is_valid_phrasal_particle_token : ParsedToken → Text → ℕ → Bool
is_valid_phrasal_particle_token t particle gap_tokens =
    let pos = tag_of t in
    let dep = lower (strip t.dep) in
    if not (is_empty pos) && not (contains phrasal_particle_pos pos)
    then false
    else if contains weak_phrasal_particles particle
        && (not (pos == codes "PART") && not (contains phrasal_particle_dep dep))
    then false
    else if particle == codes "on"
        && (ltb 0 gap_tokens && (dep == codes "prep" || (is_empty dep && pos == codes "ADP")))
    then false
    else true

unfoldable pub is_verb_tag : ParsedToken → Bool
is_verb_tag t = contains phrasal_verb_pos (tag_of t)

unfoldable pub particle_of : ParsedToken → Text
particle_of t = lower (strip t.normalized)

unfoldable pub verb_of : ParsedToken → Text
verb_of t = normalize_lexeme (or_else t.lemma t.normalized)

-- The guards of the outer loop.
unfoldable pub starts_phrase : ParsedToken → Bool
starts_phrase t = matches_word (verb_of t) && (is_empty (tag_of t) || is_verb_tag t)

-- The loop over `second_probe`, of which `n` rounds are left; `gap` tokens stand before the list.
unfoldable pub second_particle : Text → ℕ → ℕ → List ParsedToken → Option Text
second_particle particle zero gap ts = none
second_particle particle (suc n) gap [] = none
second_particle particle (suc n) gap (t ∷ ts) =
    let rest = second_particle particle n (gap + 1) ts in
    let second = particle_of t in
    if is_verb_tag t
    then none
    else if not (contains phrasal_particles second) || second == particle
    then rest
    else if is_valid_phrasal_particle_token t second gap
    then some second
    else rest

abbrev pub phrase : Text → Text → Option Text → Text
phrase verb particle none = verb ++ space ∷ particle
phrase verb particle (some second) = verb ++ space ∷ particle ++ space ∷ second

-- The loop over `probe`: the first particle in the window that goes with the verb.
unfoldable pub first_particle : Text → ℕ → ℕ → List ParsedToken → Option Text
first_particle verb zero gap ts = none
first_particle verb (suc n) gap [] = none
first_particle verb (suc n) gap (t ∷ ts) =
    let rest = first_particle verb n (gap + 1) ts in
    let particle = particle_of t in
    if is_verb_tag t
    then none
    else if not (contains phrasal_particles particle)
    then rest
    else if not (is_valid_phrasal_particle_token t particle gap)
    then rest
    else some (
        canonicalize_expression (phrase verb particle (second_particle particle 2 0 ts))
          (codes "phrasal_verb"))

-- PHRASAL_MAX_GAP_TOKENS
abbrev pub phrasal_max_gap_tokens : ℕ
phrasal_max_gap_tokens = 4

abbrev pub keep_phrase : Option Text → List Text → List Text
keep_phrase none rest = rest
keep_phrase (some candidate) rest = if is_empty candidate then rest else candidate ∷ rest

-- The outer loop: behind the token at `idx` the window has PHRASAL_MAX_GAP_TOKENS + 1 tokens. The
-- last token, where the loop does not go, has none.
unfoldable pub phrases_of : List ParsedToken → List Text
phrases_of [] = []
phrases_of (t ∷ ts) =
    let rest = phrases_of ts in
    if starts_phrase t
    then keep_phrase (first_particle (verb_of t) (phrasal_max_gap_tokens + 1) 0 ts) rest
    else rest

unfoldable pub extract_phrasal_verbs : List ParsedToken → List Text
extract_phrasal_verbs tokens = unique (phrases_of tokens)
