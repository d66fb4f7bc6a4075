-- ===== src/TextProcessor/Admission.antt =====
-- Which terms may be added without review: `allow_auto_add` and `_is_syncable_stopword`.
pub mod Rules
use vocabulary_micro.Prelude.{
  ℕ, Bool, true, false, ◌&&◌, ◌||◌, not, List, [], ◌∷◌, leb, ltb, ◌==◌, nat_equality, list_equality,
  if◌then◌else◌, length, is_empty, all, any, contains,
}
use vocabulary_micro.Text.{Text, lower, strip, runs}
use vocabulary_micro.TextProcessor.Tables.{
  auto_add_blocklist, phrasal_particles, stopword_particle_categories,
}
use vocabulary_micro.TextProcessor.Patterns.{matches_safe_term}

-- The characters of WEIRD_UNICODE_RE.
unfoldable pub is_weird : ℕ → Bool
is_weird c = leb 0x200b c && leb c 0x200f || (leb 0x202a c && leb c 0x202e || c == 0xfeff)

-- `str.isdigit`, for the decimal digits; a text with any other digit fails SAFE_TERM_RE too.
unfoldable pub is_digit_text : Text → Bool
is_digit_text s = not (is_empty s) && all (λ c. leb b'0' c && leb c b'9') s

-- A piece of the categories names a particle-like category; blank pieces do not count.
abbrev names_particle : Text → Bool
names_particle piece =
    let item = lower (strip piece) in
    not (is_empty item) && contains stopword_particle_categories item

unfoldable pub is_syncable_stopword : Text → Text → Bool
is_syncable_stopword candidate suggested_category =
    if contains phrasal_particles (lower (strip candidate))
    then any names_particle (runs (λ c. c == b',') suggested_category)
    else false

unfoldable pub allow_auto_add : Text → Text → Bool
allow_auto_add candidate suggested_category =
    let cleaned = lower (strip candidate) in
    if is_empty cleaned
    then false
    else if contains auto_add_blocklist cleaned
        && not (is_syncable_stopword cleaned suggested_category)
    then false
    else if ltb (length cleaned) 2
    then false
    else if is_digit_text cleaned
    then false
    else if any is_weird cleaned
    then false
    else matches_safe_term cleaned
