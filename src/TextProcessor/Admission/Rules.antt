-- ===== src/TextProcessor/Admission/Rules.antt =====
-- The terms that `allow_auto_add` lets through.
use vocabulary_micro.Prelude.{
  ℕ, ◌≤◌, ◌≡◌, refl, ◌↔◌, ◌⊎◌, true, false, ◌||◌, [], ◌∷◌, ◌++◌, arith, All, All-append, All-map,
  ◌==◌, nat_equality, list_equality, length, any, contains,
}
use vocabulary_micro.Text.{Text, space, lower, strip}
use vocabulary_micro.Text.Affix.{is_empty_of_pos}
use vocabulary_micro.TextProcessor.Tables.{auto_add_blocklist}
use vocabulary_micro.TextProcessor.Patterns.{is_letter, is_joint}
use vocabulary_micro.TextProcessor.Patterns.Grammar.{
  SafeTerm, one, more, single, joined, Word, Letters, matches_safe_term_iff,
}
use vocabulary_micro.TextProcessor.Admission.{
  is_weird, is_digit_text, is_syncable_stopword, allow_auto_add,
}

-- The characters of a term.
abbrev IsTermCode : ℕ → Type 0
IsTermCode c = (is_letter c || (is_joint c || c == space)) ≡ true

Word-codes : {s : Text} → Word s → All IsTermCode s
Word-codes (single s l) = All-map (λ c h. rw h) s l.each
Word-codes (joined s j t r l h w e) =
    rw e (
      All-append IsTermCode s (j ∷ t) (All-map (λ c k. rw k) s l.each) (ground arith, Word-codes w))

SafeTerm-codes : {s : Text} → SafeTerm s → All IsTermCode s
SafeTerm-codes (one s w) = Word-codes w
SafeTerm-codes (more s t r w k e) = rw e (
    All-append IsTermCode s (space ∷ t) (Word-codes w)
      (unfold is_letter is_joint in refl, SafeTerm-codes k))

not_weird : (c : ℕ) → IsTermCode c → is_weird c ≡ false
unfolding is_letter is_joint is_weird
not_weird c h = ground arith

none_weird : (s : Text) → All IsTermCode s → any is_weird s ≡ false
none_weird [] h = refl
none_weird (c ∷ s) h = rw (not_weird c h.0) (none_weird s h.1)

-- A term begins with a letter.
abbrev LeadsWithLetter : Text → Type 0
LeadsWithLetter [] = ⊥
LeadsWithLetter (c ∷ s) = is_letter c ≡ true

Letters-lead : (s t : Text) → Letters s → LeadsWithLetter (s ++ t)
Letters-lead [] t l = cc l.filled
Letters-lead (c ∷ s) t l = l.each.0

Letters-lead_alone : (s : Text) → Letters s → LeadsWithLetter s
Letters-lead_alone [] l = cc l.filled
Letters-lead_alone (c ∷ s) l = l.each.0

lead-append : (s t : Text) → LeadsWithLetter s → LeadsWithLetter (s ++ t)
lead-append [] t h = absurd h
lead-append (c ∷ s) t h = h

Word-lead : {s : Text} → Word s → LeadsWithLetter s
Word-lead (single s l) = Letters-lead_alone s l
Word-lead (joined s j t r l h w e) = rw e (Letters-lead s (j ∷ t) l)

SafeTerm-lead : {s : Text} → SafeTerm s → LeadsWithLetter s
SafeTerm-lead (one s w) = Word-lead w
SafeTerm-lead (more s t r w k e) = rw e (lead-append s (space ∷ t) (Word-lead w))

not_digits : (s : Text) → LeadsWithLetter s → is_digit_text s ≡ false
unfolding is_digit_text is_letter
not_digits [] h = absurd h
not_digits (c ∷ s) h = ground arith

-- A term may be added without review exactly when its cleaned form matches SAFE_TERM_RE, has two
-- characters or more, and is no listed function word, or is a particle that a category vouches for.
pub allow_auto_add_iff :
    (candidate category : Text)
    → let t = lower (strip candidate) in
      (allow_auto_add candidate category ≡ true) ↔ (
        SafeTerm t
        × (2 ≤ length t)
        × ((contains auto_add_blocklist t ≡ false) ⊎ (is_syncable_stopword t category ≡ true)))
unfolding allow_auto_add
allow_auto_add_iff candidate category =
    let t = lower (strip candidate) in
    (
      λ h. ((matches_safe_term_iff t).0 (ground arith), ground arith, ground arith),
      λ (st, two, free). ground (
        arith,
        none_weird t (SafeTerm-codes st),
        not_digits t (SafeTerm-lead st),
        (matches_safe_term_iff t).1 st,
        is_empty_of_pos t,
      ),
    )
