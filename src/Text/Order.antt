-- ===== src/Text/Order.antt =====
-- Python's `<` on `str`: lexicographic, by code points.
use vocabulary_micro.Prelude.{
  ◌≡◌, refl, Bool, true, false, ◌&&◌, ◌||◌, [], ◌∷◌, arith, ltb, nat_beq, IsWeakOrder, nat_equality,
  list_equality, pair_equality,
}
use vocabulary_micro.Text.{Text}

unfoldable pub text_before : Text → Text → Bool
text_before [] [] = false
text_before [] (d ∷ t) = true
text_before (c ∷ s) [] = false
text_before (c ∷ s) (d ∷ t) = ltb c d || (nat_beq c d && text_before s t)

asymmetric : (s t : Text) → text_before s t ≡ true → text_before t s ≡ false
unfolding text_before
asymmetric [] [] h = refl
asymmetric [] (d ∷ t) h = refl
asymmetric (c ∷ s) [] h = ground arith
asymmetric (c ∷ s) (d ∷ t) h = ground (arith, asymmetric s t)

negative :
    (s t u : Text) → text_before s t ≡ false → text_before t u ≡ false → text_before s u ≡ false
unfolding text_before
negative [] [] u h k = k
negative [] (d ∷ t) u h k = ground arith
negative (c ∷ s) t [] h k = refl
negative (c ∷ s) [] (e ∷ u) h k = ground arith
negative (c ∷ s) (d ∷ t) (e ∷ u) h k = ground (arith, negative s t u)

pub text_before-IsWeakOrder : IsWeakOrder text_before
text_before-IsWeakOrder = record { asymmetric = asymmetric; negative = negative }

-- Of two strings neither of which is before the other, both are the same.
pub text_before_total : (s t : Text) → text_before s t ≡ false → text_before t s ≡ false → s ≡ t
unfolding text_before
text_before_total [] [] h k = refl
text_before_total [] (d ∷ t) h k = absurd (ground arith)
text_before_total (c ∷ s) [] h k = absurd (ground arith)
text_before_total (c ∷ s) (d ∷ t) h k = ground (arith, text_before_total s t)
