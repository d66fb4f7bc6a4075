-- ===== src/PhraseMatcher/Iteration/Prefixes.antt =====
-- When a list of tokens is the beginning of another.
use vocabulary_micro.Prelude.{
  ◌≡◌, refl, Bool, true, false, ◌&&◌, List, [], ◌∷◌, ◌++◌, arith, ◌==◌, nat_equality, list_equality,
  pair_equality, list_beq,
}
use vocabulary_micro.Text.{Text, same_text}

pub is_prefix : List Text → List Text → Bool
is_prefix [] w = true
is_prefix (x ∷ p) [] = false
is_prefix (x ∷ p) (y ∷ w) = x == y && is_prefix p w

pub is_prefix_longer :
    (p : List Text) (t : Text) (w : List Text)
    → is_prefix (p ++ t ∷ []) w ≡ true
    → is_prefix p w ≡ true
unfolding is_prefix
is_prefix_longer [] t w h = refl
is_prefix_longer (x ∷ p) t [] h = ground arith
is_prefix_longer (x ∷ p) t (y ∷ w) h = ground (arith, is_prefix_longer p t w)

pub is_prefix_fork :
    (p : List Text) (t u : Text) (us : List Text) → is_prefix (p ++ t ∷ []) (p ++ u ∷ us) ≡ t == u
unfolding is_prefix
is_prefix_fork [] t u us = ground arith
is_prefix_fork (x ∷ p) t u us = ground (arith, same_text x x, is_prefix_fork p t u us)

pub is_prefix_own : (p : List Text) (t : Text) → is_prefix (p ++ t ∷ []) p ≡ false
unfolding is_prefix
is_prefix_own [] t = refl
is_prefix_own (x ∷ p) t = ground (arith, is_prefix_own p t)

pub is_prefix_other : (p w : List Text) → is_prefix p w ≡ false → (p == w) ≡ false
unfolding is_prefix list_beq
is_prefix_other [] w h = absurd (ground arith)
is_prefix_other (x ∷ p) [] h = refl
is_prefix_other (x ∷ p) (y ∷ w) h = ground (arith, is_prefix_other p w)

pub prefix_rest : (p w : List Text) → is_prefix p w ≡ true → (us : List Text) × (w ≡ p ++ us)
unfolding is_prefix
prefix_rest [] w h = (w, refl)
prefix_rest (x ∷ p) [] h = absurd (ground arith)
prefix_rest (x ∷ p) (y ∷ w) h =
    let (us, e) = prefix_rest p w (ground arith) in (us, ground (arith, e, same_text x y))

pub same_longer : (p : List Text) (u : Text) (us : List Text) → (p == p ++ u ∷ us) ≡ false
unfolding list_beq
same_longer [] u us = refl
same_longer (x ∷ p) u us = ground (arith, same_longer p u us)
