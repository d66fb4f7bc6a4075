-- ===== src/Text/Affix.antt =====
-- Words under `strip`, and texts under `endswith` and `[:-n]`.
use vocabulary_micro.Prelude.{
  ℕ, zero, suc, ◌-◌, ◌≤◌, ◌<◌, ◌≡◌, refl, sym, ap, ◌∙◌, true, false, [], ◌∷◌, ◌++◌, arith, All,
  is_empty, length, take, drop, list_equality, nat_equality, take-append-drop, length-append,
  length-take, list_beq_iff,
}
use vocabulary_micro.Text.{Text, is_space, lower_code, lower, rstrip, strip, ends_with, drop_last}
use vocabulary_micro.Text.Normal.{cons_unless_blank-solid}

rstrip-solid : (w : Text) → All (λ c. is_space c ≡ false) w → rstrip w ≡ w
unfolding rstrip
rstrip-solid [] h = refl
rstrip-solid (c ∷ w) h = cons_unless_blank-solid c (rstrip w) h.0 ∙ ap (◌∷◌ c) (rstrip-solid w h.1)

-- There is nothing to strip where no character is a space.
pub strip-solid : (w : Text) → All (λ c. is_space c ≡ false) w → strip w ≡ w
unfolding strip
strip-solid [] h = refl
strip-solid (c ∷ w) h = rw h.0 (rstrip-solid (c ∷ w) h)

pub All-take {κ} : (P : ℕ → Type κ) (n : ℕ) (s : Text) → All P s → All P (take n s)
All-take P zero s h = tt
All-take P (suc n) [] h = tt
All-take P (suc n) (c ∷ s) h = (h.0, All-take P n s h.1)

pub lower-take : (n : ℕ) (s : Text) → lower (take n s) ≡ take n (lower s)
unfolding lower
lower-take zero s = refl
lower-take (suc n) [] = refl
lower-take (suc n) (c ∷ s) = ap (◌∷◌ (lower_code c)) (lower-take n s)

drop-append : (n : ℕ) (s t : Text) → n ≤ length s → drop n (s ++ t) ≡ drop n s ++ t
drop-append zero s t h = refl
drop-append (suc n) [] t h = absurd (omega arith)
drop-append (suc n) (c ∷ s) t h = drop-append n s t (omega arith)

length-drop : (n : ℕ) (s : Text) → length (drop n s) ≡ length s - n
length-drop zero s = omega arith
length-drop (suc n) [] = omega arith
length-drop (suc n) (c ∷ s) = omega (arith, length-drop n s)

-- A text that ends with a suffix is the rest of it, followed by the suffix.
pub ends_with-append :
    (suffix s : Text) → ends_with suffix s ≡ true → drop_last (length suffix) s ++ suffix ≡ s
unfolding ends_with drop_last
ends_with-append suffix s h =
    ap (λ t. take (length s - length suffix) s ++ t)
      (sym ((list_beq_iff nat_equality _ suffix).0 h))
    ∙ take-append-drop (length s - length suffix) s

pub append-ends_with : (suffix s : Text) → ends_with suffix (s ++ suffix) ≡ true
unfolding ends_with
append-ends_with suffix s =
    (list_beq_iff nat_equality _ suffix).1
      (rw (cut) (drop-append (length s) s suffix (omega arith) ∙ rw (drop-length s)))
  where
    cut : length (s ++ suffix) - length suffix ≡ length s
    cut = omega (arith, length-append s suffix)

    drop-length : (t : Text) → drop (length t) t ≡ []
    drop-length [] = refl
    drop-length (c ∷ t) = drop-length t

pub length-drop_last : (n : ℕ) (s : Text) → length (drop_last n s) ≡ length s - n
unfolding drop_last
length-drop_last n s = length-take (length s - n) s (omega arith)

pub is_empty_of_pos : (s : Text) → 0 < length s → is_empty s ≡ false
is_empty_of_pos [] h = absurd (omega arith)
is_empty_of_pos (c ∷ s) h = refl
