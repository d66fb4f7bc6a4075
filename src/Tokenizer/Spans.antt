-- ===== src/Tokenizer/Spans.antt =====
-- Where the tokens of the pattern stand in the text.
use vocabulary_micro.Prelude.{
  ℕ, ◌+◌, ◌-◌, ◌≡◌, refl, sym, ap, ◌∙◌, inl, inr, Bool, List, [], ◌∷◌, ◌++◌, map, append_assoc,
  arith, Bool-cases, length, take, drop, length-append, All, All-append, nat_equality,
  list_equality, pair_equality,
}
use vocabulary_micro.Text.{Text, lower}
use mathlib.Core.Path.{subst}
use vocabulary_micro.IndexProvider.Pieces.{
  Search, outside, in_run, at_joint, joins_words, finish, take_letter, take_other, find_pieces,
}
use vocabulary_micro.ExactMatcher.{TokenRecord, slice}
use vocabulary_micro.Tokenizer.{
  start_of, with_start, find_matches, regex_tokens, tokenize_with_regex,
}

-- A match is what the text has from its start on.
abbrev IsSlice : Text → ℕ × Text → Type 0
IsSlice text m = slice text m.0 (m.0 + length m.1) ≡ m.1

drop-prefix : (q s : Text) → drop (length q) (q ++ s) ≡ s
drop-prefix [] s = refl
drop-prefix (c ∷ q) s = drop-prefix q s

take-prefix : (w r : Text) → take (length w) (w ++ r) ≡ w
take-prefix [] r = refl
take-prefix (c ∷ w) r = ap (◌∷◌ c) (take-prefix w r)

slice-middle : (q w r : Text) → slice (q ++ (w ++ r)) (length q) (length q + length w) ≡ w
unfolding slice
slice-middle q w r =
    let size : (length q + length w) - length q ≡ length w = omega arith in
    ap (λ n. take n (drop (length q) (q ++ (w ++ r)))) size
    ∙ ap (take (length w)) (drop-prefix q (w ++ r))
    ∙ take-prefix w r

append-IsSlice :
    (text q w r : Text) (start : ℕ)
    → text ≡ q ++ (w ++ r)
    → length q ≡ start
    → IsSlice text (start, w)
append-IsSlice text q w r start e l =
    subst (λ t. IsSlice t (start, w)) (sym e)
      (subst (λ n. IsSlice (q ++ (w ++ r)) (n, w)) l (slice-middle q w r))

-- The search is in a match that starts at `start`, behind the text `p`.
abbrev IsAt : Search → ℕ → Text → Type 0
IsAt outside start p = Unit
IsAt (in_run w) start p = (q : Text) × (p ≡ q ++ w) × (length q ≡ start)
IsAt (at_joint w j) start p = (q : Text) × (p ≡ q ++ (w ++ j ∷ [])) × (length q ≡ start)

-- The match that is in the making stands in the text, whatever follows.
finish-IsSlice :
    (search : Search) (start : ℕ) (p s : Text)
    → IsAt search start p
    → All (IsSlice (p ++ s)) (with_start start (finish search))
unfolding finish
finish-IsSlice outside start p s h = tt
finish-IsSlice (in_run w) start p s h =
    (append-IsSlice (p ++ s) h.0 w s start (ap (λ x. x ++ s) h.1 ∙ append_assoc h.0 w s) h.2, tt)
finish-IsSlice (at_joint w j) start p s h = (
  append-IsSlice (p ++ s) h.0 w (j ∷ s) start
      (ap (λ x. x ++ s) h.1
        ∙ append_assoc h.0 (w ++ j ∷ []) s
        ∙ ap (λ x. h.0 ++ x) (append_assoc w (j ∷ []) s))
      h.2,
  tt,
)

take_letter-IsAt :
    (search : Search) (start : ℕ) (p : Text) (c : ℕ)
    → IsAt search start p
    → IsAt (take_letter search c) (start_of search start (length p)) (p ++ c ∷ [])
unfolding take_letter
take_letter-IsAt outside start p c h = (p, refl, refl)
take_letter-IsAt (in_run w) start p c h =
    (h.0, ap (λ x. x ++ c ∷ []) h.1 ∙ append_assoc h.0 w (c ∷ []), h.2)
take_letter-IsAt (at_joint w j) start p c h = (
  h.0,
  ap (λ x. x ++ c ∷ []) h.1
      ∙ append_assoc h.0 (w ++ j ∷ []) (c ∷ [])
      ∙ ap (λ x. h.0 ++ x) (append_assoc w (j ∷ []) (c ∷ [])),
  h.2,
)

-- Behind a character that is no letter.
abbrev Left : Search × List Text → ℕ → Text → ℕ → Text → Type 0
Left r start p c s = IsAt r.0 start (p ++ c ∷ []) × All (IsSlice (p ++ s)) (with_start start r.1)

take_other-Left :
    (search : Search) (start : ℕ) (p : Text) (c : ℕ) (s : Text)
    → IsAt search start p
    → Left (take_other search c) start p c s
unfolding take_other
take_other-Left outside start p c s h = (tt, finish-IsSlice outside start p s h)
take_other-Left (at_joint w j) start p c s h = (tt, finish-IsSlice (at_joint w j) start p s h)
take_other-Left (in_run w) start p c s h = elim (Bool-cases (joins_words c)) [
  | inl b ↦ rw b ((h.0, ap (λ x. x ++ c ∷ []) h.1 ∙ append_assoc h.0 w (c ∷ []), h.2), tt)
  | inr b ↦ rw b (tt, unfold finish in finish-IsSlice (in_run w) start p s h)
]

module _ (is_letter : ℕ → Bool) where
  find_matches-IsSlice :
      (search : Search) (start i : ℕ) (p s : Text)
      → length p ≡ i
      → IsAt search start p
      → All (IsSlice (p ++ s)) (find_matches is_letter search start i s)
  unfolding find_matches
  find_matches-IsSlice search start i p [] l h = finish-IsSlice search start p [] h
  find_matches-IsSlice search start i p (c ∷ s) l h =
      let whole : (p ++ c ∷ []) ++ s ≡ p ++ c ∷ s = append_assoc p (c ∷ []) s in
      let size : length (p ++ c ∷ []) ≡ i + 1 = length-append p (c ∷ []) ∙ omega (arith, l) in
      elim (Bool-cases (is_letter c)) [
        | inl b ↦ rw b (
            subst
              (λ t.
                All (IsSlice t) (
                  find_matches is_letter (take_letter search c) (start_of search start i) (i + 1)
                    s))
              whole
              (find_matches-IsSlice (take_letter search c) (start_of search start i) (i + 1)
                (p ++ c ∷ []) s size
                (subst (λ n. IsAt (take_letter search c) (start_of search start n) (p ++ c ∷ [])) l
                  (take_letter-IsAt search start p c h))))
        | inr b ↦
            let left = take_other-Left search start p c (c ∷ s) h in
            rw b (
              All-append (IsSlice (p ++ c ∷ s)) (with_start start (take_other search c).1)
                (find_matches is_letter (take_other search c).0 start (i + 1) s) left.1
                (subst
                  (λ t.
                    All (IsSlice t)
                      (find_matches is_letter (take_other search c).0 start (i + 1) s))
                  whole
                  (find_matches-IsSlice (take_other search c).0 start (i + 1) (p ++ c ∷ []) s size
                    left.0)))
      ]

  -- A token that is what the text has from its start to its end, in lower case as normalized.
  abbrev pub IsToken : Text → TokenRecord → Type 0
  IsToken text t = (slice text t.start t.stop ≡ t.token) × (t.normalized ≡ lower t.token)

  tokens-IsToken :
      (text : Text) (ms : List (ℕ × Text))
      → All (IsSlice text) ms
      → All (IsToken text) (regex_tokens is_letter ms)
  tokens-IsToken text [] h = tt
  tokens-IsToken text (m ∷ ms) h = ((h.0, refl), tokens-IsToken text ms h.1)

  abbrev words : List (ℕ × Text) → List Text
  words ms = map (λ m. m.1) ms

  words-with_start :
      (start : ℕ) (ws : List Text) (ms : List (ℕ × Text))
      → words (with_start start ws ++ ms) ≡ ws ++ words ms
  words-with_start start [] ms = refl
  words-with_start start (w ∷ ws) ms = ap (◌∷◌ w) (words-with_start start ws ms)

  words_finished : (start : ℕ) (ws : List Text) → words (with_start start ws) ≡ ws
  words_finished start [] = refl
  words_finished start (w ∷ ws) = ap (◌∷◌ w) (words_finished start ws)

  words-find_matches :
      (search : Search) (start i : ℕ) (s : Text)
      → words (find_matches is_letter search start i s) ≡ find_pieces is_letter search s
  unfolding find_matches find_pieces
  words-find_matches search start i [] = words_finished start (finish search)
  words-find_matches search start i (c ∷ s) = elim (Bool-cases (is_letter c)) [
    | inl b ↦ rw b (words-find_matches (take_letter search c) (start_of search start i) (i + 1) s)
    | inr b ↦ rw b (
        words-with_start start (take_other search c).1
          (find_matches is_letter (take_other search c).0 start (i + 1) s)
        ∙ ap (λ x. (take_other search c).1 ++ x)
            (words-find_matches (take_other search c).0 start (i + 1) s))
  ]

  map-token :
      (ms : List (ℕ × Text))
      → map (λ (t : TokenRecord). t.token) (regex_tokens is_letter ms) ≡ words ms
  map-token [] = refl
  map-token (m ∷ ms) = ap (◌∷◌ m.1) (map-token ms)

  -- The tokens that the fallback reads off a text are the matches of the pattern, in order, each
  -- stands in the text from its start to its end, and its normalized form is it in lower case.
  pub tokenize_with_regex-IsToken :
      (text : Text)
      → All (IsToken text) (tokenize_with_regex is_letter text)
        × (map (λ (t : TokenRecord). t.token) (tokenize_with_regex is_letter text)
            ≡ find_pieces is_letter outside text)
  unfolding tokenize_with_regex
  tokenize_with_regex-IsToken text =
      let found = find_matches is_letter outside 0 0 text in
      (
        tokens-IsToken text found (find_matches-IsSlice outside 0 0 [] text refl tt),
        map-token found ∙ words-find_matches outside 0 0 text,
      )
