-- ===== src/TextProcessor/Tokens/Laws.antt =====
-- What `extract_lexemes`, `build_candidate_categories` and `extract_occurrence_sync_candidates`
-- return.
use vocabulary_micro.Prelude.{
  ◌≡◌, refl, sym, ap, ◌∙◌, inl, inr, Bool, true, false, ◌&&◌, ◌||◌, not, Option, none, some, List,
  [], ◌∷◌, ◌++◌, arith, Bool-cases, ||_false, is_empty, any, All, All-unit, fold, fold-invariant,
  ◌==◌, nat_equality, list_beq_iff, list_equality, pair_equality, beq_refl, contains, Distinct,
  contains-append, set_default, keys, contains-keys-set_default, set_default-Distinct,
  All-set_default,
}
use vocabulary_micro.Text.{Text, codes, or_else}
use vocabulary_micro.TextProcessor.Patterns.{matches_word}
use vocabulary_micro.TextProcessor.Forms.{normalize_lexeme, canonicalize_expression}
use vocabulary_micro.TextProcessor.Forms.Unique.{unique-Distinct, contains-unique, All-unique}
use vocabulary_micro.TextProcessor.Tokens.{
  ParsedToken, Occurrence, lexeme_of, lexemes_of, extract_lexemes, token_categories,
  phrase_categories, category_from_token, build_candidate_categories, Gathered, gather_occurrence,
  occurrence_candidate, occurrence_category, extract_occurrence_sync_candidates,
}

-- The token's lexeme is `x`, a word.
abbrev has_lexeme : Text → ParsedToken → Bool
has_lexeme x t = not (is_empty x) && (matches_word x && lexeme_of t == x)

All-lexemes_of : (ts : List ParsedToken) → All (λ x. matches_word x ≡ true) (lexemes_of ts)
unfolding lexemes_of
All-lexemes_of [] = tt
All-lexemes_of (t ∷ ts) =
    let rest = All-lexemes_of ts in
    elim (Bool-cases (is_empty (lexeme_of t) || not (matches_word (lexeme_of t)))) [
      | inl e ↦ rw e rest
      | inr e ↦
          let both = ||_false (is_empty (lexeme_of t)) (not (matches_word (lexeme_of t))) e in
          rw e (ground (arith, both.1), rest)
    ]

not_lexeme :
    (rest : Bool) (candidate x : Text)
    → (is_empty candidate || not (matches_word candidate)) ≡ true
    → (not (is_empty x) && (matches_word x && candidate == x) || rest) ≡ rest
not_lexeme rest candidate x h = elim (Bool-cases (candidate == x)) [
  | inl e ↦
      let same : candidate ≡ x = (list_beq_iff nat_equality candidate x).0 e in
      let k : (is_empty x || not (matches_word x)) ≡ true = rw same at h in ground (arith, k)
  | inr e ↦ ground (arith, e)
]

is_lexeme :
    (rest : Bool) (candidate x : Text)
    → (is_empty candidate || not (matches_word candidate)) ≡ false
    → (not (is_empty x) && (matches_word x && candidate == x) || rest) ≡ (candidate == x || rest)
is_lexeme rest candidate x h = elim (Bool-cases (candidate == x)) [
  | inl e ↦
      let same : candidate ≡ x = (list_beq_iff nat_equality candidate x).0 e in
      let k : (is_empty x || not (matches_word x)) ≡ false = rw same at h in ground (arith, k, e)
  | inr e ↦ ground (arith, e)
]

contains-lexemes_of :
    (ts : List ParsedToken) (x : Text) → contains (lexemes_of ts) x ≡ any (has_lexeme x) ts
unfolding lexemes_of contains
contains-lexemes_of [] x = refl
contains-lexemes_of (t ∷ ts) x =
    let rest = contains-lexemes_of ts x in
    let candidate = lexeme_of t in
    elim (Bool-cases (is_empty candidate || not (matches_word candidate))) [
      | inl e ↦ rw e (rest ∙ sym (not_lexeme (any (has_lexeme x) ts) candidate x e))
      | inr e ↦ rw e (
          ap (λ (b : Bool). candidate == x || b) rest
          ∙ sym (is_lexeme (any (has_lexeme x) ts) candidate x e))
    ]

-- The lexemes are distinct words, and are those that a token has.
extract_lexemes_lem :
    (ts : List ParsedToken)
    → Distinct (extract_lexemes ts)
      × All (λ x. matches_word x ≡ true) (extract_lexemes ts)
      × ((x : Text) → contains (extract_lexemes ts) x ≡ any (has_lexeme x) ts)
unfolding extract_lexemes
extract_lexemes_lem ts = (
  unique-Distinct (lexemes_of ts),
  All-unique (λ x. matches_word x ≡ true) (lexemes_of ts) (All-lexemes_of ts),
  λ x. contains-unique (lexemes_of ts) x ∙ contains-lexemes_of ts x,
)

abbrev IsFilled : Text × Text → Type 0
IsFilled x = (is_empty x.0 ≡ false) × (is_empty x.1 ≡ false)

-- Distinct candidates with a category, neither of them blank.
abbrev AreCategories : List (Text × Text) → Type 0
AreCategories m = Distinct (keys m) × All IsFilled m

set_default-AreCategories :
    (m : List (Text × Text)) (k v : Text)
    → IsFilled (k, v)
    → AreCategories m
    → AreCategories (set_default m k v)
set_default-AreCategories m k v f h =
    (set_default-Distinct m k v h.0, All-set_default IsFilled m k v f h.1)

token_categories-AreCategories :
    (m : List (Text × Text)) (t : ParsedToken)
    → AreCategories m
    → AreCategories (token_categories m t)
unfolding token_categories
token_categories-AreCategories m t h =
    let candidate = or_else (normalize_lexeme t.lemma) (normalize_lexeme t.normalized) in
    let category = category_from_token t in
    elim (Bool-cases (is_empty candidate || is_empty category)) [
      | inl e ↦ rw e h
      | inr e ↦ rw e (
          set_default-AreCategories m candidate category
            (||_false (is_empty candidate) (is_empty category) e) h)
    ]

phrase_categories-AreCategories :
    (m : List (Text × Text)) (p : Text) → AreCategories m → AreCategories (phrase_categories m p)
unfolding phrase_categories
phrase_categories-AreCategories m p h =
    let clean = canonicalize_expression p (codes "phrasal_verb") in
    elim (Bool-cases (is_empty clean)) [
      | inl e ↦ rw e h
      | inr e ↦ rw e (set_default-AreCategories m clean (codes "Phrasal Verb") (e, refl) h)
    ]

-- The canonical form of the phrase, where there is one, has a category.
abbrev HasPhrase : List (Text × Text) → Text → Type 0
HasPhrase m p =
    is_empty (canonicalize_expression p (codes "phrasal_verb")) ≡ false
    → contains (keys m) (canonicalize_expression p (codes "phrasal_verb")) ≡ true

phrase_categories-keeps :
    (m : List (Text × Text)) (p x : Text)
    → contains (keys m) x ≡ true
    → contains (keys (phrase_categories m p)) x ≡ true
unfolding phrase_categories
phrase_categories-keeps m p x h =
    let clean = canonicalize_expression p (codes "phrasal_verb") in
    elim (Bool-cases (is_empty clean)) [
      | inl e ↦ rw e h
      | inr e ↦ rw e (ground (arith, contains-keys-set_default m clean (codes "Phrasal Verb") x, h))
    ]

phrase_categories-adds : (m : List (Text × Text)) (p : Text) → HasPhrase (phrase_categories m p) p
unfolding phrase_categories
phrase_categories-adds m p =
    let clean = canonicalize_expression p (codes "phrasal_verb") in
    ground (arith, contains-keys-set_default m clean (codes "Phrasal Verb") clean, beq_refl clean)

phrase_categories-HasPhrase :
    (m : List (Text × Text)) (q p : Text) → HasPhrase m p → HasPhrase (phrase_categories m q) p
phrase_categories-HasPhrase m q p h =
    ground
      (arith, h, phrase_categories-keeps m q (canonicalize_expression p (codes "phrasal_verb")))

fold-HasPhrase :
    (ps : List Text) (m : List (Text × Text)) → All (HasPhrase (fold phrase_categories m ps)) ps
unfolding fold
fold-HasPhrase [] m = tt
fold-HasPhrase (p ∷ ps) m = (
  fold-invariant phrase_categories (λ m. HasPhrase m p) (λ q. Unit)
      (λ m q u h. phrase_categories-HasPhrase m q p h) ps (All-unit ps) (phrase_categories m p)
      (phrase_categories-adds m p),
  fold-HasPhrase ps (phrase_categories m p),
)

-- Every candidate has one category, neither is blank, and the canonical form of every phrase, where
-- it has one, is among them.
build_candidate_categories_lem :
    (ts : List ParsedToken) (ps : List Text)
    → AreCategories (build_candidate_categories ts ps)
      × All (HasPhrase (build_candidate_categories ts ps)) ps
unfolding build_candidate_categories
build_candidate_categories_lem ts ps = (
  fold-invariant phrase_categories AreCategories (λ p. Unit)
      (λ m p u h. phrase_categories-AreCategories m p h) ps (All-unit ps)
      (fold token_categories [] ts)
      (fold-invariant token_categories AreCategories (λ t. Unit)
        (λ m t u h. token_categories-AreCategories m t h) ts (All-unit ts) []
        (unfold fold in (tt, tt))),
  fold-HasPhrase ps (fold token_categories [] ts),
)

-- The texts are the keys, which are distinct.
abbrev HasKeys : Gathered → Type 0
HasKeys g = Distinct (keys g.1) × ((x : Text) → contains g.0 x ≡ contains (keys g.1) x)

added_key :
    (auto : Text) (g : Gathered) (o : Occurrence)
    → HasKeys g
    → (x : Text)
    → contains (g.0 ++ occurrence_candidate o ∷ []) x
      ≡ contains (keys (set_default g.1 (occurrence_candidate o) (occurrence_category auto o))) x
unfolding contains
added_key auto g o h x = ground (
  arith,
  contains-append g.0 (occurrence_candidate o ∷ []) x,
  contains-keys-set_default g.1 (occurrence_candidate o) (occurrence_category auto o) x,
  h.1 x,
)

gather-HasKeys :
    (auto : Text) (g : Gathered) (o : Option Occurrence)
    → HasKeys g
    → HasKeys (gather_occurrence auto g o)
unfolding gather_occurrence
gather-HasKeys auto g none h = h
gather-HasKeys auto g (some o) h =
    let c = occurrence_candidate o in
    elim (Bool-cases (is_empty c)) [
      | inl e ↦ rw e h
      | inr e ↦
          rw e (
            set_default-Distinct g.1 c (occurrence_category auto o) h.0,
            λ x. added_key auto g o h x,
          )
    ]

-- The candidates of the occurrences are distinct and are the candidates that have a category.
extract_occurrence_sync_candidates_lem :
    (os : Option (List (Option Occurrence))) (auto : Text)
    → Distinct (extract_occurrence_sync_candidates os auto).0
      × HasKeys (extract_occurrence_sync_candidates os auto)
unfolding extract_occurrence_sync_candidates
extract_occurrence_sync_candidates_lem none auto = (tt, (tt, λ x. refl))
extract_occurrence_sync_candidates_lem (some os) auto =
    let g = fold (gather_occurrence auto) ([], []) os in
    let h : HasKeys g =
      fold-invariant (gather_occurrence auto) HasKeys (λ o. Unit)
        (λ g o u h. gather-HasKeys auto g o h) os (All-unit os) ([], [])
        (unfold contains in (tt, λ x. refl)) in
    (unique-Distinct g.0, (h.0, λ x. contains-unique g.0 x ∙ h.1 x))
