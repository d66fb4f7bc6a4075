-- ===== src/TextProcessor/Forms/Canonical.antt =====
-- The words of what `canonicalize_expression` returns.
use vocabulary_micro.Prelude.{
  ◌≡◌, refl, ap, ◌∙◌, ◌⊎◌, inl, inr, false, ◌&&◌, ◌||◌, List, [], ◌∷◌, All, All-map, if◌then◌else◌,
  if_case, is_empty, map, ◌==◌, nat_equality, list_equality,
}
use vocabulary_micro.Text.{Text, is_space, space, lower, split_words, split_parts, join}
use vocabulary_micro.Text.Words.{IsWord, runs-All, runs-join, space_apart}
use vocabulary_micro.Text.Normal.{IsWord-lower, lower_idem}
use vocabulary_micro.TextProcessor.Forms.{
  normalize_term, normalize_verb_head, canonicalize_expression, canonical_parts, normalize_type,
  phrasal_verb_type, idiom_type, has_two, looks_like_verb_form, ends_in_particle,
}
use vocabulary_micro.TextProcessor.Forms.Terms.{normalize_term-eq-join}
use vocabulary_micro.TextProcessor.Forms.VerbHeads.{IsPlain, normalize_verb_head-IsPlain}

-- The words of a text in lower case.
abbrev pub words_of : Text → List Text
words_of raw = map lower (split_words raw)

lower-IsPlain : (w : Text) → IsWord is_space w → IsPlain (lower w)
lower-IsPlain w h =
    let p = IsWord-lower w h in
    record { filled = p.filled; solid = p.solid; lowered = lower_idem w }

IsPlain-words : (ws : List Text) → All (IsWord is_space) ws → All IsPlain (map lower ws)
IsPlain-words [] h = tt
IsPlain-words (w ∷ ws) h = (lower-IsPlain w h.0, IsPlain-words ws h.1)

words_of-IsPlain : (raw : Text) → All IsPlain (words_of raw)
words_of-IsPlain raw = IsPlain-words (split_words raw) (runs-All is_space raw)

plain-part : (w : Text) → IsPlain w → IsWord (λ c. c == space) w
plain-part w p = record { filled = p.filled; solid = All-map space_apart w p.solid }

plain-IsWord : (w : Text) → IsPlain w → IsWord is_space w
plain-IsWord w p = record { filled = p.filled; solid = p.solid }

map-lower_plain : (ws : List Text) → All IsPlain ws → map lower ws ≡ ws
map-lower_plain [] h = refl
map-lower_plain (w ∷ ws) h = cc (h.0.lowered, map-lower_plain ws h.1)

split_parts-join : (ws : List Text) → All IsPlain ws → split_parts (join ws) ≡ ws
split_parts-join ws h = runs-join (λ c. c == space) refl ws (All-map plain-part ws h)

split_words-join : (ws : List Text) → All IsPlain ws → split_words (join ws) ≡ ws
split_words-join ws h = runs-join is_space (unfold is_space in refl) ws (All-map plain-IsWord ws h)

normalize_term-join : (ws : List Text) → All IsPlain ws → normalize_term (join ws) ≡ join ws
normalize_term-join ws h =
    normalize_term-eq-join (join ws)
    ∙ ap (λ vs. join (map lower vs)) (split_words-join ws h)
    ∙ ap join (map-lower_plain ws h)

-- `rs` is `ws`, or `ws` with its first word replaced by the verb head of it.
abbrev pub SameButHead : List Text → List Text → Type 0
SameButHead [] rs = rs ≡ []
SameButHead (w ∷ ws) rs = (rs ≡ w ∷ ws) ⊎ (rs ≡ normalize_verb_head w ∷ ws)

-- The text joins plain words, which are `ws` up to its head.
record Canonical (ws : List Text) (t : Text) : Type 0 where
  parts : List Text
  joined : t ≡ join parts
  same : SameButHead ws parts
  plain : All IsPlain parts

module _ (w : Text) (ws : List Text) (h : All IsPlain (w ∷ ws)) where
  kept : Canonical (w ∷ ws) (join (w ∷ ws))
  kept = record { parts = w ∷ ws; joined = refl; same = inl refl; plain = h }

  replaced : Canonical (w ∷ ws) (join (normalize_verb_head w ∷ ws))
  replaced = record {
    parts = normalize_verb_head w ∷ ws;
    joined = refl;
    same = inr refl;
    plain = (normalize_verb_head-IsPlain w h.0, h.1);
  }

  canonical_parts-Canonical :
      (kind : Text) → Canonical (w ∷ ws) (canonical_parts (join (w ∷ ws)) kind (w ∷ ws))
  unfolding canonical_parts
  canonical_parts-Canonical kind =
      if_case (Canonical (w ∷ ws)) (kind == phrasal_verb_type && has_two (w ∷ ws)) _ _
        (λ _. replaced)
        (λ _.
          if_case (Canonical (w ∷ ws)) (kind == idiom_type && has_two (w ∷ ws)) _ _
            (λ _.
              if_case (Canonical (w ∷ ws)) (looks_like_verb_form w) _ _ (λ _. replaced) (λ _. kept))
            (λ _.
              if_case (Canonical (w ∷ ws)) (has_two (w ∷ ws) && ends_in_particle (w ∷ ws)) _ _
                (λ _. replaced) (λ _. kept)))

join_filled : (w : Text) (ws : List Text) → IsPlain w → is_empty (join (w ∷ ws)) ≡ false
unfolding join
join_filled [] ws p = absurd (cc p.filled)
join_filled (c ∷ w) [] p = refl
join_filled (c ∷ w) (v ∷ ws) p = refl

canonical_of :
    (raw t : Text) (ws : List Text)
    → words_of raw ≡ ws
    → All IsPlain ws
    → Canonical ws (canonicalize_expression raw t)
unfolding canonicalize_expression
canonical_of raw t ws e h =
    rw (normalize_term-eq-join raw, e, split_parts-join ws h) (by_parts ws h)
  where
    by_parts :
        (vs : List Text)
        → All IsPlain vs
        → Canonical vs (
            if is_empty (join vs) || is_empty vs
            then []
            else canonical_parts (join vs) (normalize_type t) vs)
    by_parts [] k = unfold join in record { parts = []; joined = refl; same = refl; plain = tt }
    by_parts (v ∷ vs) k =
        rw (join_filled v vs k.0) (canonical_parts-Canonical v vs k (normalize_type t))

-- Whatever the kind of expression, the words of the result are the lowered words of the input, of
-- which at most the first is replaced by its verb head.
pub canonicalize-SameButHead :
    (raw t : Text) → SameButHead (words_of raw) (split_words (canonicalize_expression raw t))
canonicalize-SameButHead raw t =
    let c = canonical_of raw t (words_of raw) refl (words_of-IsPlain raw) in
    rw (c.joined, split_words-join c.parts c.plain) c.same

-- The result is in normal form: `normalize_term` leaves it as it is.
normalize_term-canonicalize :
    (raw t : Text) → normalize_term (canonicalize_expression raw t) ≡ canonicalize_expression raw t
normalize_term-canonicalize raw t =
    let c = canonical_of raw t (words_of raw) refl (words_of-IsPlain raw) in
    rw c.joined (normalize_term-join c.parts c.plain)
