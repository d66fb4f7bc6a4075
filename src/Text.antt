-- ===== src/Text.antt =====
-- Python's `str` as the list of its code points, with the methods that the services call.
-- Letter case is ASCII's: other code points are left as they are by `lower` and `casefold`.
pub mod Words
pub mod Normal
pub mod Affix
pub mod Order
pub mod Sets
use Prim.Native.Char.{code}
use Prim.Native.String.{String}
use vocabulary_micro.Prelude.{
  ℕ, ◌+◌, ◌-◌, ◌≡◌, ◌↔◌, Bool, true, false, ◌&&◌, ◌||◌, not, List, [], ◌∷◌, ◌++◌, map, leb,
  if◌then◌else◌, length, take, drop, is_empty, ◌==◌, nat_equality, list_equality, pair_equality,
}

abbrev pub Text : Type 0
Text = List ℕ

pub same_text : (s t : Text) → ((s == t) ≡ true) ↔ (s ≡ t)
same_text s t = (list_equality {A = ℕ}).same_iff s t

pub same_texts : (s t : List Text) → ((s == t) ≡ true) ↔ (s ≡ t)
same_texts s t = (list_equality {A = Text}).same_iff s t

-- A literal.
abbrev pub codes : String → Text
codes String.[] = []
codes (String.◌∷◌ c s) = code c ∷ codes s

abbrev pub space : ℕ
space = 32

-- `str.isspace` of one character, which is what `strip`, `split` and the pattern `\s` test.
unfoldable pub is_space : ℕ → Bool
is_space c =
    leb 9 c && leb c 13
    || (leb 28 c && leb c 32
        || (c == 133
            || (c == 160
                || (c == 5760
                    || (leb 8192 c && leb c 8202
                        || (c == 8232
                            || (c == 8233 || (c == 8239 || (c == 8287 || c == 12288)))))))))

unfoldable pub lower_code : ℕ → ℕ
lower_code c = if leb 65 c && leb c 90 then c + 32 else c

-- `s.lower()`, and `s.casefold()`.
unfoldable pub lower : Text → Text
unfolding lower_code
lower s = map lower_code s

unfoldable pub upper_code : ℕ → ℕ
upper_code c = if leb 97 c && leb c 122 then c - 32 else c

-- `s.upper()`
unfoldable pub upper : Text → Text
unfolding upper_code
upper s = map upper_code s

unfoldable pub lstrip : Text → Text
unfolding is_space
lstrip [] = []
lstrip (c ∷ s) = if is_space c then lstrip s else c ∷ s

abbrev pub cons_unless_blank : ℕ → Text → Text
cons_unless_blank c [] = if is_space c then [] else c ∷ []
cons_unless_blank c (d ∷ s) = c ∷ d ∷ s

unfoldable pub rstrip : Text → Text
unfolding is_space
rstrip [] = []
rstrip (c ∷ s) = cons_unless_blank c (rstrip s)

-- `s.strip()`
unfoldable pub strip : Text → Text
unfolding lstrip rstrip
strip s = rstrip (lstrip s)

-- A character ahead of the first word.
abbrev pub push : ℕ → List Text → List Text
push c [] = (c ∷ []) ∷ []
push c (w ∷ ws) = (c ∷ w) ∷ ws

module _ (sep : ℕ → Bool) where
  -- The text begins with a character that is no separator.
  abbrev pub continues : Text → Bool
  continues [] = false
  continues (c ∷ s) = not (sep c)

  -- The maximal runs of characters that are no separators, from left to right.
  unfoldable pub runs : Text → List Text
  runs [] = []
  runs (c ∷ s) =
      let rest = runs s in
      if sep c then rest else if continues s then push c rest else (c ∷ []) ∷ rest

-- `s.split()`
abbrev pub split_words : Text → List Text
split_words = runs is_space

-- `[part for part in s.split(" ") if part]`
abbrev pub split_parts : Text → List Text
split_parts = runs (λ c. c == space)

-- `" ".join(ws)`
unfoldable pub join : List Text → Text
join [] = []
join (w ∷ []) = w
join (w ∷ v ∷ ws) = w ++ (space ∷ join (v ∷ ws))

-- `re.sub(r"\s+", " ", s)`: of each run of spaces, the first one is written as a space.
unfoldable pub collapse_from : Bool → Text → Text
unfolding is_space
collapse_from inside [] = []
collapse_from inside (c ∷ s) =
    let rest = collapse_from (is_space c) s in
    if is_space c then (if inside then rest else space ∷ rest) else c ∷ rest

unfoldable pub collapse : Text → Text
unfolding collapse_from
collapse s = collapse_from false s

-- `s.split(" ", 1)[0]`
unfoldable pub first_part : Text → Text
first_part [] = []
first_part (c ∷ s) = if c == space then [] else c ∷ first_part s

-- `s.endswith(suffix)`
unfoldable pub ends_with : Text → Text → Bool
ends_with suffix s = drop (length s - length suffix) s == suffix

-- `s[:-n]`
unfoldable pub drop_last : ℕ → Text → Text
drop_last n s = take (length s - n) s

-- `a or b`
abbrev pub or_else : Text → Text → Text
or_else a b = if is_empty a then b else a

-- `s.replace("-", "_")` and `s.replace(" ", "_")`
unfoldable pub replace_code : ℕ → ℕ → Text → Text
replace_code old new s = map (λ c. if c == old then new else c) s
