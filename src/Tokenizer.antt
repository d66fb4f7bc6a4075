-- ===== src/Tokenizer.antt =====
-- backend/python_services/infrastructure/nlp/tokenizer.py: the tokens of a text, by spaCy or by the
-- pattern. `load` and `blank` of `Spacy` are the pipelines that spaCy gives, or none where the call
-- raises; a pipeline gives the tokens of a document. `is_letter` is the class `[^\W\d_]`.
pub mod Spans
use vocabulary_micro.Prelude.{
  ℕ, ◌+◌, ◌*◌, Bool, false, ◌||◌, not, Option, none, some, List, [], ◌∷◌, ◌++◌, ltb, if◌then◌else◌,
  length, take, is_empty, ◌==◌, nat_equality, list_equality, pair_equality,
}
use vocabulary_micro.Text.{Text, codes, is_space, lower, strip, or_else}
use vocabulary_micro.IndexProvider.Pieces.{
  Search, outside, in_run, at_joint, finish, take_letter, take_other, find_pieces,
}
use vocabulary_micro.ExactMatcher.{TokenRecord}

pub record SpacyToken : Type 0 where
  pub text : Text
  pub lemma : Text
  pub pos : Text
  pub idx : ℕ
  pub is_space : Bool
  pub is_punct : Bool
  pub like_num : Bool

abbrev Pipeline : Type 0
Pipeline = Text → List SpacyToken

pub record Spacy : Type 0 where
  pub imported : Bool
  pub load : Option Pipeline
  pub blank : Option Pipeline

-- `_spacy_nlp`: None, False, or a pipeline.
pub data Nlp : Type 0 where
  untried : Nlp
  unusable : Nlp
  ready : Pipeline → Nlp

pub record TokenizerState : Type 0 where
  pub nlp : Nlp
  pub last_doc : Option (List SpacyToken)
  pub last_backend : Text
  pub pipeline_kind : Text

abbrev pub new_tokenizer : TokenizerState
new_tokenizer = record {
  nlp = untried;
  last_doc = none;
  last_backend = codes "unknown";
  pipeline_kind = codes "uninitialized";
}

unfoldable pub set_nlp : Nlp → Text → TokenizerState → TokenizerState
set_nlp nlp kind s = record {
  nlp = nlp;
  last_doc = s.last_doc;
  last_backend = s.last_backend;
  pipeline_kind = kind;
}

abbrev try_blank : Option Pipeline → TokenizerState → TokenizerState
try_blank none s = set_nlp unusable (codes "spacy_init_failed") s
try_blank (some f) s = set_nlp (ready f) (codes "spacy_blank") s

abbrev try_load : Option Pipeline → Option Pipeline → TokenizerState → TokenizerState
try_load none blank s = try_blank blank s
try_load (some f) blank s = set_nlp (ready f) (codes "spacy_model") s

abbrev get_nlp : Nlp → Spacy → TokenizerState → TokenizerState
get_nlp untried spacy s =
    if not spacy.imported
    then set_nlp unusable (codes "spacy_unavailable") s
    else try_load spacy.load spacy.blank s
get_nlp unusable spacy s = s
get_nlp (ready f) spacy s = s

-- The state behind `_get_spacy_nlp`, whose result is its pipeline.
unfoldable pub get_spacy_nlp : Spacy → TokenizerState → TokenizerState
get_spacy_nlp spacy s = get_nlp s.nlp spacy s

abbrev plain_token : Text → Text → Text → Text → ℕ → TokenRecord
plain_token token normalized lemma pos start = record {
  token = token;
  normalized = normalized;
  lemma = lemma;
  pos = pos;
  start = start;
  stop = start + length token;
  categories = [];
  known = false;
  match_source = codes "none";
  matched_form = [];
  bert_score = none;
}

unfoldable pub spacy_lemma : SpacyToken → Text
spacy_lemma t =
    let lemma = lower (or_else t.lemma (lower t.text)) in
    if lemma == codes "-pron-" || is_empty (strip lemma) then lower t.text else lemma

-- The matches of the pattern with their starts: `start` is that of the match that the search is
-- in, `i` the index of the next character.
abbrev pub start_of : Search → ℕ → ℕ → ℕ
start_of outside start i = i
start_of (in_run w) start i = start
start_of (at_joint w j) start i = start

abbrev pub with_start : ℕ → List Text → List (ℕ × Text)
with_start start [] = []
with_start start (w ∷ ws) = (start, w) ∷ with_start start ws

module _ (is_letter : ℕ → Bool) where
  unfoldable pub find_matches : Search → ℕ → ℕ → Text → List (ℕ × Text)
  find_matches search start i [] = with_start start (finish search)
  find_matches search start i (c ∷ s) =
      if is_letter c
      then find_matches (take_letter search c) (start_of search start i) (i + 1) s
      else with_start start (take_other search c).1
        ++ find_matches (take_other search c).0 start (i + 1) s

  abbrev pub regex_tokens : List (ℕ × Text) → List TokenRecord
  regex_tokens [] = []
  regex_tokens (m ∷ ms) = plain_token m.1 (lower m.1) (lower m.1) [] m.0 ∷ regex_tokens ms

  unfoldable pub tokenize_with_regex : Text → List TokenRecord
  tokenize_with_regex text = regex_tokens (find_matches outside 0 0 text)

  -- The loop over the tokens of a document.
  unfoldable pub read_spacy_tokens : List SpacyToken → List TokenRecord
  read_spacy_tokens [] = []
  read_spacy_tokens (t ∷ ts) =
      let rest = read_spacy_tokens ts in
      if t.is_space || (t.is_punct || t.like_num)
      then rest
      else if not (find_pieces is_letter outside t.text == t.text ∷ [])
      then rest
      else plain_token t.text (lower t.text) (spacy_lemma t) t.pos t.idx ∷ rest

  -- `_tokenize_with_spacy_doc` with the pipeline there is.
  unfoldable pub tokenize_with_spacy_doc : Nlp → Text → List TokenRecord × Option (List SpacyToken)
  tokenize_with_spacy_doc untried text = ([], none)
  tokenize_with_spacy_doc unusable text = ([], none)
  tokenize_with_spacy_doc (ready f) text = (read_spacy_tokens (f text), some (f text))

  unfoldable pub tokenize_with_doc :
      Spacy
      → ℕ
      → TokenizerState
      → Text
      → List TokenRecord × Bool × Option (List SpacyToken) × TokenizerState
  tokenize_with_doc spacy max_input_tokens s text =
      let state = get_spacy_nlp spacy s in
      let found = tokenize_with_spacy_doc state.nlp text in
      let fallback = is_empty found.0 in
      let kind = state.pipeline_kind in
      let backend : Text =
        if fallback
        then codes "regex"
        else if kind == codes "spacy_model" || kind == codes "spacy_blank"
        then kind
        else codes "spacy" in
      let tokens = if fallback then tokenize_with_regex text else found.0 in
      let doc : Option (List SpacyToken) = if fallback then none else found.1 in
      let truncated = ltb max_input_tokens (length tokens) in
      (
        if truncated then take max_input_tokens tokens else tokens,
        truncated,
        doc,
        record { nlp = state.nlp; last_doc = doc; last_backend = backend; pipeline_kind = kind },
      )

-- `pop_last_doc` and `pop_last_backend`, with the state behind them.
unfoldable pop_last_doc : TokenizerState → Option (List SpacyToken) × TokenizerState
pop_last_doc s = (
  s.last_doc,
  record {
    nlp = s.nlp;
    last_doc = none;
    last_backend = s.last_backend;
    pipeline_kind = s.pipeline_kind;
  },
)

unfoldable pop_last_backend : TokenizerState → Text × TokenizerState
pop_last_backend s = (
  or_else s.last_backend (codes "unknown"),
  record {
    nlp = s.nlp;
    last_doc = s.last_doc;
    last_backend = codes "unknown";
    pipeline_kind = s.pipeline_kind;
  },
)
