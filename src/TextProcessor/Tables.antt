-- ===== src/TextProcessor/Tables.antt =====
-- The word tables of text_processor.py.
use vocabulary_micro.Prelude.{List, [], ◌∷◌, map}
use vocabulary_micro.Text.{Text, codes, lower}

abbrev pub auto_add_blocklist : List Text
auto_add_blocklist =
    codes "a"
    ∷ codes "an"
    ∷ codes "the"
    ∷ codes "i"
    ∷ codes "me"
    ∷ codes "my"
    ∷ codes "myself"
    ∷ codes "we"
    ∷ codes "us"
    ∷ codes "our"
    ∷ codes "ours"
    ∷ codes "ourselves"
    ∷ codes "you"
    ∷ codes "your"
    ∷ codes "yours"
    ∷ codes "yourself"
    ∷ codes "yourselves"
    ∷ codes "he"
    ∷ codes "him"
    ∷ codes "his"
    ∷ codes "himself"
    ∷ codes "she"
    ∷ codes "her"
    ∷ codes "hers"
    ∷ codes "herself"
    ∷ codes "it"
    ∷ codes "its"
    ∷ codes "itself"
    ∷ codes "they"
    ∷ codes "them"
    ∷ codes "their"
    ∷ codes "theirs"
    ∷ codes "themselves"
    ∷ codes "this"
    ∷ codes "that"
    ∷ codes "these"
    ∷ codes "those"
    ∷ codes "is"
    ∷ codes "am"
    ∷ codes "are"
    ∷ codes "was"
    ∷ codes "were"
    ∷ codes "be"
    ∷ codes "been"
    ∷ codes "being"
    ∷ codes "have"
    ∷ codes "has"
    ∷ codes "had"
    ∷ codes "do"
    ∷ codes "does"
    ∷ codes "did"
    ∷ codes "and"
    ∷ codes "but"
    ∷ codes "or"
    ∷ codes "nor"
    ∷ codes "so"
    ∷ codes "yet"
    ∷ codes "for"
    ∷ codes "of"
    ∷ codes "in"
    ∷ codes "on"
    ∷ codes "at"
    ∷ codes "by"
    ∷ codes "to"
    ∷ codes "as"
    ∷ codes "if"
    ∷ codes "not"
    ∷ codes "no"
    ∷ []

abbrev pub phrasal_particles : List Text
phrasal_particles =
    codes "up"
    ∷ codes "down"
    ∷ codes "in"
    ∷ codes "out"
    ∷ codes "on"
    ∷ codes "off"
    ∷ codes "away"
    ∷ codes "back"
    ∷ codes "over"
    ∷ codes "through"
    ∷ codes "around"
    ∷ codes "about"
    ∷ codes "along"
    ∷ codes "into"
    ∷ codes "onto"
    ∷ codes "upon"
    ∷ codes "across"
    ∷ codes "by"
    ∷ codes "for"
    ∷ codes "from"
    ∷ codes "to"
    ∷ codes "with"
    ∷ []

abbrev pub weak_phrasal_particles : List Text
weak_phrasal_particles = codes "with" ∷ codes "for" ∷ codes "from" ∷ codes "to" ∷ codes "by" ∷ []

abbrev pub phrasal_verb_pos : List Text
phrasal_verb_pos = codes "VERB" ∷ codes "AUX" ∷ []

abbrev pub phrasal_particle_pos : List Text
phrasal_particle_pos = codes "ADP" ∷ codes "PART" ∷ codes "ADV" ∷ []

abbrev pub phrasal_particle_dep : List Text
phrasal_particle_dep = codes "prt" ∷ codes "compound:prt" ∷ []

abbrev pub stopword_particle_categories : List Text
stopword_particle_categories = codes "preposition" ∷ codes "particle" ∷ codes "phrasal verb" ∷ []

abbrev pub irregular_verb_heads : List (Text × Text)
irregular_verb_heads =
    (codes "ran", codes "run")
    ∷ (codes "run", codes "run")
    ∷ (codes "went", codes "go")
    ∷ (codes "gone", codes "go")
    ∷ (codes "took", codes "take")
    ∷ (codes "taken", codes "take")
    ∷ (codes "gave", codes "give")
    ∷ (codes "given", codes "give")
    ∷ (codes "did", codes "do")
    ∷ (codes "done", codes "do")
    ∷ (codes "saw", codes "see")
    ∷ (codes "seen", codes "see")
    ∷ (codes "came", codes "come")
    ∷ (codes "come", codes "come")
    ∷ (codes "left", codes "leave")
    ∷ (codes "made", codes "make")
    ∷ (codes "said", codes "say")
    ∷ (codes "told", codes "tell")
    ∷ (codes "thought", codes "think")
    ∷ (codes "brought", codes "bring")
    ∷ (codes "bought", codes "buy")
    ∷ (codes "caught", codes "catch")
    ∷ (codes "felt", codes "feel")
    ∷ (codes "found", codes "find")
    ∷ (codes "heard", codes "hear")
    ∷ (codes "held", codes "hold")
    ∷ (codes "kept", codes "keep")
    ∷ (codes "knew", codes "know")
    ∷ (codes "met", codes "meet")
    ∷ (codes "paid", codes "pay")
    ∷ (codes "read", codes "read")
    ∷ (codes "sat", codes "sit")
    ∷ (codes "sold", codes "sell")
    ∷ (codes "sent", codes "send")
    ∷ (codes "spoke", codes "speak")
    ∷ (codes "spoken", codes "speak")
    ∷ (codes "spent", codes "spend")
    ∷ (codes "stood", codes "stand")
    ∷ (codes "taught", codes "teach")
    ∷ (codes "wrote", codes "write")
    ∷ (codes "written", codes "write")
    ∷ (codes "called", codes "call")
    ∷ (codes "got", codes "get")
    ∷ (codes "gotten", codes "get")
    ∷ (codes "fell", codes "fall")
    ∷ (codes "fallen", codes "fall")
    ∷ (codes "broke", codes "break")
    ∷ (codes "broken", codes "break")
    ∷ (codes "woke", codes "wake")
    ∷ (codes "woken", codes "wake")
    ∷ (codes "won", codes "win")
    ∷ (codes "lost", codes "lose")
    ∷ (codes "built", codes "build")
    ∷ (codes "dealt", codes "deal")
    ∷ (codes "wore", codes "wear")
    ∷ (codes "worn", codes "wear")
    ∷ (codes "threw", codes "throw")
    ∷ (codes "thrown", codes "throw")
    ∷ (codes "grew", codes "grow")
    ∷ (codes "grown", codes "grow")
    ∷ (codes "drew", codes "draw")
    ∷ (codes "drawn", codes "draw")
    ∷ (codes "blew", codes "blow")
    ∷ (codes "blown", codes "blow")
    ∷ (codes "drove", codes "drive")
    ∷ (codes "driven", codes "drive")
    ∷ []

abbrev pub pos_category_hints : List (Text × Text)
pos_category_hints =
    (codes "NOUN", codes "Noun")
    ∷ (codes "PROPN", codes "Noun")
    ∷ (codes "VERB", codes "Verb")
    ∷ (codes "AUX", codes "Verb")
    ∷ (codes "ADJ", codes "Adjective")
    ∷ (codes "ADV", codes "Adverb")
    ∷ (codes "PRON", codes "Pronoun")
    ∷ (codes "ADP", codes "Preposition")
    ∷ (codes "DET", codes "Determiner")
    ∷ (codes "CCONJ", codes "Coordinating conjunction")
    ∷ (codes "SCONJ", codes "Subordinating conjunction")
    ∷ (codes "INTJ", codes "Interjection")
    ∷ (codes "NUM", codes "Numeral")
    ∷ (codes "PART", codes "Particle")
    ∷ []

-- The casefolded categories of the hints.
abbrev pub pos_disambiguation_categories : List Text
unfolding lower
pos_disambiguation_categories = map (λ h. lower h.1) pos_category_hints
