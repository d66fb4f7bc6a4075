-- ===== src/Tests/Resolver.antt =====
-- parse_sync_candidate_resolver.py and the token methods of text_processor.py on small inputs.
use vocabulary_micro.Prelude.{
  if◌then◌else◌, ◌==◌, ℕ, ◌≡◌, Bool, true, false, Option, none, some, List, [], ◌∷◌, leb, any, All,
  nat_equality, list_equality, pair_equality, contains, Distinct,
}
use vocabulary_micro.Text.{Text, codes}
use vocabulary_micro.TextProcessor.Tokens.{ParsedToken, Occurrence, missing}
use vocabulary_micro.TextProcessor.Tokens.Phrasal.{extract_phrasal_verbs}
use vocabulary_micro.TextProcessor.Tokens.PhrasalLaws.{IsPhrasal, extract_phrasal_verbs_lem}
use vocabulary_micro.SyncQueue.{Queue, init}
use vocabulary_micro.CandidateResolver.{SyncIndex}
use vocabulary_micro.CandidateResolver.Sync.{SyncRepository, stored, rejects, raises}
use vocabulary_micro.CandidateResolver.Partition.{partition_sync_candidates}
use vocabulary_micro.CandidateResolver.PartitionLaws.{gives, partition_sync_candidates_lem}
use vocabulary_micro.CandidateResolver.Enqueue.{
  AsyncSyncJob, IsJob, enqueue_async_sync, TakenOrLeft, enqueue_async_sync_lem,
}

abbrev parsed : Text → Text → Text → Text → ParsedToken
parsed word lemma pos dep = record {
  token = word;
  normalized = word;
  lemma = lemma;
  pos = pos;
  dep = dep;
  categories = missing;
  match_source = codes "none";
  matched_form = [];
  bert_score = none;
}

abbrev gave_it_up : List ParsedToken
gave_it_up =
    parsed (codes "gave") (codes "give") (codes "VERB") (codes "root")
    ∷ parsed (codes "it") (codes "it") (codes "PRON") (codes "dobj")
    ∷ parsed (codes "up") (codes "up") (codes "ADP") (codes "prt")
    ∷ []

extract_phrasal_verbs_lem_example :
    Distinct (extract_phrasal_verbs gave_it_up)
    × All (IsPhrasal gave_it_up) (extract_phrasal_verbs gave_it_up)
extract_phrasal_verbs_lem_example = extract_phrasal_verbs_lem gave_it_up

abbrev give_up_phrase : List Text
give_up_phrase = codes "give up" ∷ []

abbrev idiom : Occurrence
idiom = record {
  canonical_form = codes "spill the beans";
  surface = codes "spilled the beans";
  expression_type = codes "idiom";
  usage_label = [];
  source = [];
  score = none;
  status = [];
  gloss = [];
  sentence_text = [];
  is_separable = false;
}

abbrev index : SyncIndex
index = record {
  known_lemmas = codes "run" ∷ [];
  existing_single = codes "run" ∷ [];
  existing_multi = [];
  existing_categories = codes "Verb" ∷ [];
}

abbrev proposed : List Text
proposed = codes "run" ∷ codes "give up" ∷ codes "give up" ∷ codes "walk" ∷ []

-- The clock is past the limit when the fourth candidate is due.
abbrev after_three : ℕ → Bool
after_three i = leb 3 i

abbrev no_answer : Text → Option (List Text)
no_answer category = none

-- A repository whose `add_entries` refuses the keywords, and which fails over the third entry.
abbrev failing : SyncRepository
failing = record {
  answer_entries = λ entries. rejects (codes "source");
  answer_entry = λ category value. if value == codes "walk" then raises (codes "503") else stored;
  answer_plain_entry = λ category value. stored;
  answer_save = λ entries. stored;
}

partition_sync_candidates_lem_example :
    Distinct (partition_sync_candidates proposed none).0
    × Distinct (partition_sync_candidates proposed none).1
    × ((x : Text)
        → contains (partition_sync_candidates proposed none).0 x ≡ any (gives none true x) proposed)
    × ((x : Text)
        → contains (partition_sync_candidates proposed none).1 x
          ≡ any (gives none false x) proposed)
partition_sync_candidates_lem_example = partition_sync_candidates_lem none proposed

enqueue_async_sync_lem_example :
    (r : Queue AsyncSyncJob) × ((enqueue_async_sync false
        (codes "New")
        (codes "r1")
        none
        proposed
        (some (init 2))).0
      ≡ some r)
    × TakenOrLeft
        (IsJob (codes "New") (codes "r1") none proposed)
        proposed
        (init 2)
        r
        (enqueue_async_sync false (codes "New") (codes "r1") none proposed (some (init 2))).1
        (enqueue_async_sync false (codes "New") (codes "r1") none proposed (some (init 2))).2
enqueue_async_sync_lem_example =
    enqueue_async_sync_lem false (codes "New") (codes "r1") none proposed (init 2)
