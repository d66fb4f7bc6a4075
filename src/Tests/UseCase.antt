-- ===== src/Tests/UseCase.antt =====
-- The use case that parses and syncs, on a parser that finds "gave it up", with a second pass that
-- reports an idiom and a third pass that fails.
use vocabulary_micro.Prelude.{
  ℕ, refl, Bool, true, false, Option, none, some, List, [], ◌∷◌, ltb, if◌then◌else◌, nat_equality,
  list_equality, pair_equality,
}
use vocabulary_micro.Text.{Text, codes}
use vocabulary_micro.TextProcessor.Tokens.{ParsedToken, missing}
use vocabulary_micro.SyncQueue.{Queue}
use vocabulary_micro.CandidateResolver.{LexiconIndex, load_sync_index_state}
use vocabulary_micro.CandidateResolver.Enqueue.{AsyncSyncJob}
use vocabulary_micro.CandidateResolver.Sync.{stored}
use vocabulary_micro.ThirdPass.Extractor.{raised}
use vocabulary_micro.ParseAndSync.Summaries.{answered, failure, type_error}
use vocabulary_micro.ParseAndSync.Progress.{Syncing}
use vocabulary_micro.ParseAndSync.Progress.Laws.{IsFresh}
use vocabulary_micro.ParseAndSync.Execute.{execute}
use vocabulary_micro.ParseAndSync.Execute.Requests.{ParseRequest, Interactor, parsed_tokens}
use vocabulary_micro.ParseAndSync.Execute.Laws.{IsReadOnly, execute-IsFresh, execute-IsReadOnly}
use vocabulary_micro.ParseAndSync.Rows.{RowRequest, RowRepository}

abbrev tagged : Text → Text → Text → Text → ParsedToken
tagged word lemma pos dep = record {
  token = word;
  normalized = word;
  lemma = lemma;
  pos = pos;
  dep = dep;
  categories = missing;
  match_source = codes "none";
  matched_form = [];
  bert_score = none;
}

abbrev tokens : List ParsedToken
tokens =
    tagged (codes "gave") (codes "give") (codes "VERB") (codes "root")
    ∷ tagged (codes "it") (codes "it") (codes "PRON") (codes "dobj")
    ∷ tagged (codes "up") (codes "up") (codes "ADP") (codes "prt")
    ∷ []

abbrev lexicon_index : LexiconIndex
lexicon_index = ((codes "give", codes "Verb" ∷ []) ∷ [], [])

abbrev no_category : Text → Option (List Text)
no_category category = none

abbrev direct : Syncing
direct = record {
  async_sync_enabled = false;
  persistent_queue_enabled = false;
  auto_add_category = codes "Auto Added";
  request_id = codes "r1";
  create_category = no_category;
  repository = record {
    answer_entries = λ entries. stored;
    answer_entry = λ category value. stored;
    answer_plain_entry = λ category value. stored;
    answer_save = λ entries. stored;
  };
  mwe_available = false;
  mwe_succeeds = λ r. true;
  max_gap_tokens = 4;
}

abbrev interactor : Interactor ℕ
interactor = record {
  auto_sync_enabled = true;
  enable_second_pass_wsd = true;
  enable_third_pass_llm = true;
  trf_confidence_threshold = 8;
  syncing = direct;
  parse = λ keywords.
      if keywords then type_error (codes "request_id") else answered (parsed_tokens tokens);
  pipeline_status = answered tt;
  index = some lexicon_index;
  listed_categories = none;
  parse_mwe = some (λ keywords. failure (codes "no model"));
  detect_third = λ a. raised (codes "no server");
  keyword_error = codes "unexpected keyword";
  late = λ pass round. false;
  to_float = λ t. none;
  render_score = λ t. t;
}

abbrev request : Option Bool → ParseRequest
request sync = record {
  text = codes "gave it up";
  sync = sync;
  second_pass_wsd = none;
  third_pass_enabled = none;
  has_timeout = false;
}

abbrev no_queue : Option (Queue AsyncSyncJob)
no_queue = none

execute-IsFresh_example :
    IsFresh
      (load_sync_index_state (some lexicon_index) none)
      (execute ltb 0 interactor (request none) no_queue).1
execute-IsFresh_example = execute-IsFresh ltb 0 interactor (request none) no_queue

execute-IsReadOnly_example :
    IsReadOnly ltb 0 interactor no_queue (execute ltb 0 interactor (request (some false)) no_queue)
execute-IsReadOnly_example =
    execute-IsReadOnly ltb 0 interactor (request (some false)) no_queue refl

abbrev up_row : RowRequest
up_row = record {
  row_token = codes "Gave up";
  row_normalized = codes "give up";
  row_lemma = codes "give";
  row_categories = codes "-, Phrasal Verb";
}

abbrev row_repository : RowRepository
row_repository = record {
  build_index = answered lexicon_index;
  list_categories = none;
  create_row_category = no_category;
  add_row_entry = λ keywords category value. answered tt;
  save_rows = answered tt;
}
