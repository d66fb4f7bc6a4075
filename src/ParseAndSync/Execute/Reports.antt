-- ===== src/ParseAndSync/Execute/Reports.antt =====
-- The reports of `execute` of parse_and_sync.py.
use vocabulary_micro.Prelude.{
  none, some, ◌⊎◌, All, ◌≡◌, Bool, ◌==◌, nat_equality, list_equality, pair_equality, Distinct,
}
use vocabulary_micro.Text.{Text, codes}
use vocabulary_micro.TableBuilder.Numbers.{IsNumbered}
use vocabulary_micro.TableBuilder.Phrases.{HasRow}
use vocabulary_micro.ParseAndSync.Summaries.{CallAnswer, answered, type_error, failure}
use vocabulary_micro.ParseAndSync.Progress.{RequestState}
use vocabulary_micro.ParseAndSync.Execute.Requests.{
  Interactor, ExecutionReport, parse_with_request_id,
}

module _ {Score : Type 0} (less : Score → Score → Bool) (zero_score : Score)
    (self : Interactor Score) where
  -- A report has a numbered table with a row for each of its phrasal verbs, and lists without
  -- repetitions, its request's resources have been released once, and its status code tells a
  -- failure; without a report the parser, its status or a sync has raised.
  abbrev pub IsReported : CallAnswer ExecutionReport × RequestState → Type 0
  IsReported (type_error e, p) =
      (parse_with_request_id self.parse ≡ type_error e) ⊎ (self.pipeline_status ≡ type_error e)
  IsReported (failure e, p) =
      (parse_with_request_id self.parse ≡ failure e)
      ⊎ ((self.pipeline_status ≡ failure e) ⊎ (p.raised ≡ some e))
  IsReported (answered r, p) =
      (p.raised ≡ none)
      × IsNumbered r.table
      × All (HasRow r.table) r.phrasal_verbs
      × Distinct r.added
      × Distinct r.already_existed
      × Distinct r.queued_for_sync
      × Distinct r.rejected_candidates
      × (r.ok ≡ (r.status_code == codes "ok"))
      × (r.releases ≡ 1)
