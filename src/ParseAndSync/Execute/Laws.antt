-- ===== src/ParseAndSync/Execute/Laws.antt =====
-- What `execute` of parse_and_sync.py adds to the lexicon.
use vocabulary_micro.Prelude.{
  none, option_case, ◌≡◌, refl, Bool, true, false, Option, List, [], arith, if_case, is_empty,
  nat_equality, list_equality, pair_equality, contains,
}
use vocabulary_micro.Text.{Text, strip}
use vocabulary_micro.TextProcessor.Tokens.{ParsedToken}
use vocabulary_micro.TextProcessor.Forms.{unique, unique_from}
use vocabulary_micro.SyncQueue.{Queue}
use vocabulary_micro.CandidateResolver.{load_sync_index_state}
use vocabulary_micro.CandidateResolver.Enqueue.{AsyncSyncJob}
use vocabulary_micro.ParseAndSync.Summaries.{
  PassSummary, CallAnswer, answered, type_error, failure, run_second_pass, run_third_pass,
}
use vocabulary_micro.ParseAndSync.Progress.{RequestState, sync_second_pass, sync_third_pass}
use vocabulary_micro.ParseAndSync.Progress.Laws.{
  IsFresh, IsKept, IsFresh-IsKept, sync_accepted-IsKept, sync_second_pass-IsKept,
  sync_third_pass-IsKept,
}
use vocabulary_micro.ParseAndSync.Execute.{
  unless_failed, with_pipeline_status, known_of, result_table, final_report, start_progress,
  sync_first_pass, second_pass_step, third_pass_policy, third_pass_step, process_tokens,
  handle_parsed, execute,
}
use vocabulary_micro.ParseAndSync.Execute.Requests.{
  ParseRequest, Interactor, ExecutionReport, Parsed, parse_error, parsed_tokens,
  parse_with_request_id, or_setting, failed_report,
}

unique_nil : (xs : List Text) → xs ≡ [] → unique xs ≡ []
unfolding unique unique_from
unique_nil xs h = rw h refl

module _ {Score : Type 0} (less : Score → Score → Bool) (zero_score : Score)
    (self : Interactor Score) where
  -- What the start has, and every change of the progress keeps, holds at the end of each request.
  module _ (P : RequestState → Type 0) (kept : IsKept self.syncing P)
      (queue : Option (Queue AsyncSyncJob))
      (start : (rejected : List Text)
        → P (start_progress less zero_score self queue rejected)) where
    sync_first_pass-IsKept :
        (should_sync : Bool) (tokens : List ParsedToken)
        → P (sync_first_pass less zero_score self should_sync queue tokens).0
    unfolding sync_first_pass
    sync_first_pass-IsKept false tokens = start _
    sync_first_pass-IsKept true tokens =
        sync_accepted-IsKept self.syncing P kept (self.late 0) _ _ _ refl (start _)

    second_pass_step-IsKept :
        (should_sync requested : Bool) (p : RequestState)
        → p.raised ≡ none
        → P p
        → P (second_pass_step less zero_score self should_sync requested p).0
    unfolding second_pass_step
    second_pass_step-IsKept should_sync false p n h = h
    second_pass_step-IsKept should_sync true p n h =
        sync_second_pass-IsKept self.syncing P kept should_sync (self.late 1)
          (run_second_pass self.parse_mwe) p n h

    third_pass_step-IsKept :
        (should_sync third_requested second_requested has_timeout : Bool) (second : PassSummary)
        (p : RequestState)
        → p.raised ≡ none
        → P p
        → P
            (third_pass_step less zero_score self should_sync third_requested second_requested
              has_timeout second p).0
    unfolding third_pass_step
    third_pass_step-IsKept should_sync false second_requested has_timeout second p n h = h
    third_pass_step-IsKept should_sync true second_requested has_timeout second p n h =
        if_case (λ r. P r.0)
          (third_pass_policy less zero_score self true second_requested second).allowed
          (sync_third_pass self.syncing should_sync (self.late 2)
            (run_third_pass self.keyword_error self.detect_third has_timeout) p)
          _
          (λ c.
            sync_third_pass-IsKept self.syncing P kept should_sync (self.late 2)
              (run_third_pass self.keyword_error self.detect_third has_timeout) p n h)
          (λ c. h)

    unless_failed-IsKept :
        (p : RequestState) (next : CallAnswer ExecutionReport × RequestState)
        → P p
        → (p.raised ≡ none → P next.1)
        → P (unless_failed less zero_score self p next).1
    unless_failed-IsKept p next h k =
        option_case (λ (x : CallAnswer ExecutionReport × RequestState). P x.1) p.raised next
          (λ (e : Text). (failure e, p)) k (λ e m. h)

    process_tokens-IsKept :
        (should_sync second_requested third_requested has_timeout : Bool)
        (tokens : List ParsedToken)
        → P
            (process_tokens less zero_score self should_sync second_requested third_requested
              has_timeout queue tokens).1
    unfolding process_tokens
    process_tokens-IsKept should_sync second_requested third_requested has_timeout tokens =
        let first = sync_first_pass-IsKept should_sync tokens in
        unless_failed-IsKept _ _ first (λ n.
          let second = second_pass_step-IsKept should_sync second_requested _ n first in
          unless_failed-IsKept _ _ second (λ m.
            let third =
              third_pass_step-IsKept should_sync third_requested second_requested has_timeout _ _ m
                second in
            unless_failed-IsKept _ _ third (λ k. third)))

    handle_parsed-IsKept :
        (should_sync second_requested third_requested has_timeout : Bool)
        (parsed : CallAnswer Parsed)
        → P
            (handle_parsed less zero_score self should_sync second_requested third_requested
              has_timeout queue parsed).1
    unfolding handle_parsed
    handle_parsed-IsKept a b c d (type_error e) = start []
    handle_parsed-IsKept a b c d (failure e) = start []
    handle_parsed-IsKept a b c d (answered (parse_error message)) = start []
    handle_parsed-IsKept a b c d (answered (parsed_tokens tokens)) =
        process_tokens-IsKept a b c d tokens

    execute-IsKept : (r : ParseRequest) → P (execute less zero_score self r queue).1
    unfolding execute
    execute-IsKept r =
        if_case (λ (x : CallAnswer ExecutionReport × RequestState). P x.1) (is_empty (strip r.text))
          _ _ (λ c. start []) (λ c. handle_parsed-IsKept _ _ _ _ (parse_with_request_id self.parse))

  -- Whatever the three passes propose and wherever an error of the repository leaves the request, the
  -- calls of the repository that succeed enter no term twice and none that the index which the
  -- request has loaded holds. Without such an error they enter exactly the added terms, and these
  -- are what the known terms gain from pass to pass.
  pub execute-IsFresh :
      (r : ParseRequest) (queue : Option (Queue AsyncSyncJob))
      → IsFresh
          (load_sync_index_state self.index self.listed_categories)
          (execute less zero_score self r queue).1
  execute-IsFresh r queue =
      let index = load_sync_index_state self.index self.listed_categories in
      execute-IsKept (IsFresh index) (IsFresh-IsKept self.syncing index) queue
        (λ rejected. record {
          distinct = tt;
          fresh = tt;
          reported = λ n. refl;
          learned = λ n x. unfold contains in ground arith;
        })
        r

  -- A request that has changed nothing: it told the repositories nothing and left the queue as it
  -- was.
  abbrev pub IsUnchanged : Option (Queue AsyncSyncJob) → RequestState → Type 0
  IsUnchanged queue p =
      (p.repository_calls ≡ [])
      × (p.mwe_records ≡ [])
      × (p.async_queue ≡ queue)
      × (p.added ≡ [])
      × (p.queued_for_sync ≡ [])

  -- A report without an added and without a queued term; there is none where a call has raised.
  abbrev pub TellsNothing : CallAnswer ExecutionReport → Type 0
  TellsNothing (answered r) = (r.added ≡ []) × (r.queued_for_sync ≡ []) × (r.sync_enabled ≡ false)
  TellsNothing (type_error e) = Unit
  TellsNothing (failure e) = Unit

  abbrev pub IsReadOnly :
      Option (Queue AsyncSyncJob) → CallAnswer ExecutionReport × RequestState → Type 0
  IsReadOnly queue x = IsUnchanged queue x.1 × TellsNothing x.0

  with_pipeline_status-TellsNothing :
      (status : CallAnswer Unit) (r : ExecutionReport)
      → TellsNothing (answered r)
      → TellsNothing (with_pipeline_status less zero_score self status r)
  with_pipeline_status-TellsNothing (answered u) r h = h
  with_pipeline_status-TellsNothing (type_error e) r h = tt
  with_pipeline_status-TellsNothing (failure e) r h = tt

  unless_failed-IsReadOnly :
      (queue : Option (Queue AsyncSyncJob)) (p : RequestState)
      (next : CallAnswer ExecutionReport × RequestState)
      → IsUnchanged queue p
      → IsReadOnly queue next
      → IsReadOnly queue (unless_failed less zero_score self p next)
  unless_failed-IsReadOnly queue p next h k =
      option_case (IsReadOnly queue) p.raised next (λ (e : Text). (failure e, p)) (λ n. k)
        (λ e m. (h, tt))

  third_pass_step-IsReadOnly :
      (third_requested second_requested has_timeout : Bool) (queue : Option (Queue AsyncSyncJob))
      (second : PassSummary) (p : RequestState)
      → IsUnchanged queue p
      → IsUnchanged queue
          (third_pass_step less zero_score self false third_requested second_requested has_timeout
            second p).0
  unfolding third_pass_step sync_third_pass
  third_pass_step-IsReadOnly false second_requested has_timeout queue second p h = h
  third_pass_step-IsReadOnly true second_requested has_timeout queue second p h =
      if_case (λ (r : RequestState × PassSummary). IsUnchanged queue r.0)
        (third_pass_policy less zero_score self true second_requested second).allowed _ _ (λ c. h)
        (λ c. h)

  second_pass_step-IsReadOnly :
      (requested : Bool) (queue : Option (Queue AsyncSyncJob)) (p : RequestState)
      → IsUnchanged queue p
      → IsUnchanged queue (second_pass_step less zero_score self false requested p).0
  unfolding second_pass_step sync_second_pass
  second_pass_step-IsReadOnly false queue p h = h
  second_pass_step-IsReadOnly true queue p h = h

  handle_parsed-IsReadOnly :
      (should_sync second_requested third_requested has_timeout : Bool)
      (queue : Option (Queue AsyncSyncJob)) (parsed : CallAnswer Parsed)
      → should_sync ≡ false
      → IsReadOnly queue (
          handle_parsed less zero_score self should_sync second_requested third_requested
            has_timeout queue parsed)
  unfolding handle_parsed process_tokens sync_first_pass final_report failed_report
  handle_parsed-IsReadOnly true b c d queue parsed h = absurd (ground (arith, h))
  handle_parsed-IsReadOnly false b c d queue (type_error e) h = ((refl, refl, refl, refl, refl), tt)
  handle_parsed-IsReadOnly false b c d queue (failure e) h = ((refl, refl, refl, refl, refl), tt)
  handle_parsed-IsReadOnly false b c d queue (answered (parse_error message)) h = (
    (refl, refl, refl, refl, refl),
    with_pipeline_status-TellsNothing self.pipeline_status _ (refl, refl, refl),
  )
  handle_parsed-IsReadOnly false b c d queue (answered (parsed_tokens tokens)) h =
      let first = (sync_first_pass less zero_score self false queue tokens).0 in
      let second = second_pass_step less zero_score self false b first in
      let third = third_pass_step less zero_score self false c b d second.1 second.0 in
      let h2 : IsUnchanged queue second.0 =
        second_pass_step-IsReadOnly b queue first (refl, refl, refl, refl, refl) in
      let h3 : IsUnchanged queue third.0 =
        third_pass_step-IsReadOnly c b d queue second.1 second.0 h2 in
      let known = known_of less zero_score self false queue in
      let table = result_table less zero_score self tokens known second.1 third.1 in
      let stage = (sync_first_pass less zero_score self false queue tokens).1 in
      let report =
        final_report less zero_score self tokens false table stage second.1 third.1 third.0 in
      let end : CallAnswer ExecutionReport × RequestState =
        (with_pipeline_status less zero_score self self.pipeline_status report, third.0) in
      let last = unless_failed less zero_score self third.0 end in
      unless_failed-IsReadOnly queue first (unless_failed less zero_score self second.0 last)
        (refl, refl, refl, refl, refl)
        (unless_failed-IsReadOnly queue second.0 last h2 (
          unless_failed-IsReadOnly queue third.0 end h3 (
            h3,
            with_pipeline_status-TellsNothing self.pipeline_status report
                (unique_nil third.0.added h3.3, unique_nil third.0.queued_for_sync h3.4, refl),
          )))

  -- A request without sync, by its argument or by the setting where it has none, tells the
  -- repositories nothing and leaves the queue as it was, and a report it ends with names no term as
  -- added or queued and tells that there was no sync.
  pub execute-IsReadOnly :
      (r : ParseRequest) (queue : Option (Queue AsyncSyncJob))
      → or_setting r.sync self.auto_sync_enabled ≡ false
      → IsReadOnly queue (execute less zero_score self r queue)
  unfolding execute failed_report
  execute-IsReadOnly r queue h =
      if_case (IsReadOnly queue) (is_empty (strip r.text)) _ _
        (λ c. ((refl, refl, refl, refl, refl), (refl, refl, h)))
        (λ c.
          handle_parsed-IsReadOnly (or_setting r.sync self.auto_sync_enabled) _ _ _ queue
            (parse_with_request_id self.parse) h)
