-- ===== src/ParseAndSync/Progress/Laws.antt =====
-- What the passes of a request add to the lexicon, one after the other.
use mathlib.Core.Path.{subst}
use vocabulary_micro.Prelude.{
  sym, ap, ◌∙◌, map, none, append-nil, option_case, ℕ, ◌≡◌, refl, Bool, true, false, ◌||◌, Option,
  List, [], ◌∷◌, ◌++◌, arith, ||_false, if_case, All, All-append, All-map, ◌==◌, nat_equality,
  list_equality, pair_equality, contains, Distinct, contains-append,
}
use vocabulary_micro.Text.{Text, same_text}
use vocabulary_micro.CandidateResolver.{SyncIndex}
use vocabulary_micro.CandidateResolver.Sync.{SyncState, is_known, start_sync, sync_candidates}
use vocabulary_micro.CandidateResolver.Stored.{entries_of, entries_of-append, values_of}
use vocabulary_micro.CandidateResolver.SyncLaws.{
  map-append, IsSynced, sync_start, sync_candidates_lem,
}
use vocabulary_micro.ThirdPass.Upsert.{MweRecord, upsert_mwe_records_from_occurrences}
use vocabulary_micro.ParseAndSync.Summaries.{PassSummary}
use vocabulary_micro.ParseAndSync.Progress.{
  unless_raised, behind_sync, RequestState, Syncing, uses_queue, index_behind, sync_by_queue,
  sync_directly, sync_accepted, sync_later, pass_candidates, extend_rejected, add_mwe_records,
  sync_second_pass, sync_third_pass,
}

absent : (x : Text) (ys : List Text) → All (λ y. (x == y) ≡ false) ys → contains ys x ≡ false
unfolding contains
absent x [] h = refl
absent x (y ∷ ys) h = ground (arith, h.0, same_text x y, same_text y x, absent x ys h.1)

pub Distinct-append :
    (xs ys : List Text)
    → Distinct xs
    → Distinct ys
    → All (λ y. contains xs y ≡ false) ys
    → Distinct (xs ++ ys)
unfolding contains
Distinct-append [] ys d e h = e
Distinct-append (x ∷ xs) ys d e h = (
  ground (
    arith,
    contains-append xs ys x,
    d.0,
    absent x ys (All-map (λ y k. (||_false (x == y) (contains xs y) k).0) ys h),
  ),
  Distinct-append xs ys d.1 e (All-map (λ y k. (||_false (x == y) (contains xs y) k).1) ys h),
)

front-Distinct : (xs ys : List Text) → Distinct (xs ++ ys) → Distinct xs
front-Distinct [] ys d = tt
front-Distinct (x ∷ xs) ys d = (
  (||_false (contains xs x) (contains ys x) (sym (contains-append xs ys x) ∙ d.0)).0,
  front-Distinct xs ys d.1,
)

front_all : (P : Text → Type 0) (xs ys : List Text) → All P (xs ++ ys) → All P xs
front_all P [] ys h = tt
front_all P (x ∷ xs) ys h = (h.0, front_all P xs ys h.1)

-- The terms that a request has entered: none twice, and none that the index has. Unless an error has
-- left the request, they are those it has added, and known to the passes that follow.
pub record IsFresh (index : SyncIndex) (p : RequestState) : Type 0 where
  pub distinct : Distinct (values_of p.repository_calls)
  pub fresh : All (λ c. is_known (sync_start index) c ≡ false) (values_of p.repository_calls)
  pub reported : p.raised ≡ none → p.added ≡ values_of p.repository_calls
  pub learned :
      p.raised ≡ none
      → (x : Text)
      → is_known (sync_start p.known_terms_index) x
        ≡ (is_known (sync_start index) x || contains (values_of p.repository_calls) x)

known_behind :
    (index : SyncIndex) (s : SyncState) (x : Text)
    → is_known (sync_start (index_behind index s)) x ≡ is_known s x
unfolding is_known start_sync
known_behind index s x = refl

module _ (sync : Syncing) where
  -- What each of the four changes of a request's progress keeps.
  pub record IsKept (P : RequestState → Type 0) : Type 0 where
    pub by_queue :
        (categories : Option (List (Text × Text))) (accepted : List Text) (p : RequestState)
        → P p
        → P (sync_by_queue sync categories accepted p).0
    pub directly :
        (late : ℕ → Bool) (categories : Option (List (Text × Text))) (accepted : List Text)
        (p : RequestState)
        → p.raised ≡ none
        → P p
        → P (sync_directly sync late categories accepted p).0
    pub rejecting : (p : RequestState) (xs : List Text) → P p → P (extend_rejected p xs)
    pub recording :
        (p : RequestState) (records : List MweRecord) → P p → P (add_mwe_records p records)

  module _ (P : RequestState → Type 0) (kept : IsKept P) where
    pub sync_accepted-IsKept :
        (late : ℕ → Bool) (categories : Option (List (Text × Text))) (accepted : List Text)
        (p : RequestState)
        → p.raised ≡ none
        → P p
        → P (sync_accepted sync late categories accepted p).0
    unfolding sync_accepted
    sync_accepted-IsKept late categories accepted p n h =
        if_case (λ r. P r.0) (uses_queue sync p.async_queue)
          (sync_by_queue sync categories accepted p) (sync_directly sync late categories accepted p)
          (λ c. kept.by_queue categories accepted p h)
          (λ c. kept.directly late categories accepted p n h)

    sync_later-IsKept :
        (late : ℕ → Bool) (categories : Option (List (Text × Text))) (accepted : List Text)
        (p : RequestState)
        → p.raised ≡ none
        → P p
        → P (sync_later sync late categories accepted p).0
    unfolding sync_later
    sync_later-IsKept late categories [] p n h = h
    sync_later-IsKept late categories (c ∷ cs) p n h =
        sync_accepted-IsKept late categories (c ∷ cs) p n h

    behind_sync-IsKept :
        (p : RequestState) (summary : PassSummary) (next : RequestState × PassSummary)
        → P p
        → P next.0
        → P (behind_sync p summary next).0
    behind_sync-IsKept p summary next h k =
        option_case (λ (x : RequestState × PassSummary). P x.0) p.raised next
          (λ (e : Text). (p, summary)) (λ e. k) (λ e m. h)

    pub sync_second_pass-IsKept :
        (should_sync : Bool) (late : ℕ → Bool) (summary : PassSummary) (p : RequestState)
        → p.raised ≡ none
        → P p
        → P (sync_second_pass sync should_sync late summary p).0
    unfolding sync_second_pass
    sync_second_pass-IsKept false late summary p n h = h
    sync_second_pass-IsKept true late summary p n h =
        let c = pass_candidates sync summary.occurrences in
        let done = (sync_later sync late c.1 c.0.0 p).0 in
        let synced = sync_later-IsKept late c.1 c.0.0 p n h in
        behind_sync-IsKept done summary _ synced (kept.rejecting done c.0.1 synced)

    pub sync_third_pass-IsKept :
        (should_sync : Bool) (late : ℕ → Bool) (summary : PassSummary) (p : RequestState)
        → p.raised ≡ none
        → P p
        → P (sync_third_pass sync should_sync late summary p).0
    unfolding sync_third_pass
    sync_third_pass-IsKept false late summary p n h =
        kept.rejecting p (pass_candidates sync summary.occurrences).0.1 h
    sync_third_pass-IsKept true late summary p n h =
        let c = pass_candidates sync summary.occurrences in
        let done = (sync_later sync late c.1 c.0.0 p).0 in
        let synced = sync_later-IsKept late c.1 c.0.0 p n h in
        let upserts =
          upsert_mwe_records_from_occurrences sync.mwe_available sync.mwe_succeeds
            sync.max_gap_tokens summary.occurrences in
        behind_sync-IsKept done summary _ synced (
          kept.rejecting (add_mwe_records done upserts.1) c.0.1
            (kept.recording done upserts.1 synced))

  sync_directly-IsFresh :
      (index : SyncIndex) (late : ℕ → Bool) (categories : Option (List (Text × Text)))
      (accepted : List Text) (p : RequestState)
      → p.raised ≡ none
      → IsFresh index p
      → IsFresh index (sync_directly sync late categories accepted p).0
  unfolding sync_directly
  sync_directly-IsFresh index late categories accepted p n h =
      let r =
        sync_candidates sync.create_category sync.auto_add_category categories late sync.repository
          p.known_terms_index accepted in
      let lem =
        sync_candidates_lem sync.create_category sync.auto_add_category categories late
          sync.repository p.known_terms_index accepted in
      let new : IsSynced (sync_start p.known_terms_index) r.0 = lem.0 in
      let entered = lem.1.entered in
      let old = values_of p.repository_calls in
      let made = values_of r.1.0 in
      let rest = map (λ (e : Text × Text). e.1) entered.rest in
      let values : values_of (p.repository_calls ++ r.1.0) ≡ old ++ made =
        ap (map (λ (e : Text × Text). e.1)) (entries_of-append p.repository_calls r.1.0)
        ∙ map-append (λ (e : Text × Text). e.1) (entries_of p.repository_calls)
            (entries_of r.1.0) in
      let split : r.0.added ≡ made ++ rest =
        sym new.inserted
        ∙ ap (map (λ (e : Text × Text). e.1)) entered.split
        ∙ map-append (λ (e : Text × Text). e.1) (entries_of r.1.0) entered.rest in
      let unknown : All (λ c. is_known (sync_start p.known_terms_index) c ≡ false) made =
        front_all (λ c. is_known (sync_start p.known_terms_index) c ≡ false) made rest
          (subst (All (λ c. is_known (sync_start p.known_terms_index) c ≡ false)) split
            new.fresh) in
      let all_made : r.1.1 ≡ none → r.0.added ≡ made = λ e.
        split
        ∙ ap (λ l. made ++ map (λ (e : Text × Text). e.1) l) (entered.whole e)
        ∙ append-nil made in
      record {
        distinct = rw values (
            Distinct-append old made h.distinct
              (front-Distinct made rest (subst Distinct split new.distinct))
              (All-map (λ c k. ground (arith, h.learned n c, k)) made unknown));
        fresh = rw values (
            All-append (λ c. is_known (sync_start index) c ≡ false) old made h.fresh
              (All-map (λ c k. ground (arith, h.learned n c, k)) made unknown));
        reported = λ e.
            ap (λ o. unless_raised o p.added r.0.added) e
            ∙ ap (λ l. l ++ r.0.added) (h.reported n)
            ∙ ap (λ l. old ++ l) (all_made e)
            ∙ sym values;
        learned = λ e x. ground (
          arith,
          known_behind p.known_terms_index r.0 x,
          new.learned x,
          h.learned n x,
          ap (λ l. contains l x) (all_made e),
          ap (λ l. contains l x) values,
          contains-append old made x,
        );
      }

  pub IsFresh-IsKept : (index : SyncIndex) → IsKept (IsFresh index)
  unfolding sync_by_queue
  IsFresh-IsKept index = record {
    by_queue = λ categories accepted p h. record {
      distinct = h.distinct;
      fresh = h.fresh;
      reported = h.reported;
      learned = h.learned;
    };
    directly = sync_directly-IsFresh index;
    rejecting = λ p xs h. record {
      distinct = h.distinct;
      fresh = h.fresh;
      reported = h.reported;
      learned = h.learned;
    };
    recording = λ p records h. record {
      distinct = h.distinct;
      fresh = h.fresh;
      reported = h.reported;
      learned = h.learned;
    };
  }
