-- ===== src/CandidateResolver/Stored.antt =====
-- The calls that `sync_candidates` makes of the repository, and where an error leaves them.
use vocabulary_micro.Prelude.{
  append_assoc, append-nil, ◌⊎◌, none, some, is_empty, pair_equality, ◌≡◌, refl, sym, ap, ◌∙◌, inl,
  inr, List, [], ◌∷◌, ◌++◌, map, arith, Bool-cases, nat_equality, list_equality,
}
use vocabulary_micro.Text.{Text}
use vocabulary_micro.CandidateResolver.Sync.{
  RepositoryCall, add_entries, add_entry, add_plain_entry, save, RepositoryAnswer, stored, rejects,
  raises, SyncRepository, Calls, call_once, then_calls, enter_one, enter_each, enter_all, store,
  SyncState,
}

-- The entries that calls make.
abbrev pub entries_of : List RepositoryCall → List (Text × Text)
entries_of [] = []
entries_of (add_entries es ∷ calls) = es ++ entries_of calls
entries_of (add_entry category value ∷ calls) = (category, value) ∷ entries_of calls
entries_of (add_plain_entry category value ∷ calls) = (category, value) ∷ entries_of calls
entries_of (save ∷ calls) = entries_of calls

pub entries_of-append :
    (xs ys : List RepositoryCall) → entries_of (xs ++ ys) ≡ entries_of xs ++ entries_of ys
entries_of-append [] ys = refl
entries_of-append (add_entries es ∷ xs) ys =
    ap (λ l. es ++ l) (entries_of-append xs ys)
    ∙ sym (append_assoc es (entries_of xs) (entries_of ys))
entries_of-append (add_entry c v ∷ xs) ys = ap (λ l. (c, v) ∷ l) (entries_of-append xs ys)
entries_of-append (add_plain_entry c v ∷ xs) ys = ap (λ l. (c, v) ∷ l) (entries_of-append xs ys)
entries_of-append (save ∷ xs) ys = entries_of-append xs ys

-- The values that calls enter.
abbrev pub values_of : List RepositoryCall → List Text
values_of calls = map (λ (e : Text × Text). e.1) (entries_of calls)

-- Calls that enter the first of the entries, all of them if no error leaves the calls.
pub record AreEntered (es : List (Text × Text)) (c : Calls) : Type 0 where
  pub rest : List (Text × Text)
  pub split : es ≡ entries_of c.0 ++ rest
  pub whole : c.1 ≡ none → rest ≡ []

call_once-AreEntered :
    (e : Text × Text) (call : RepositoryCall) (answer : RepositoryAnswer)
    → entries_of (call ∷ []) ≡ e ∷ []
    → AreEntered (e ∷ []) (call_once call answer)
call_once-AreEntered e call stored h = record {
  rest = [];
  split = sym (ap (λ l. l ++ []) h);
  whole = λ k. refl;
}
call_once-AreEntered e call (rejects m) h = record {
  rest = e ∷ [];
  split = refl;
  whole = λ k. absurd (ground (arith, k));
}
call_once-AreEntered e call (raises m) h = record {
  rest = e ∷ [];
  split = refl;
  whole = λ k. absurd (ground (arith, k));
}

then_calls-AreEntered :
    (xs ys : List (Text × Text)) (c d : Calls)
    → AreEntered xs c
    → AreEntered ys d
    → AreEntered (xs ++ ys) (then_calls c d)
then_calls-AreEntered xs ys (calls, none) d h k = record {
  rest = k.rest;
  split =
      ap (λ l. l ++ ys)
        (h.split ∙ ap (λ l. entries_of calls ++ l) (h.whole refl) ∙ append-nil (entries_of calls))
      ∙ ap (λ l. entries_of calls ++ l) k.split
      ∙ sym (append_assoc (entries_of calls) (entries_of d.0) k.rest)
      ∙ ap (λ l. l ++ k.rest) (sym (entries_of-append calls d.0));
  whole = k.whole;
}
then_calls-AreEntered xs ys (calls, some e) d h k = record {
  rest = h.rest ++ ys;
  split = ap (λ l. l ++ ys) h.split ∙ append_assoc (entries_of calls) h.rest ys;
  whole = λ q. absurd (ground (arith, q));
}

module _ (repository : SyncRepository) where
  enter_one-AreEntered :
      (e : Text × Text) (answer : RepositoryAnswer)
      → AreEntered (e ∷ []) (enter_one repository e answer)
  enter_one-AreEntered e stored = record { rest = []; split = refl; whole = λ k. refl }
  enter_one-AreEntered e (rejects m) =
      call_once-AreEntered e (add_plain_entry e.0 e.1) (repository.answer_plain_entry e.0 e.1) refl
  enter_one-AreEntered e (raises m) = record {
    rest = e ∷ [];
    split = refl;
    whole = λ k. absurd (ground (arith, k));
  }

  enter_each-AreEntered : (es : List (Text × Text)) → AreEntered es (enter_each repository es)
  unfolding enter_each
  enter_each-AreEntered [] = record { rest = []; split = refl; whole = λ k. refl }
  enter_each-AreEntered (e ∷ es) =
      then_calls-AreEntered (e ∷ []) es (enter_one repository e (repository.answer_entry e.0 e.1))
        (enter_each repository es) (enter_one-AreEntered e (repository.answer_entry e.0 e.1))
        (enter_each-AreEntered es)

  enter_all-AreEntered :
      (es : List (Text × Text)) (answer : RepositoryAnswer)
      → AreEntered es (enter_all repository es answer)
  enter_all-AreEntered es stored = record {
    rest = [];
    split = sym (append-nil (es ++ []) ∙ append-nil es);
    whole = λ k. refl;
  }
  enter_all-AreEntered es (rejects m) = enter_each-AreEntered es
  enter_all-AreEntered es (raises m) = record {
    rest = es;
    split = refl;
    whole = λ k. absurd (ground (arith, k));
  }

save-AreEntered : (answer : RepositoryAnswer) → AreEntered [] (call_once save answer)
save-AreEntered stored = record { rest = []; split = refl; whole = λ k. refl }
save-AreEntered (rejects m) = record { rest = []; split = refl; whole = λ k. refl }
save-AreEntered (raises m) = record { rest = []; split = refl; whole = λ k. refl }

-- The last call is a save.
abbrev pub IsSaved : List RepositoryCall → Type 0
IsSaved calls = (front : List RepositoryCall) × (calls ≡ front ++ save ∷ [])

then_calls-IsSaved :
    (c : Calls) (answer : RepositoryAnswer)
    → (then_calls c (call_once save answer)).1 ≡ none
    → IsSaved (then_calls c (call_once save answer)).0
then_calls-IsSaved (calls, none) stored h = (calls, refl)
then_calls-IsSaved (calls, none) (rejects e) h = absurd (ground (arith, h))
then_calls-IsSaved (calls, none) (raises e) h = absurd (ground (arith, h))
then_calls-IsSaved (calls, some e) answer h = absurd (ground (arith, h))

no_values : (es : List (Text × Text)) → map (λ (e : Text × Text). e.1) es ≡ [] → es ≡ []
no_values [] h = refl
no_values (e ∷ es) h = absurd (ground (arith, h))

-- The calls of the repository enter the first of what is added, in order and once, and without an
-- error all of it, saved.
pub record IsStored (s : SyncState) (c : Calls) : Type 0 where
  pub entered : AreEntered s.to_insert c
  saved : c.1 ≡ none → (s.added ≡ []) ⊎ IsSaved c.0

pub store-IsStored :
    (repository : SyncRepository) (s : SyncState)
    → map (λ (e : Text × Text). e.1) s.to_insert ≡ s.added
    → IsStored s (store repository s)
unfolding store
store-IsStored repository s h = elim (Bool-cases (is_empty s.added)) [
  | inl e ↦
      let nothing : s.added ≡ [] = ground (arith, e) in
      let nothing_entered : AreEntered s.to_insert ([], none) = record {
        rest = [];
        split = no_values s.to_insert (h ∙ nothing);
        whole = λ k. refl;
      } in
      let done : IsStored s ([], none) = record {
        entered = nothing_entered;
        saved = λ k. inl nothing;
      } in
      rw e done
  | inr e ↦
      let c = enter_all repository s.to_insert (repository.answer_entries s.to_insert) in
      let saves = call_once save (repository.answer_save s.to_insert) in
      let both : AreEntered (s.to_insert ++ []) (then_calls c saves) =
        then_calls-AreEntered s.to_insert [] c saves
          (enter_all-AreEntered repository s.to_insert (repository.answer_entries s.to_insert))
          (save-AreEntered (repository.answer_save s.to_insert)) in
      let done : IsStored s (then_calls c saves) = record {
        entered = rw (append-nil s.to_insert) at both;
        saved = λ k. inr (then_calls-IsSaved c (repository.answer_save s.to_insert) k);
      } in
      rw e done
]
