-- ===== src/CandidateResolver/SyncLaws.antt =====
-- What the loop of `sync_candidates` adds, and what it leaves.
use vocabulary_micro.Prelude.{
  pair_equality, ℕ, suc, ◌+◌, ◌-◌, ◌≤◌, ◌≡◌, refl, sym, ap, ◌∙◌, inl, inr, Bool, true, false, ◌&&◌,
  ◌||◌, Option, List, [], ◌∷◌, ◌++◌, map, arith, ltb, Bool-cases, ||_false, length, take, all,
  length-append, All, All-append, ◌==◌, nat_equality, list_beq_iff, list_equality, beq_refl,
  contains, Distinct, contains-append, Distinct-concat,
}
use vocabulary_micro.Text.{Text}
use vocabulary_micro.CandidateResolver.{SyncIndex}
use vocabulary_micro.CandidateResolver.Stored.{IsStored, store-IsStored}
use vocabulary_micro.CandidateResolver.Sync.{
  SyncRepository, SyncState, has_space, is_known, start_sync, add_candidate, sync_one, sync_from,
  sync_candidates,
}

-- The state of the loop, against the state `o` at its beginning.
pub record IsSynced (o s : SyncState) : Type 0 where
  pub distinct : Distinct s.added
  pub fresh : All (λ c. is_known o c ≡ false) s.added
  pub learned : (x : Text) → is_known s x ≡ (is_known o x || contains s.added x)
  pub inserted : map (λ (e : Text × Text). e.1) s.to_insert ≡ s.added

-- The candidates that the loop has dealt with.
abbrev dealt_with : SyncState → ℕ
dealt_with s = length s.added + length s.already_existed

-- How far the loop came from `s`, by its final state `r`: the candidates that it dealt with are
-- known then, and it is late exactly if some are left.
pub record Progress (cs : List Text) (s r : SyncState) : Type 0 where
  pub forward : dealt_with s ≤ dealt_with r
  pub bounded : dealt_with r ≤ dealt_with s + length cs
  pub known : all (is_known r) (take (dealt_with r - dealt_with s) cs) ≡ true
  late_iff : r.timed_out ≡ ltb (dealt_with r) (dealt_with s + length cs)

pub map-append {ℓ κ} :
    {A : Type ℓ} {B : Type κ} (f : A → B) (xs ys : List A) → map f (xs ++ ys) ≡ map f xs ++ map f ys
map-append f [] ys = refl
map-append f (x ∷ xs) ys = ap (λ zs. f x ∷ zs) (map-append f xs ys)

learns :
    (before now : Bool) (added : List Text) (c x : Text)
    → now ≡ (before || contains added x)
    → (now || c == x) ≡ (before || contains (added ++ c ∷ []) x)
unfolding contains
learns before now added c x h = ground (arith, h, contains-append added (c ∷ []) x)

is_known_already :
    (s : SyncState) (a : List Text) (x : Text)
    → is_known (record s { already_existed = a }) x ≡ is_known s x
unfolding is_known
is_known_already s a x = refl

is_known_late :
    (s : SyncState) (x : Text) → is_known (record s { timed_out = true }) x ≡ is_known s x
unfolding is_known
is_known_late s x = refl

known_again :
    (s : SyncState) (c x : Text) → is_known s c ≡ true → is_known s x ≡ (is_known s x || c == x)
known_again s c x h = elim (Bool-cases (c == x)) [
  | inl e ↦
      let same : c ≡ x = (list_beq_iff nat_equality c x).0 e in
      let k : is_known s x ≡ true = rw same at h in ground (arith, k, e)
  | inr e ↦ ground (arith, e)
]

module _ (create : Text → Option (List Text)) (auto : Text)
    (categories : Option (List (Text × Text))) where
  add_candidate-is_known :
      (s : SyncState) (c x : Text)
      → is_known (add_candidate create auto categories s c) x ≡ (is_known s x || c == x)
  unfolding add_candidate is_known contains
  add_candidate-is_known s c x = elim (Bool-cases (c == x)) [
    | inl e ↦
        let same : c ≡ x = (list_beq_iff nat_equality c x).0 e in
        let spaced : has_space c ≡ has_space x = ap (λ t. has_space t) same in
        ground (arith, e, spaced)
    | inr e ↦ ground (arith, e)
  ]

  add_candidate-IsSynced :
      (o s : SyncState) (c : Text)
      → IsSynced o s
      → is_known s c ≡ false
      → IsSynced o (add_candidate create auto categories s c)
  unfolding add_candidate
  add_candidate-IsSynced o s c h k =
      let parts = ||_false (is_known o c) (contains s.added c) (sym (h.learned c) ∙ k) in
      record {
        distinct = Distinct-concat s.added c h.distinct parts.1;
        fresh = All-append (λ c. is_known o c ≡ false) s.added (c ∷ []) h.fresh (parts.0, tt);
        learned = λ x.
            add_candidate-is_known s c x
            ∙ learns (is_known o x) (is_known s x) s.added c x (h.learned x);
        inserted =
            map-append (λ (e : Text × Text). e.1) s.to_insert ((_, c) ∷ [])
            ∙ ap (λ xs. xs ++ c ∷ []) h.inserted;
      }

  sync_one-IsSynced :
      (o s : SyncState) (c : Text) → IsSynced o s → IsSynced o (sync_one create auto categories s c)
  unfolding sync_one
  sync_one-IsSynced o s c h = elim (Bool-cases (is_known s c)) [
    | inl e ↦
        let kept : IsSynced o (record s { already_existed = s.already_existed ++ c ∷ [] }) =
          record {
            distinct = h.distinct;
            fresh = h.fresh;
            learned = λ x. is_known_already s (s.already_existed ++ c ∷ []) x ∙ h.learned x;
            inserted = h.inserted;
          } in
        rw e kept
    | inr e ↦ rw e (add_candidate-IsSynced o s c h e)
  ]

  sync_one-learns :
      (s : SyncState) (c x : Text)
      → is_known (sync_one create auto categories s c) x ≡ (is_known s x || c == x)
  unfolding sync_one
  sync_one-learns s c x = elim (Bool-cases (is_known s c)) [
    | inl e ↦ rw e (is_known_already s (s.already_existed ++ c ∷ []) x ∙ known_again s c x e)
    | inr e ↦ rw e (add_candidate-is_known s c x)
  ]

  sync_one-dealt_with :
      (s : SyncState) (c : Text)
      → dealt_with (sync_one create auto categories s c) ≡ dealt_with s + 1
  unfolding sync_one add_candidate
  sync_one-dealt_with s c = elim (Bool-cases (is_known s c)) [
    | inl e ↦ rw e (omega (arith, length-append s.already_existed (c ∷ [])))
    | inr e ↦ rw e (omega (arith, length-append s.added (c ∷ [])))
  ]

  sync_from-IsSynced :
      (cs : List Text) (late : ℕ → Bool) (i : ℕ) (o s : SyncState)
      → IsSynced o s
      → IsSynced o (sync_from create auto categories cs late i s)
  unfolding sync_from
  sync_from-IsSynced [] late i o s h = h
  sync_from-IsSynced (c ∷ cs) late i o s h =
      let rest =
        sync_from-IsSynced cs late (i + 1) o (sync_one create auto categories s c)
          (sync_one-IsSynced o s c h) in
      elim (Bool-cases (late i)) [
        | inl e ↦
            let stopped : IsSynced o (record s { timed_out = true }) = record {
              distinct = h.distinct;
              fresh = h.fresh;
              learned = λ x. is_known_late s x ∙ h.learned x;
              inserted = h.inserted;
            } in
            rw e stopped
        | inr e ↦ rw e rest
      ]

  sync_from-keeps :
      (cs : List Text) (late : ℕ → Bool) (i : ℕ) (s : SyncState) (x : Text)
      → is_known s x ≡ true
      → is_known (sync_from create auto categories cs late i s) x ≡ true
  unfolding sync_from
  sync_from-keeps [] late i s x h = h
  sync_from-keeps (c ∷ cs) late i s x h =
      let next = sync_one create auto categories s c in
      let rest =
        sync_from-keeps cs late (i + 1) next x (ground (arith, sync_one-learns s c x, h)) in
      elim (Bool-cases (late i)) [ inl e ↦ rw e (is_known_late s x ∙ h) | inr e ↦ rw e rest ]

  sync_one-timed_out :
      (s : SyncState) (c : Text) → (sync_one create auto categories s c).timed_out ≡ s.timed_out
  unfolding sync_one add_candidate
  sync_one-timed_out s c = ground arith

  sync_from-Progress :
      (cs : List Text) (late : ℕ → Bool) (i : ℕ) (s : SyncState)
      → s.timed_out ≡ false
      → Progress cs s (sync_from create auto categories cs late i s)
  unfolding sync_from
  sync_from-Progress [] late i s t = record {
    forward = omega arith;
    bounded = omega arith;
    known = ground arith;
    late_iff = ground (arith, t);
  }
  sync_from-Progress (c ∷ cs) late i s t =
      let next = sync_one create auto categories s c in
      let r = sync_from create auto categories cs late (i + 1) next in
      let p = sync_from-Progress cs late (i + 1) next (sync_one-timed_out s c ∙ t) in
      let one = sync_one-dealt_with s c in
      let seen : is_known next c ≡ true = ground (arith, sync_one-learns s c c, beq_refl c) in
      let none_left : dealt_with s - dealt_with s ≡ 0 = omega arith in
      let one_more : dealt_with r - dealt_with s ≡ suc (dealt_with r - dealt_with next) =
        omega (arith, one, p.forward) in
      let total : dealt_with next + length cs ≡ dealt_with s + suc (length cs) =
        omega (arith, one) in
      let both : (is_known r c && all (is_known r) (take (dealt_with r - dealt_with next) cs))
          ≡ true =
        ground (arith, sync_from-keeps cs late (i + 1) next c seen, p.known) in
      elim (Bool-cases (late i)) [
        | inl e ↦ rw e (record {
          forward = omega arith;
          bounded = omega arith;
          known =
              ap (λ n. all (is_known (record s { timed_out = true })) (take n (c ∷ cs))) none_left;
          late_iff = ground arith;
        })
        | inr e ↦ rw e (record {
          forward = omega (arith, one, p.forward);
          bounded = omega (arith, one, p.bounded);
          known = ap (λ n. all (is_known r) (take n (c ∷ cs))) one_more ∙ both;
          late_iff = p.late_iff ∙ ap (λ n. ltb (dealt_with r) n) total;
        })
      ]

abbrev pub sync_start : SyncIndex → SyncState
sync_start index = start_sync index.existing_single index.existing_multi index.existing_categories

pub sync_candidates_lem :
    (create : Text → Option (List Text)) (auto : Text) (categories : Option (List (Text × Text)))
    (late : ℕ → Bool) (repository : SyncRepository) (index : SyncIndex) (cs : List Text)
    → (let r = sync_candidates create auto categories late repository index cs in
        IsSynced (sync_start index) r.0 × IsStored r.0 r.1 × Progress cs (sync_start index) r.0)
unfolding sync_candidates start_sync
sync_candidates_lem create auto categories late repository index cs =
    let o = sync_start index in
    let begun : IsSynced o o = record {
      distinct = tt;
      fresh = tt;
      learned = λ x. unfold contains in ground arith;
      inserted = refl;
    } in
    let synced = sync_from-IsSynced create auto categories cs late 0 o o begun in
    (
      synced,
      store-IsStored repository (sync_from create auto categories cs late 0 o) synced.inserted,
      sync_from-Progress create auto categories cs late 0 o refl,
    )
