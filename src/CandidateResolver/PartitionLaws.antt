-- ===== src/CandidateResolver/PartitionLaws.antt =====
-- Which candidates `partition_sync_candidates` accepts, and which it rejects.
use vocabulary_micro.Prelude.{
  ◌≡◌, ◌∙◌, inl, inr, Bool, true, false, ◌&&◌, ◌||◌, not, Option, List, [], ◌∷◌, arith,
  if◌then◌else◌, Bool-cases, is_empty, any, All-unit, fold, fold-invariant, ◌==◌, nat_equality,
  list_beq_iff, list_equality, contains, Distinct, contains-append, Distinct-concat,
}
use vocabulary_micro.Text.{Text}
use vocabulary_micro.TextProcessor.Forms.{canonicalize_expression}
use vocabulary_micro.CandidateResolver.Partition.{
  add_once, is_accepted, partition_one, partition_sync_candidates,
}

add_once-Distinct : (xs : List Text) (x : Text) → Distinct xs → Distinct (add_once xs x)
unfolding add_once
add_once-Distinct xs x d = elim (Bool-cases (contains xs x)) [
  | inl e ↦ rw e d
  | inr e ↦ rw e (Distinct-concat xs x d e)
]

contains-add_once :
    (xs : List Text) (x y : Text) → contains (add_once xs x) y ≡ (contains xs y || x == y)
unfolding add_once
contains-add_once xs x y = elim (Bool-cases (contains xs x)) [
  | inl e ↦ rw e (seen_before xs x y e)
  | inr e ↦ rw e (unfold contains in ground (arith, contains-append xs (x ∷ []) y))
]
  where
    seen_before :
        (xs : List Text) (x y : Text)
        → contains xs x ≡ true
        → contains xs y ≡ (contains xs y || x == y)
    seen_before xs x y h = elim (Bool-cases (x == y)) [
      | inl e ↦
          let same : x ≡ y = (list_beq_iff nat_equality x y).0 e in
          let k : contains xs y ≡ true = rw same at h in ground (arith, k)
      | inr e ↦ ground (arith, e)
    ]

module _ (categories : Option (List (Text × Text))) where
  -- The canonical form of the candidate is `x`, and it is accepted, or it is rejected.
  abbrev pub gives : Bool → Text → Text → Bool
  gives verdict x c =
      let canonical = canonicalize_expression c [] in
      not (is_empty canonical)
      && ((if is_accepted categories c then verdict else not verdict) && canonical == x)

  partition_one-Distinct :
      (p : List Text × List Text) (c : Text)
      → Distinct p.0 × Distinct p.1
      → Distinct (partition_one categories p c).0 × Distinct (partition_one categories p c).1
  unfolding partition_one
  partition_one-Distinct p c d =
      let canonical = canonicalize_expression c [] in
      elim (Bool-cases (is_empty canonical)) [
        | inl e ↦ rw e d
        | inr e ↦ elim (Bool-cases (is_accepted categories c)) [
          | inl f ↦ rw (e, f) (add_once-Distinct p.0 canonical d.0, d.1)
          | inr f ↦ rw (e, f) (d.0, add_once-Distinct p.1 canonical d.1)
        ]
      ]

  contains-accepted :
      (p : List Text × List Text) (c x : Text)
      → contains (partition_one categories p c).0 x ≡ (contains p.0 x || gives true x c)
  unfolding partition_one
  contains-accepted p c x = ground (arith, contains-add_once p.0 (canonicalize_expression c []) x)

  contains-rejected :
      (p : List Text × List Text) (c x : Text)
      → contains (partition_one categories p c).1 x ≡ (contains p.1 x || gives false x c)
  unfolding partition_one
  contains-rejected p c x = ground (arith, contains-add_once p.1 (canonicalize_expression c []) x)

  fold-partition :
      (cs : List Text) (p : List Text × List Text) (x : Text)
      → (contains (fold (partition_one categories) p cs).0 x
          ≡ (contains p.0 x || any (gives true x) cs))
        × (contains (fold (partition_one categories) p cs).1 x
            ≡ (contains p.1 x || any (gives false x) cs))
  unfolding fold
  fold-partition [] p x = (ground arith, ground arith)
  fold-partition (c ∷ cs) p x =
      let rest = fold-partition cs (partition_one categories p c) x in
      (
        rest.0
            ∙ regroup (contains p.0 x) (gives true x c) (any (gives true x) cs)
                (contains-accepted p c x),
        rest.1
            ∙ regroup (contains p.1 x) (gives false x c) (any (gives false x) cs)
                (contains-rejected p c x),
      )
    where
      regroup : {a : Bool} (b c rest : Bool) → a ≡ (b || c) → (a || rest) ≡ (b || (c || rest))
      regroup b c rest h = ground (arith, h)

  -- No item is accepted twice or rejected twice. The accepted ones are the canonical forms of the
  -- candidates that may be added without review, the rejected ones those of all other candidates
  -- that have one.
  pub partition_sync_candidates_lem :
      (cs : List Text)
      → Distinct (partition_sync_candidates cs categories).0
        × Distinct (partition_sync_candidates cs categories).1
        × ((x : Text)
            → contains (partition_sync_candidates cs categories).0 x ≡ any (gives true x) cs)
        × ((x : Text)
            → contains (partition_sync_candidates cs categories).1 x ≡ any (gives false x) cs)
  unfolding partition_sync_candidates
  partition_sync_candidates_lem cs =
      let distinct : Distinct (fold (partition_one categories) ([], []) cs).0
          × Distinct (fold (partition_one categories) ([], []) cs).1 =
        fold-invariant (partition_one categories)
          (λ (p : List Text × List Text). Distinct p.0 × Distinct p.1) (λ c. Unit)
          (λ p c u d. partition_one-Distinct p c d) cs (All-unit cs) ([], []) (tt, tt) in
      (
        distinct.0,
        distinct.1,
        λ x. unfold contains in (fold-partition cs ([], []) x).0,
        λ x. unfold contains in (fold-partition cs ([], []) x).1,
      )
