-- ===== src/Transfer/Mirror/Insertion.antt =====
-- A sort that does what internal/transfer/mirror.go relies on in `sort.Slice`.
use mathlib.Core.List.Perm
use sfync.Base.{
  ◌≡◌, List, [], ◌∷◌, Perm, false, if◌then◌else◌, All, All-map, AllPairs, arith, Bool-cases, inl,
  inr,
}
use sfync.Transfer.Types.{MirrorEntry}
use sfync.Transfer.Mirror.Order.{Less, IsStrictWeakOrder, SliceSort}

module _ (less : Less) where
  unfoldable pub insert_sorted : MirrorEntry → List MirrorEntry → List MirrorEntry
  insert_sorted a [] = a ∷ []
  insert_sorted a (b ∷ l) = if less b a then b ∷ insert_sorted a l else a ∷ b ∷ l

  unfoldable pub insertion_sort : List MirrorEntry → List MirrorEntry
  unfolding insert_sorted
  insertion_sort [] = []
  insertion_sort (a ∷ l) = insert_sorted a (insertion_sort l)

  insert_sorted-perm : (a : MirrorEntry) (l : List MirrorEntry) → Perm (insert_sorted a l) (a ∷ l)
  unfolding insert_sorted
  insert_sorted-perm a [] = Perm.refl _
  insert_sorted-perm a (b ∷ l) = elim (Bool-cases (less b a)) [
    | inl e ↦ rw e (Perm.trans (Perm.cons b (insert_sorted-perm a l)) (Perm.swap a b l))
    | inr e ↦ rw e (Perm.refl _)
  ]

  pub insertion_sort-perm : (l : List MirrorEntry) → Perm (insertion_sort l) l
  unfolding insertion_sort
  insertion_sort-perm [] = Perm.refl []
  insertion_sort-perm (a ∷ l) =
      Perm.trans (insert_sorted-perm a (insertion_sort l)) (Perm.cons a (insertion_sort-perm l))

  abbrev pub NotLess : MirrorEntry → MirrorEntry → Type 0
  NotLess a b = less b a ≡ false

  insert_sorted-All :
      (c a : MirrorEntry) (l : List MirrorEntry)
      → NotLess c a
      → All (NotLess c) l
      → All (NotLess c) (insert_sorted a l)
  unfolding insert_sorted
  insert_sorted-All c a [] h k = (h, tt)
  insert_sorted-All c a (b ∷ l) h k = ground (arith, insert_sorted-All c a l h)

  module _ (w : IsStrictWeakOrder less) where
    insert_sorted-AllPairs :
        (a : MirrorEntry) (l : List MirrorEntry)
        → AllPairs NotLess l
        → AllPairs NotLess (insert_sorted a l)
    unfolding insert_sorted
    insert_sorted-AllPairs a [] h = (tt, tt)
    insert_sorted-AllPairs a (b ∷ l) h = elim (Bool-cases (less b a)) [
      | inl e ↦ rw e (
        insert_sorted-All b a l (ground (arith, w.transitive a b a, w.irreflexive a)) h.0,
        insert_sorted-AllPairs a l h.1,
      )
      | inr e ↦ rw e ((e, All-map l (λ c k. w.ties_transitive c b a k e) h.0), h)
    ]

    pub insertion_sort-AllPairs : (l : List MirrorEntry) → AllPairs NotLess (insertion_sort l)
    unfolding insertion_sort
    insertion_sort-AllPairs [] = tt
    insertion_sort-AllPairs (a ∷ l) =
        insert_sorted-AllPairs a (insertion_sort l) (insertion_sort-AllPairs l)

pub insertion : SliceSort
insertion = record {
  slice = insertion_sort;
  slice-perm = insertion_sort-perm;
  slice_sorted = λ less l w. insertion_sort-AllPairs less w l;
}
