-- ===== src/DeleteStore/Laws.antt =====
-- The store as a set, and its snapshot.
use zvec.Base.{
  ℕ, ◌+◌, ◌-◌, ◌≤◌, ◌<◌, ◌^◌, ◌≡◌, refl, List, [], ◌∷◌, Bool, false, not, ◌||◌, length, ◌==◌,
  if◌then◌else◌, arith, All,
}
use zvec.Errors.{ok, Context}
use zvec.DeleteStore.{
  DeleteStore, member, add, without, is_deleted, mark_deleted, restore, count, count_between,
  range_count,
}

-- No ID is held twice.
abbrev pub Distinct : List ℕ → Type 0
Distinct [] = Unit {0}
Distinct (x ∷ xs) = (member x xs ≡ false) × Distinct xs

abbrev pub IsIdSet : DeleteStore → Type 0
IsIdSet s = Distinct s.deleted

pub member-add : (x y : ℕ) (xs : List ℕ) → member y (add x xs) ≡ x == y || member y xs
unfolding add member
member-add x y xs = ground arith

member-without :
    (x y : ℕ) (xs : List ℕ)
    → Distinct xs
    → member y (without x xs) ≡ (if x == y then false else member y xs)
unfolding without member
member-without x y [] d = ground arith
member-without x y (z ∷ xs) (n, d) = ground (arith, member-without x y xs d)

Distinct-without : (x : ℕ) (xs : List ℕ) → Distinct xs → Distinct (without x xs)
unfolding without
Distinct-without x [] d = tt
Distinct-without x (z ∷ xs) (n, d) =
    ground (arith, Distinct-without x xs d, member-without x z xs d)

-- A successful `MarkDeleted` on distinct IDs keeps them distinct, reports whether the document was not
-- yet a member, makes it one, changes no other membership, and counts it once.
pub mark_deleted_lem :
    (ctx : Context) (doc_id : ℕ) (s s' : DeleteStore) (changed : Bool)
    → IsIdSet s
    → mark_deleted ctx doc_id s ≡ ok (s', changed)
    → IsIdSet s'
      × (changed ≡ not (is_deleted s doc_id))
      × ((x : ℕ) → is_deleted s' x ≡ doc_id == x || is_deleted s x)
      × (count s' ≡ count s + (if is_deleted s doc_id then 0 else 1))
unfolding mark_deleted is_deleted count
mark_deleted_lem ctx doc_id s s' changed h e =
    (ground arith, ground arith, λ x. ground (arith, member-add doc_id x s.deleted), ground arith)

-- A successful `Restore` on distinct IDs keeps them distinct, reports whether the document was a
-- member, and ends the membership of that document alone.
pub restore_lem :
    (ctx : Context) (doc_id : ℕ) (s s' : DeleteStore) (changed : Bool)
    → IsIdSet s
    → restore ctx doc_id s ≡ ok (s', changed)
    → IsIdSet s'
      × (changed ≡ is_deleted s doc_id)
      × ((x : ℕ) → is_deleted s' x ≡ (if doc_id == x then false else is_deleted s x))
unfolding restore is_deleted
restore_lem ctx doc_id s s' changed h e =
    let now : s' ≡ record { deleted = without doc_id s.deleted } = ground arith in
    (
      rw now (Distinct-without doc_id s.deleted h),
      ground arith,
      λ x. rw now (member-without doc_id x s.deleted h),
    )

count_between-split :
    (low middle high : ℕ) (xs : List ℕ)
    → low ≤ middle
    → middle < high
    → count_between low middle xs + count_between (middle + 1) high xs ≡ count_between low high xs
unfolding count_between
count_between-split low middle high [] h k = omega arith
count_between-split low middle high (x ∷ xs) h k =
    ground (arith, count_between-split low middle high xs h k)

count_between-All :
    (high : ℕ) (xs : List ℕ) → All (λ x. x ≤ high) xs → count_between 0 high xs ≡ length xs
unfolding count_between
count_between-All high [] h = refl
count_between-All high (x ∷ xs) (hx, h) = ground (arith, count_between-All high xs h)

-- On IDs of 64 bits, `RangeCount` adds up over adjoining intervals, is zero on an empty one, and
-- over all the IDs it is `Count`.
pub range_count_lem :
    (s : DeleteStore)
    → All (λ x. x < 2 ^ 64) s.deleted
    → ((low middle high : ℕ)
        → low ≤ middle
        → middle < high
        → range_count s low middle + range_count s (middle + 1) high ≡ range_count s low high)
      × ((low high : ℕ) → high < low → range_count s low high ≡ 0)
      × (range_count s 0 (2 ^ 64 - 1) ≡ count s)
unfolding range_count count
range_count_lem s h = (
  λ low middle high a b. ground (arith, count_between-split low middle high s.deleted a b),
  λ low high a. ground arith,
  count_between-All (2 ^ 64 - 1) s.deleted (bounded s.deleted h),
)
  where
    bounded : (xs : List ℕ) → All (λ x. x < 2 ^ 64) xs → All (λ x. x ≤ 2 ^ 64 - 1) xs
    bounded [] u = tt
    bounded (x ∷ xs) (hx, u) = (omega arith, bounded xs u)
