-- ===== src/Manager/Ranges.antt =====
-- internal/db/segment_manager.go: the IDs and the document ranges of the segments.
use zvec.Base.{ℕ, ◌≡◌, refl, ◌∷◌, some, arith}
use zvec.Errors.{ok}
use zvec.Segment.{WriteSegment, ImmutableSegment}
use zvec.Manager.{
  SegmentManager, set_writing, clear_writing, rotate_writing, add_immutable, delete_segment,
  remove_immutable,
}
use zvec.Manager.Apart.{
  HasWordRange, PairwiseApart, Removed, WritingApart, Apart-new, ApartFromWriting-new,
  WritingApart-new, reserved_shared, PairwiseApart-delete, WritingApart-delete, delete-Removed,
}

pub record IsPartition (m : SegmentManager) : Type 0 where
  pub pairwise : PairwiseApart m.immutable
  pub from_writing : WritingApart m.writing m.immutable

set_writing-IsPartition :
    (w : WriteSegment) (m m' : SegmentManager)
    → IsPartition m
    → HasWordRange w
    → set_writing w m ≡ ok m'
    → IsPartition m'
unfolding set_writing
set_writing-IsPartition w m m' h fits e =
    let now : m' ≡ record m { writing = some w } = ground arith in
    rw now (record {
      pairwise = h.pairwise;
      from_writing = (fits, ApartFromWriting-new w m.immutable (ground arith) (ground arith) fits);
    })

rotate_writing-IsPartition :
    (current_id : ℕ) (s : ImmutableSegment) (w : WriteSegment) (m m' : SegmentManager)
    → IsPartition m
    → HasWordRange w
    → rotate_writing current_id s w m ≡ ok m'
    → IsPartition m' × (m'.immutable ≡ s ∷ m.immutable) × (m'.writing ≡ some w)
unfolding rotate_writing
rotate_writing-IsPartition current_id s w m m' h fits e =
    let now : m' ≡ record m { immutable = s ∷ m.immutable; writing = some w } = ground arith in
    let same : s.metadata.id ≡ current_id = ground arith in
    rw now (
      record {
        pairwise = (Apart-new s.metadata m.immutable (ground arith) (ground arith), h.pairwise);
        from_writing = (
          fits,
          (
            ground arith,
            λ doc_id (a, b). reserved_shared w s.metadata doc_id fits (ground arith) (a, b),
            ApartFromWriting-new w m.immutable (ground arith) (ground arith) fits,
          ),
        );
      },
      refl,
      refl,
    )

add_immutable-IsPartition :
    (s : ImmutableSegment) (m m' : SegmentManager)
    → IsPartition m
    → add_immutable s m ≡ ok m'
    → IsPartition m'
unfolding add_immutable
add_immutable-IsPartition s m m' h e =
    let now : m' ≡ record m { immutable = s ∷ m.immutable } = ground arith in
    rw now (record {
      pairwise = (Apart-new s.metadata m.immutable (ground arith) (ground arith), h.pairwise);
      from_writing =
          WritingApart-new m.writing s m.immutable (ground arith) (ground arith) h.from_writing;
    })

-- In a manager whose segments are apart, a successful `RemoveImmutable` returns the one segment that has
-- the ID and takes it out of the segments: the others stay, in their order, apart and without the ID,
-- and nothing else of the manager changes.
pub remove_immutable_lem :
    (id : ℕ) (s : ImmutableSegment) (m m' : SegmentManager)
    → IsPartition m
    → remove_immutable id m ≡ ok (s, m')
    → IsPartition m'
      × Removed id s m.immutable m'.immutable
      × (m' ≡ record m { immutable = m'.immutable })
unfolding remove_immutable
remove_immutable_lem id s m m' h e =
    let now : m' ≡ record m { immutable = delete_segment id m.immutable } = ground arith in
    (
      rw now (record {
        pairwise = PairwiseApart-delete id m.immutable h.pairwise;
        from_writing = WritingApart-delete m.writing id m.immutable h.from_writing;
      }),
      rw now (delete-Removed id s m.immutable h.pairwise (ground arith)),
      rw now refl,
    )

-- One successful operation on the segments; a write segment that it sets reserves words of 64 bits.
pub data Step : SegmentManager → SegmentManager → Type 0 where
  set :
      {m m' : SegmentManager} (w : WriteSegment)
      → HasWordRange w
      → set_writing w m ≡ ok m'
      → Step m m'
  clear : (m : SegmentManager) → Step m (clear_writing m).1
  rotate :
      {m m' : SegmentManager} (id : ℕ) (s : ImmutableSegment) (w : WriteSegment)
      → HasWordRange w
      → rotate_writing id s w m ≡ ok m'
      → Step m m'
  add : {m m' : SegmentManager} (s : ImmutableSegment) → add_immutable s m ≡ ok m' → Step m m'
  remove :
      {m m' : SegmentManager} (id : ℕ) (s : ImmutableSegment)
      → remove_immutable id m ≡ ok (s, m')
      → Step m m'

pub data Reach (m : SegmentManager) : SegmentManager → Type 0 where
  here : Reach m m
  next : {n k : SegmentManager} → Reach m n → Step n k → Reach m k

Step-IsPartition : {m m' : SegmentManager} → Step m m' → IsPartition m → IsPartition m'
Step-IsPartition (set {m = m} {m' = m'} w fits e) h = set_writing-IsPartition w m m' h fits e
Step-IsPartition (clear m) h =
    unfold clear_writing in record { pairwise = h.pairwise; from_writing = tt }
Step-IsPartition (rotate {m = m} {m' = m'} id s w fits e) h =
    (rotate_writing-IsPartition id s w m m' h fits e).0
Step-IsPartition (add {m = m} {m' = m'} s e) h = add_immutable-IsPartition s m m' h e
Step-IsPartition (remove {m = m} {m' = m'} id s e) h = (remove_immutable_lem id s m m' h e).0

-- After any sequence of successful `SetWriting`, `ClearWriting`, `RotateWriting`, `AddImmutable` and
-- `RemoveImmutable` from a manager whose segments are apart, the segments are apart: no two have an
-- ID in common or hold one document ID, and none has the write segment's ID or holds a document ID that
-- the write segment may give. The IDs that a write segment may give are assumed to be words of 64 bits,
-- as `NewWriteSegment` makes sure.
pub Reach-IsPartition : {m m' : SegmentManager} → IsPartition m → Reach m m' → IsPartition m'
Reach-IsPartition h here = h
Reach-IsPartition h (next r st) = Step-IsPartition st (Reach-IsPartition h r)
