-- ===== src/Manager/Apart.antt =====
-- internal/db/segment_manager.go: segments that share no ID and no document ID, and the list of them when
-- one is added or removed.
use zvec.Base.{
  ℕ, ◌+◌, ◌-◌, ◌%◌, ◌^◌, ◌≤◌, ◌<◌, ◌≢◌, ◌++◌, ap, All, ◌≡◌, refl, List, [], ◌∷◌, false, not, ◌&&◌,
  Option, none, some, ◌==◌, arith, Bool-cases, inl, inr,
}
use zvec.Segment.{SegmentMetadata, WriteSegment, ImmutableSegment, reserved_range}
use zvec.Manager.{
  exists, ranges_overlap, reserved_overlaps, any_reserved_overlap, any_overlap, overlaps_writing,
  writing_is, delete_segment, find_immutable,
}

-- The documents of a segment, by its metadata
abbrev pub Holds : ℕ → SegmentMetadata → Type 0
Holds doc_id s = (s.doc_count ≢ 0) × (s.min_doc_id ≤ doc_id) × (doc_id ≤ s.max_doc_id)

-- The document IDs that a write segment may give
abbrev pub Reserves : ℕ → WriteSegment → Type 0
Reserves doc_id w = (w.min_doc_id ≤ doc_id) × (doc_id < w.min_doc_id + w.max_docs)

-- Another ID, and no document ID in common.
abbrev pub Apart : SegmentMetadata → List ImmutableSegment → Type 0
Apart candidate [] = Unit {0}
Apart candidate (s ∷ segments) =
    (s.metadata.id ≢ candidate.id)
    × ((doc_id : ℕ) → ¬ (Holds doc_id candidate × Holds doc_id s.metadata))
    × Apart candidate segments

abbrev pub PairwiseApart : List ImmutableSegment → Type 0
PairwiseApart [] = Unit {0}
PairwiseApart (s ∷ segments) = Apart s.metadata segments × PairwiseApart segments

abbrev pub ApartFromWriting : WriteSegment → List ImmutableSegment → Type 0
ApartFromWriting w [] = Unit {0}
ApartFromWriting w (s ∷ segments) =
    (s.metadata.id ≢ w.id)
    × ((doc_id : ℕ) → ¬ (Reserves doc_id w × Holds doc_id s.metadata))
    × ApartFromWriting w segments

-- The IDs that a write segment may give are words of 64 bits, as in those of `NewWriteSegment`.
abbrev pub HasWordRange : WriteSegment → Type 0
HasWordRange w = w.min_doc_id + w.max_docs ≤ 2 ^ 64

abbrev pub WritingApart : Option WriteSegment → List ImmutableSegment → Type 0
WritingApart none segments = Unit {0}
WritingApart (some w) segments = HasWordRange w × ApartFromWriting w segments

-- The source's test of two ranges, on a document that both hold
overlap_shared :
    (a b : SegmentMetadata) (doc_id : ℕ)
    → ranges_overlap a b ≡ false
    → ¬ (Holds doc_id a × Holds doc_id b)
unfolding ranges_overlap
overlap_shared a b doc_id e ((n, l, h), (n', l', h')) = ground arith

pub reserved_shared :
    (w : WriteSegment) (s : SegmentMetadata) (doc_id : ℕ)
    → HasWordRange w
    → reserved_overlaps (reserved_range w) s ≡ false
    → ¬ (Reserves doc_id w × Holds doc_id s)
unfolding reserved_overlaps reserved_range
reserved_shared w s doc_id fits e ((l, h), (n, l', h')) =
    let wraps : (w.min_doc_id + w.max_docs + 2 ^ 64 - 1) % 2 ^ 64 ≡ w.min_doc_id + w.max_docs - 1 =
      omega arith in
    ground arith

pub Apart-new :
    (candidate : SegmentMetadata) (segments : List ImmutableSegment)
    → exists candidate.id segments ≡ false
    → not (candidate.doc_count == 0) && any_overlap candidate candidate.id segments ≡ false
    → Apart candidate segments
unfolding exists any_overlap ranges_overlap
Apart-new candidate [] e o = tt
Apart-new candidate (s ∷ segments) e o = (
  ground arith,
  λ doc_id (a, b). overlap_shared candidate s.metadata doc_id (ground arith) (a, b),
  Apart-new candidate segments (ground arith) (ground arith),
)

pub ApartFromWriting-new :
    (w : WriteSegment) (segments : List ImmutableSegment)
    → exists w.id segments ≡ false
    → any_reserved_overlap (reserved_range w) segments ≡ false
    → HasWordRange w
    → ApartFromWriting w segments
unfolding exists any_reserved_overlap
ApartFromWriting-new w [] e o fits = tt
ApartFromWriting-new w (s ∷ segments) e o fits = (
  ground arith,
  λ doc_id (a, b). reserved_shared w s.metadata doc_id fits (ground arith) (a, b),
  ApartFromWriting-new w segments (ground arith) (ground arith) fits,
)

pub WritingApart-new :
    (writing : Option WriteSegment) (s : ImmutableSegment) (segments : List ImmutableSegment)
    → writing_is s.metadata.id writing ≡ false
    → not (s.metadata.doc_count == 0) && overlaps_writing s.metadata s.metadata.id writing ≡ false
    → WritingApart writing segments
    → WritingApart writing (s ∷ segments)
unfolding writing_is overlaps_writing reserved_overlaps
WritingApart-new none s segments a b h = tt
WritingApart-new (some w) s segments new clear (fits, h) = (
  fits,
  (
    ground arith,
    λ doc_id (a, b). reserved_shared w s.metadata doc_id fits (ground arith) (a, b),
    h,
  ),
)

Apart-delete :
    (candidate : SegmentMetadata) (id : ℕ) (segments : List ImmutableSegment)
    → Apart candidate segments
    → Apart candidate (delete_segment id segments)
unfolding delete_segment
Apart-delete candidate id [] a = tt
Apart-delete candidate id (s ∷ segments) (e, o, a) = elim (Bool-cases (s.metadata.id == id)) [
  | inl same ↦ rw same a
  | inr other ↦ rw other (e, o, Apart-delete candidate id segments a)
]

pub PairwiseApart-delete :
    (id : ℕ) (segments : List ImmutableSegment)
    → PairwiseApart segments
    → PairwiseApart (delete_segment id segments)
unfolding delete_segment
PairwiseApart-delete id [] p = tt
PairwiseApart-delete id (s ∷ segments) (a, p) = elim (Bool-cases (s.metadata.id == id)) [
  | inl same ↦ rw same p
  | inr other ↦ rw other (Apart-delete s.metadata id segments a, PairwiseApart-delete id segments p)
]

ApartFromWriting-delete :
    (w : WriteSegment) (id : ℕ) (segments : List ImmutableSegment)
    → ApartFromWriting w segments
    → ApartFromWriting w (delete_segment id segments)
unfolding delete_segment
ApartFromWriting-delete w id [] a = tt
ApartFromWriting-delete w id (s ∷ segments) (e, o, a) = elim (Bool-cases (s.metadata.id == id)) [
  | inl same ↦ rw same a
  | inr other ↦ rw other (e, o, ApartFromWriting-delete w id segments a)
]

-- The places of a segment in the list before and after the removal of an ID, and no other has the ID
pub record Removed (id : ℕ) (s : ImmutableSegment) (segments rest : List ImmutableSegment)
    : Type 0 where
  pub front : List ImmutableSegment
  pub back : List ImmutableSegment
  pub held : segments ≡ front ++ (s ∷ back)
  pub left : rest ≡ front ++ back
  pub found : s.metadata.id ≡ id
  pub others : All (λ t. t.metadata.id ≢ id) (front ++ back)

Apart-others :
    (candidate : SegmentMetadata) (segments : List ImmutableSegment)
    → Apart candidate segments
    → All (λ t. t.metadata.id ≢ candidate.id) segments
Apart-others candidate [] a = tt
Apart-others candidate (s ∷ segments) (e, o, a) = (e, Apart-others candidate segments a)

pub delete-Removed :
    (id : ℕ) (s : ImmutableSegment) (segments : List ImmutableSegment)
    → PairwiseApart segments
    → find_immutable id segments ≡ some s
    → Removed id s segments (delete_segment id segments)
unfolding find_immutable delete_segment
delete-Removed id s [] p f = absurd (ground arith)
delete-Removed id s (x ∷ segments) (a, p) f = elim (Bool-cases (x.metadata.id == id)) [
  | inl same ↦
      let first : x ≡ s = ground arith in
      let named : x.metadata.id ≡ id = ground arith in
      rw same (record {
        front = [];
        back = segments;
        held = rw first refl;
        left = refl;
        found = rw first at named;
        others = rw named at (Apart-others x.metadata segments a);
      })
  | inr other ↦
      let later = delete-Removed id s segments p (ground arith) in
      rw other (record {
        front = x ∷ later.front;
        back = later.back;
        held = ap (λ t. x ∷ t) later.held;
        left = ap (λ t. x ∷ t) later.left;
        found = later.found;
        others = (ground arith, later.others);
      })
]

pub WritingApart-delete :
    (writing : Option WriteSegment) (id : ℕ) (segments : List ImmutableSegment)
    → WritingApart writing segments
    → WritingApart writing (delete_segment id segments)
WritingApart-delete none id segments h = tt
WritingApart-delete (some w) id segments (fits, h) = (fits, ApartFromWriting-delete w id segments h)
