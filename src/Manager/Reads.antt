-- ===== src/Manager/Reads.antt =====
-- internal/db/segment_manager.go: finding documents, and the order of Go's map.
use zvec.Base.{ℕ, ◌≤◌, ◌<◌, ◌≡◌, List, [], ◌∷◌, false, none, some, arith, All}
use zvec.Segment.{ImmutableSegment, immutable_document}
use zvec.DeleteStore.{is_deleted}
use zvec.Manager.{SegmentManager, find_immutable, find_document, find, document_in}
use zvec.Manager.Apart.{Apart, PairwiseApart}
use zvec.Manager.Ranges.{IsPartition}

abbrev NonEmpty : ImmutableSegment → Type 0
NonEmpty s = 0 < s.metadata.doc_count

abbrev Covers : ImmutableSegment → ℕ → Type 0
Covers s doc_id = (s.metadata.min_doc_id ≤ doc_id) × (doc_id ≤ s.metadata.max_doc_id)

Apart-Covers :
    (s : ImmutableSegment) (id doc_id : ℕ) (segments : List ImmutableSegment) (t : ImmutableSegment)
    → NonEmpty s
    → All NonEmpty segments
    → Apart s.metadata segments
    → find_immutable id segments ≡ some t
    → Covers t doc_id
    → Covers s doc_id
    → ⊥
unfolding find_immutable
Apart-Covers s id doc_id [] t n ns a f c d = cc
Apart-Covers s id doc_id (u ∷ segments) t n (nu, ns) (e, o, a) f c d =
    ground (arith, Apart-Covers s id doc_id segments t n ns a, o doc_id)

find_document-Covers :
    (id doc_id : ℕ) (segments : List ImmutableSegment) (t : ImmutableSegment)
    → All NonEmpty segments
    → PairwiseApart segments
    → find_immutable id segments ≡ some t
    → Covers t doc_id
    → find_document doc_id segments ≡ immutable_document t doc_id
unfolding find_immutable find_document
find_document-Covers id doc_id [] t n p f c = cc
find_document-Covers id doc_id (s ∷ segments) t (n, ns) (a, p) f c = ground (
  arith,
  Apart-Covers s id doc_id segments t n ns a,
  find_document-Covers id doc_id segments t ns p,
)

-- In a manager whose segments are apart, a document ID that is not deleted and not in the write
-- segment is looked up in the one segment whose range holds it, wherever the map lists that segment.
-- Every immutable segment is assumed to hold a document, as those that `Seal` and
-- `OpenImmutableSegment` make do.
pub find_lem :
    (id doc_id : ℕ) (m : SegmentManager) (s : ImmutableSegment)
    → IsPartition m
    → All NonEmpty m.immutable
    → is_deleted m.deletes doc_id ≡ false
    → document_in doc_id m.writing ≡ none
    → find_immutable id m.immutable ≡ some s
    → Covers s doc_id
    → find doc_id m ≡ immutable_document s doc_id
unfolding find
find_lem id doc_id m s h n live absent f c =
    rw (live, absent) (find_document-Covers id doc_id m.immutable s n h.pairwise f c)
