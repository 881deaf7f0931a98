-- ===== src/Manager.antt =====
-- internal/db/segment_manager.go: the segments, the primary-key map and the deletions of a collection.
-- Go's map of segments is a list; each segment stands in it under its own ID. Locks, and methods on a
-- nil manager, are not modelled.
pub mod Apart
pub mod Ranges
pub mod Reads
use zvec.Base.{
  ℕ, zero, suc, ◌+◌, ◌-◌, ◌*◌, ◌/◌, List, [], ◌∷◌, ◌++◌, Bool, true, false, not, ◌||◌, ◌&&◌, Option,
  none, some, length, ltb, leb, ◌==◌, if◌then◌else◌, bytes_equal, map,
}
use zvec.Errors.{
  Error, Result, ok, err, ◌>>=◌, ◌>>◌, reject, cancelled, segment_not_found, segment_exists,
  writing_exists, range_overlap, rotation_changed, rotation_id_mismatch, next_reuses_id,
}
use zvec.PrimaryMap.{PrimaryKeyMap, DocumentLocation, get}
use zvec.DeleteStore.{DeleteStore, is_deleted}
use zvec.DeleteStore
use zvec.Segment.{
  StoredDocument, SegmentMetadata, WriteSegment, ImmutableSegment, reserved_range, document,
  immutable_document, metadata_of, stored_documents_memory_bytes, max_uint64,
}

pub record SegmentManager : Type 0 where
  pub immutable : List ImmutableSegment
  pub writing : Option WriteSegment
  pub primary_key : PrimaryKeyMap
  pub deletes : DeleteStore

unfoldable pub new_segment_manager : PrimaryKeyMap → DeleteStore → SegmentManager
new_segment_manager primary_key deletes = record {
  immutable = [];
  writing = none;
  primary_key = primary_key;
  deletes = deletes;
}

-- m.immutable[id]
unfoldable pub find_immutable : ℕ → List ImmutableSegment → Option ImmutableSegment
find_immutable id [] = none
find_immutable id (s ∷ segments) =
    if s.metadata.id == id then some s else find_immutable id segments

unfoldable pub exists : ℕ → List ImmutableSegment → Bool
exists id [] = false
exists id (s ∷ segments) = if s.metadata.id == id then true else exists id segments

unfoldable pub ranges_overlap : SegmentMetadata → SegmentMetadata → Bool
ranges_overlap left right =
    if left.doc_count == 0 || right.doc_count == 0
    then false
    else leb left.min_doc_id right.max_doc_id && leb right.min_doc_id left.max_doc_id

-- An inclusive range that a write segment reserves meets the documents of a segment.
unfoldable pub reserved_overlaps : ℕ × ℕ → SegmentMetadata → Bool
reserved_overlaps (low, high) metadata =
    ltb 0 metadata.doc_count && (leb low metadata.max_doc_id && leb metadata.min_doc_id high)

pub any_reserved_overlap : ℕ × ℕ → List ImmutableSegment → Bool
any_reserved_overlap range [] = false
any_reserved_overlap range (s ∷ segments) =
    if reserved_overlaps range s.metadata then true else any_reserved_overlap range segments

pub any_overlap : SegmentMetadata → ℕ → List ImmutableSegment → Bool
any_overlap candidate id [] = false
any_overlap candidate id (s ∷ segments) =
    if not (s.metadata.id == id) && ranges_overlap candidate s.metadata
    then true
    else any_overlap candidate id segments

check_range_against_immutable : SegmentMetadata → ℕ → SegmentManager → Result (Unit {0})
unfolding any_overlap
check_range_against_immutable candidate id m =
    reject (not (candidate.doc_count == 0) && any_overlap candidate id m.immutable) range_overlap

-- `m.writing != nil && m.writing.ID() == id`
pub writing_is : ℕ → Option WriteSegment → Bool
writing_is id none = false
writing_is id (some w) = w.id == id

pub overlaps_writing : SegmentMetadata → ℕ → Option WriteSegment → Bool
overlaps_writing candidate id none = false
overlaps_writing candidate id (some w) =
    let (low, high) = reserved_range w in
    not (w.id == id) && (leb candidate.min_doc_id high && leb low candidate.max_doc_id)

check_range : SegmentMetadata → ℕ → SegmentManager → Result (Unit {0})
unfolding any_overlap overlaps_writing
check_range candidate id m =
    reject
      (not (candidate.doc_count == 0)
        && (any_overlap candidate id m.immutable || overlaps_writing candidate id m.writing))
      range_overlap

unfoldable pub is_some {ℓ} : {A : Type ℓ} → Option A → Bool
is_some none = false
is_some (some a) = true

unfoldable pub set_writing : WriteSegment → SegmentManager → Result SegmentManager
unfolding is_some any_reserved_overlap
set_writing segment m = do
  reject (is_some m.writing) writing_exists
  reject (exists segment.id m.immutable) segment_exists
  reject (any_reserved_overlap (reserved_range segment) m.immutable) range_overlap
  ok (record m { writing = some segment })

-- The segment that was removed, and the manager.
pub clear_writing : SegmentManager → Option WriteSegment × SegmentManager
clear_writing m = (m.writing, record m { writing = none })

unfoldable pub rotate_writing :
    ℕ → ImmutableSegment → WriteSegment → SegmentManager → Result SegmentManager
unfolding writing_is any_reserved_overlap check_range_against_immutable
rotate_writing current_id segment next m = do
  reject (not (writing_is current_id m.writing)) rotation_changed
  reject (not (segment.metadata.id == current_id)) rotation_id_mismatch
  reject (next.id == current_id) next_reuses_id
  reject (exists current_id m.immutable) segment_exists
  reject (exists next.id m.immutable) segment_exists
  check_range_against_immutable segment.metadata current_id m
  reject (reserved_overlaps (reserved_range next) segment.metadata) range_overlap
  reject (any_reserved_overlap (reserved_range next) m.immutable) range_overlap
  ok (record m { immutable = segment ∷ m.immutable; writing = some next })

pub add_immutable : ImmutableSegment → SegmentManager → Result SegmentManager
unfolding writing_is check_range
add_immutable segment m = do
  reject (exists segment.metadata.id m.immutable || writing_is segment.metadata.id m.writing)
      segment_exists
  check_range segment.metadata segment.metadata.id m
  ok (record m { immutable = segment ∷ m.immutable })

pub delete_segment : ℕ → List ImmutableSegment → List ImmutableSegment
delete_segment id [] = []
delete_segment id (s ∷ segments) =
    if s.metadata.id == id then segments else s ∷ delete_segment id segments

unfoldable pub remove_immutable : ℕ → SegmentManager → Result (ImmutableSegment × SegmentManager)
unfolding find_immutable delete_segment
remove_immutable id m = elim (find_immutable id m.immutable) [
  | none ↦ err segment_not_found
  | some s ↦ ok (s, record m { immutable = delete_segment id m.immutable })
]

-- The loop of `Document` over the segments, in the order that the map gives.
pub find_document : ℕ → List ImmutableSegment → Option StoredDocument
find_document doc_id [] = none
find_document doc_id (s ∷ segments) =
    if leb s.metadata.min_doc_id doc_id && leb doc_id s.metadata.max_doc_id
    then immutable_document s doc_id
    else find_document doc_id segments

unfoldable pub document_in : ℕ → Option WriteSegment → Option StoredDocument
document_in doc_id none = none
document_in doc_id (some w) = document w doc_id

-- (*SegmentManager).Document
pub find : ℕ → SegmentManager → Option StoredDocument
unfolding find_document document_in
find doc_id m = if is_deleted m.deletes doc_id then none else elim (document_in doc_id m.writing) [
  | some d ↦ some d
  | none ↦ find_document doc_id m.immutable
]

at_location : DocumentLocation → SegmentManager → Option StoredDocument
unfolding writing_is document_in find_immutable
at_location location m =
    if writing_is location.segment_id m.writing
    then document_in location.doc_id m.writing
    else elim (find_immutable location.segment_id m.immutable) [
      | none ↦ none
      | some s ↦ immutable_document s location.doc_id
    ]

with_key : List ℕ → Option StoredDocument → Option StoredDocument
with_key key none = none
with_key key (some d) = if bytes_equal d.primary_key key then some d else none

unfoldable pub document_by_primary_key : List ℕ → SegmentManager → Option StoredDocument
unfolding at_location with_key
document_by_primary_key key m = elim (get m.primary_key key) [
  | none ↦ none
  | some location ↦
      if is_deleted m.deletes location.doc_id then none else with_key key (at_location location m)
]

pub record FetchResult : Type 0 where
  pub primary_key : List ℕ
  pub found : Option StoredDocument
  pub error : Option Error

failed_fetch : List ℕ → FetchResult
failed_fetch key = record { primary_key = key; found = none; error = some cancelled }

-- `Fetch`; `done n` tells whether the context is done at the poll for key `n`. The error of the batch
-- is the second part.
fetch_from : (ℕ → Bool) → ℕ → List (List ℕ) → SegmentManager → List FetchResult × Option Error
fetch_from done index [] m = ([], none)
fetch_from done index (key ∷ keys) m =
    let rest = fetch_from done (suc index) keys m in
    if done index then (failed_fetch key ∷ map failed_fetch keys, some cancelled) else (
      record { primary_key = key; found = document_by_primary_key key m; error = none } ∷ rest.0,
      rest.1,
    )

unfoldable pub fetch : (ℕ → Bool) → List (List ℕ) → SegmentManager → List FetchResult × Option Error
unfolding fetch_from failed_fetch
fetch done keys m = fetch_from done 0 keys m

unfoldable pub saturating_add : ℕ → ℕ → ℕ
saturating_add left right = if ltb (max_uint64 - left) right then max_uint64 else left + right

unfoldable pub saturating_multiply_by_eight : ℕ → ℕ
saturating_multiply_by_eight value = if ltb (max_uint64 / 8) value then max_uint64 else value * 8
