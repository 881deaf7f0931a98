-- ===== src/Examples/Segments.antt =====
-- internal/db/segment.go, segment_manager.go, snapshot.go: a write segment of two documents, the
-- immutable segment that it seals to, and a manager that rotates.
use zvec.Base.{ℕ, ◌≡◌, refl, List, [], ◌∷◌, ◌++◌, false, none, some, arith}
use zvec.Errors.{ok, live_ctx}
use zvec.Go.Utf8.{valid_string}
use zvec.PrimaryMap.{validate_primary_key, new_primary_key_map}
use zvec.DeleteStore.{is_deleted}
use zvec.Segment.{
  StoredDocument, SegmentMetadata, WriteSegment, ImmutableSegment, new_write_segment,
  append_document, document, immutable_document, segment_metadata, reserved_range,
}
use zvec.Segment.Laws.{
  IsSegment, Makes, new_write_segment_lem, Appended, append_document-Appended,
  immutable_document-document,
}
use zvec.Segment.Codec.{
  encode_segment, decode_segment, check_documents, validate_stored_document, segment_header,
  segment_records,
}
use zvec.Segment.Codec.RoundTrip.{decode-encode_segment, never}
use zvec.Manager.{
  SegmentManager, set_writing, rotate_writing, remove_immutable, find_immutable, find, document_in,
  exists, reserved_overlaps, ranges_overlap,
}
use zvec.Manager.Apart.{Removed}
use zvec.Manager.Ranges.{
  IsPartition, Reach, here, next, set, rotate, Reach-IsPartition, remove_immutable_lem,
}
use zvec.Manager.Reads.{find_lem}
use zvec.Snapshot.{encode_snapshot, decode_snapshot, snapshot_header}
use zvec.Snapshot.RoundTrip.{decode-encode_snapshot}
use zvec.Examples.Keys.{key_a, key_b}

abbrev document_a : StoredDocument
document_a = record { doc_id = 10; primary_key = key_a; payload = 1 ∷ 2 ∷ [] }

abbrev pub document_b : StoredDocument
document_b = record { doc_id = 11; primary_key = key_b; payload = [] }

abbrev empty_segment : WriteSegment
empty_segment = record { id = 1; min_doc_id = 10; max_docs = 2; docs = []; sealed = false }

abbrev pub half_segment : WriteSegment
half_segment = record {
  id = 1;
  min_doc_id = 10;
  max_docs = 2;
  docs = document_a ∷ [];
  sealed = false;
}

abbrev pub full_segment : WriteSegment
full_segment = record {
  id = 1;
  min_doc_id = 10;
  max_docs = 2;
  docs = document_a ∷ document_b ∷ [];
  sealed = false;
}

made : new_write_segment 1 10 2 ≡ ok empty_segment
unfolding new_write_segment
made = refl

new_write_segment_lem_example : Makes 1 10 2 (new_write_segment 1 10 2)
new_write_segment_lem_example = new_write_segment_lem 1 10 2 (omega arith)

half_segment-IsSegment : IsSegment half_segment
half_segment-IsSegment = record {
  positive = omega arith;
  in_range = omega arith;
  room = omega arith;
  numbered = (refl, tt);
}

full_segment-IsSegment : IsSegment full_segment
full_segment-IsSegment = record {
  positive = omega arith;
  in_range = omega arith;
  room = omega arith;
  numbered = (refl, (refl, tt));
}

appends_b : append_document live_ctx (some 11) key_b [] half_segment ≡ ok (full_segment, document_b)
unfolding append_document validate_primary_key valid_string
appends_b = refl

append_document-Appended_example : Appended half_segment key_b [] full_segment document_b
append_document-Appended_example =
    append_document-Appended live_ctx (some 11) key_b [] half_segment full_segment document_b
      half_segment-IsSegment appends_b

immutable_document-document_example :
    immutable_document
      (record { metadata = segment_metadata 1 full_segment.docs []; docs = full_segment.docs })
      11
    ≡ document full_segment 11
immutable_document-document_example =
    immutable_document-document full_segment [] 11 full_segment-IsSegment

abbrev full_metadata : SegmentMetadata
full_metadata = record {
  id = 1;
  min_doc_id = 10;
  max_doc_id = 11;
  doc_count = 2;
  files = (0x66 ∷ []) ∷ [];
}

abbrev full_immutable : ImmutableSegment
full_immutable = record { metadata = full_metadata; docs = document_a ∷ document_b ∷ [] }

full_bytes : (bytes : List ℕ) × (encode_segment full_metadata full_segment.docs ≡ ok bytes)
unfolding encode_segment check_documents validate_stored_document validate_primary_key valid_string
full_bytes = (
  segment_header full_metadata (segment_records full_segment.docs)
      ++ segment_records full_segment.docs,
  refl,
)

decode-encode_segment_example :
    decode_segment never full_bytes.0 ≡ ok (record full_metadata { files = [] }, full_segment.docs)
decode-encode_segment_example =
    decode-encode_segment full_metadata full_segment.docs full_bytes.0
      (record { id_word = omega arith; max_word = omega arith; contiguous = refl }) (omega arith)
      full_bytes.1

abbrev start : SegmentManager
start = record {
  immutable = [];
  writing = none;
  primary_key = new_primary_key_map;
  deletes = record { deleted = 4 ∷ [] };
}

abbrev next_segment : WriteSegment
next_segment = record { id = 2; min_doc_id = 12; max_docs = 100; docs = []; sealed = false }

abbrev rotated : SegmentManager
rotated = record start { immutable = full_immutable ∷ []; writing = some next_segment }

start-IsPartition : IsPartition start
start-IsPartition = record { pairwise = tt; from_writing = tt }

rotations : Reach start rotated
unfolding set_writing rotate_writing exists reserved_overlaps reserved_range ranges_overlap
rotations =
    next (next here (set full_segment (omega arith) refl))
      (rotate 1 full_immutable next_segment (omega arith) refl)

Reach-IsPartition_example : IsPartition rotated
Reach-IsPartition_example = Reach-IsPartition start-IsPartition rotations

rotated-IsPartition : IsPartition rotated
rotated-IsPartition = Reach-IsPartition start-IsPartition rotations

removes : remove_immutable 1 rotated ≡ ok (full_immutable, record rotated { immutable = [] })
unfolding remove_immutable find_immutable
removes = refl

remove_immutable_lem_example :
    IsPartition (record rotated { immutable = [] })
    × Removed 1 full_immutable rotated.immutable []
    × (record rotated { immutable = [] } ≡ record rotated { immutable = [] })
remove_immutable_lem_example =
    remove_immutable_lem 1 full_immutable rotated (record rotated { immutable = [] })
      rotated-IsPartition removes

live : is_deleted rotated.deletes 11 ≡ false
unfolding is_deleted
live = refl

absent : document_in 11 rotated.writing ≡ none
unfolding document_in document
absent = refl

found : find_immutable 1 rotated.immutable ≡ some full_immutable
unfolding find_immutable
found = refl

find_lem_example : find 11 rotated ≡ immutable_document full_immutable 11
find_lem_example =
    find_lem 1 11 rotated full_immutable rotated-IsPartition (omega arith, tt) live absent found
      (omega arith, omega arith)

decode-encode_snapshot_example :
    (encode_snapshot (1 ∷ 2 ∷ 3 ∷ 4 ∷ 5 ∷ 6 ∷ 7 ∷ 8 ∷ []) 5 (9 ∷ 9 ∷ [])
      ≡ ok (snapshot_header (1 ∷ 2 ∷ 3 ∷ 4 ∷ 5 ∷ 6 ∷ 7 ∷ 8 ∷ []) 5 (9 ∷ 9 ∷ []) ++ (9 ∷ 9 ∷ [])))
    × (decode_snapshot
          (snapshot_header (1 ∷ 2 ∷ 3 ∷ 4 ∷ 5 ∷ 6 ∷ 7 ∷ 8 ∷ []) 5 (9 ∷ 9 ∷ []) ++ (9 ∷ 9 ∷ []))
          (1 ∷ 2 ∷ 3 ∷ 4 ∷ 5 ∷ 6 ∷ 7 ∷ 8 ∷ [])
        ≡ ok (5, 9 ∷ 9 ∷ []))
decode-encode_snapshot_example =
    decode-encode_snapshot 1 2 3 4 5 6 7 8 5 (9 ∷ 9 ∷ []) (omega arith) (omega arith)
