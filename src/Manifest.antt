-- ===== src/Manifest.antt =====
-- internal/db/manifest.go: the metadata of a collection and its validation. JSON is a parameter; `Clone`
-- copies values that never change here.
pub mod Codec
use zvec.Base.{
  ℕ, ◌-◌, List, [], ◌∷◌, ◌++◌, Bool, true, false, not, ◌||◌, ◌&&◌, Option, none, some, ◌≡◌, ◌==◌,
  length, ltb, leb, bytes_equal, if◌then◌else◌, max,
}
use zvec.Errors.{Result, ok, err, ◌>>=◌, ◌>>◌, reject, unsupported_format_version, manifest_corrupt}
use zvec.Go.Path.{is_portable}
use zvec.Go.Utf8.{valid_string}
use zvec.Segment.{SegmentMetadata}

pub record IndexArtifactMetadata : Type 0 where
  pub field : List ℕ
  pub kind : List ℕ
  pub file : List ℕ

pub record SegmentIndexSnapshotMetadata : Type 0 where
  pub segment_id : ℕ
  pub schema_sha256 : List ℕ
  pub document_count : ℕ
  pub min_document_id : ℕ
  pub max_document_id : ℕ
  pub artifacts : List IndexArtifactMetadata

pub record Manifest : Type 0 where
  pub format_version : ℕ
  pub generation : ℕ
  pub schema : List ℕ
  pub enable_mmap : Bool
  pub segment_max_documents : ℕ
  pub persisted_segments : List SegmentMetadata
  pub writing_segment : Option SegmentMetadata
  pub writing_segment_start_doc_id : ℕ
  pub id_map_generation : ℕ
  pub delete_snapshot_generation : ℕ
  pub next_segment_id : ℕ
  pub segment_index_snapshots : List SegmentIndexSnapshotMetadata

abbrev pub disk_format_version : ℕ
disk_format_version = 1

-- `_, exists := names[name]`
unfoldable pub has_name : List ℕ → List (List ℕ) → Bool
has_name name [] = false
has_name name (n ∷ names) = bytes_equal n name || has_name name names

unfoldable pub has_id : ℕ → List ℕ → Bool
has_id id [] = false
has_id id (i ∷ ids) = i == id || has_id id ids

unfoldable pub valid_files : List (List ℕ) → List (List ℕ) → Bool
unfolding has_name
valid_files seen [] = true
valid_files seen (name ∷ names) =
    is_portable name && (not (has_name name seen) && valid_files (name ∷ seen) names)

-- `validateSegment` returns no error.
unfoldable pub valid_segment : SegmentMetadata → Bool
unfolding valid_files is_portable
valid_segment s =
    (if s.doc_count == 0
      then s.min_doc_id == 0 && s.max_doc_id == 0
      else leb s.min_doc_id s.max_doc_id && leb (s.doc_count - 1) (s.max_doc_id - s.min_doc_id))
    && valid_files [] s.files

unfoldable pub valid_persisted : List ℕ → List SegmentMetadata → Bool
unfolding has_id valid_segment
valid_persisted ids [] = true
valid_persisted ids (s ∷ segments) =
    valid_segment s && (not (has_id s.id ids) && valid_persisted (s.id ∷ ids) segments)

unfoldable pub segment_ids : List SegmentMetadata → List ℕ
segment_ids [] = []
segment_ids (s ∷ segments) = s.id ∷ segment_ids segments

unfoldable pub max_segment_id : List SegmentMetadata → ℕ
max_segment_id [] = 0
max_segment_id (s ∷ segments) = max s.id (max_segment_id segments)

unfoldable pub valid_writing : List ℕ → Option SegmentMetadata → Bool
unfolding has_id valid_segment
valid_writing ids none = true
valid_writing ids (some s) = valid_segment s && not (has_id s.id ids)

unfoldable pub valid_next_id : List SegmentMetadata → Option SegmentMetadata → ℕ → Bool
unfolding max_segment_id
valid_next_id [] none next_id = true
valid_next_id segments none next_id = ltb (max_segment_id segments) next_id
valid_next_id segments (some s) next_id = ltb (max s.id (max_segment_id segments)) next_id

-- `segmentByID[id]`
unfoldable pub find_segment : ℕ → List SegmentMetadata → Option SegmentMetadata
find_segment id [] = none
find_segment id (s ∷ segments) = if s.id == id then some s else find_segment id segments

unfoldable pub is_hex_digit : ℕ → Bool
is_hex_digit b = leb b'0' b && leb b b'9' || (leb b'a' b && leb b b'f' || leb b'A' b && leb b b'F')

unfoldable pub all_hex : List ℕ → Bool
unfolding is_hex_digit
all_hex [] = true
all_hex (b ∷ digits) = is_hex_digit b && all_hex digits

-- The files that are seen behind valid artifacts; the keys are those of this snapshot alone.
unfoldable pub check_artifacts :
    List (List ℕ) → List (List ℕ) → List IndexArtifactMetadata → Option (List (List ℕ))
unfolding has_name is_portable
check_artifacts keys files [] = some files
check_artifacts keys files (a ∷ artifacts) =
    let key = a.field ++ (0 ∷ a.kind) in
    let rest = check_artifacts (key ∷ keys) (a.file ∷ files) artifacts in
    if bytes_equal a.field []
      || bytes_equal a.kind []
      || (not (is_portable a.file) || (has_name key keys || has_name a.file files))
    then none
    else rest

unfoldable pub bounds_match : SegmentIndexSnapshotMetadata → Option SegmentMetadata → Bool
bounds_match snapshot none = false
bounds_match snapshot (some s) =
    snapshot.document_count == s.doc_count
    && (snapshot.min_document_id == s.min_doc_id && snapshot.max_document_id == s.max_doc_id)

unfoldable pub valid_snapshots :
    List SegmentMetadata → List ℕ → List (List ℕ) → List SegmentIndexSnapshotMetadata → Bool
unfolding find_segment has_id bounds_match all_hex check_artifacts
valid_snapshots segments ids files [] = true
valid_snapshots segments ids files (x ∷ snapshots) = elim (check_artifacts [] files x.artifacts) [
  | none ↦ false
  | some files' ↦
      bounds_match x (find_segment x.segment_id segments)
      && (not (has_id x.segment_id ids)
          && (length x.schema_sha256 == 64
              && (all_hex x.schema_sha256
                  && valid_snapshots segments (x.segment_id ∷ ids) files' snapshots)))
]

-- The strings of a manifest, less its schema, are text that JSON carries unchanged.
texts : List (List ℕ) → Bool
texts [] = true
texts (t ∷ ts) = valid_string t && texts ts

segment_texts : List SegmentMetadata → Bool
unfolding texts
segment_texts [] = true
segment_texts (s ∷ segments) = texts s.files && segment_texts segments

artifact_texts : List IndexArtifactMetadata → Bool
unfolding texts
artifact_texts [] = true
artifact_texts (a ∷ artifacts) = texts (a.field ∷ a.kind ∷ a.file ∷ []) && artifact_texts artifacts

snapshot_texts : List SegmentIndexSnapshotMetadata → Bool
unfolding artifact_texts
snapshot_texts [] = true
snapshot_texts (x ∷ snapshots) =
    valid_string x.schema_sha256 && (artifact_texts x.artifacts && snapshot_texts snapshots)

writing_texts : Option SegmentMetadata → Bool
unfolding texts
writing_texts none = true
writing_texts (some s) = texts s.files

unfoldable pub manifest_texts : Manifest → Bool
unfolding segment_texts writing_texts snapshot_texts valid_string
manifest_texts m =
    segment_texts m.persisted_segments
    && (writing_texts m.writing_segment && snapshot_texts m.segment_index_snapshots)

-- What manifest.go takes from encoding/json. `is_object` is `json.Valid` and decoding into a map that is
-- not nil; `unmarshal` is the decoding of a payload into its fields, of which the start of the write
-- segment has to be there, and the strict decoding into a manifest with nothing behind it. Marshalling
-- compacts the raw JSON of the schema, and text that is UTF-8 is decoded as it was.
pub record Json : Type 0 where
  pub is_object : List ℕ → Bool
  pub compact : List ℕ → List ℕ
  pub marshal : Manifest → Option (List ℕ)
  pub unmarshal : List ℕ → Option Manifest
  pub compact_object : (s : List ℕ) → is_object (compact s) ≡ is_object s
  pub unmarshal_marshal :
      (m : Manifest) (payload : List ℕ)
      → manifest_texts m ≡ true
      → marshal m ≡ some payload
      → unmarshal payload ≡ some (record m { schema = compact m.schema })

-- (Manifest).Validate
unfoldable pub validate : Json → Manifest → Result (Unit {0})
unfolding valid_persisted segment_ids valid_writing valid_next_id valid_snapshots
validate json m = do
  reject (not (m.format_version == disk_format_version)) unsupported_format_version
  reject (m.generation == 0) manifest_corrupt
  reject (not (json.is_object m.schema)) manifest_corrupt
  reject (m.segment_max_documents == 0) manifest_corrupt
  reject (not (valid_persisted [] m.persisted_segments)) manifest_corrupt
  reject (not (valid_writing (segment_ids m.persisted_segments) m.writing_segment)) manifest_corrupt
  reject (not (valid_next_id m.persisted_segments m.writing_segment m.next_segment_id))
      manifest_corrupt
  reject (not (valid_snapshots m.persisted_segments [] [] m.segment_index_snapshots))
      manifest_corrupt
