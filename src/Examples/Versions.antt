-- ===== src/Examples/Versions.antt =====
-- internal/db/manifest.go and version_manager.go: a directory at its first version, and the next.
use zvec.Base.{
  ℕ, ◌≡◌, refl, List, [], ◌∷◌, ◌++◌, Bool, true, false, not, ◌&&◌, ◌==◌, Option, some, none, arith,
  from_le, bytes_equal, bytes_equal_iff, if◌then◌else◌,
}
use zvec.Errors.{ok, live_ctx, manifest_conflict}
use zvec.Manifest.{Manifest, Json, manifest_texts, validate}
use zvec.Go.Checksum.{crc32c}
use zvec.Manifest.Codec.{marshal_manifest, manifest_header, unmarshal_manifest}
use zvec.Manifest.Codec.RoundTrip.{unmarshal-marshal_manifest, compacted}
use zvec.Versions.{
  current_header, Directory, manifest_file_name, parse_manifest_file_name, marshal_current,
  decode_current,
}
use zvec.Versions.Names.{pointer, decode-marshal_current}
use zvec.Versions.Publish.{
  Answers, file_synced, file_failed, VersionManager, Outcome, open_version_manager,
  create_version_manager, publish, update,
}
use zvec.Versions.Opening.{Opens}
use zvec.Versions.Reopen.{IsSafe, FromBase, publish-IsSafe, update-IsSafe}

-- {}
abbrev empty_object : List ℕ
empty_object = b'{' ∷ b'}' ∷ []

abbrev tiny : ℕ → Manifest
tiny generation = record {
  format_version = 1;
  generation = generation;
  schema = empty_object;
  enable_mmap = false;
  segment_max_documents = 10;
  persisted_segments = [];
  writing_segment = none;
  writing_segment_start_doc_id = 0;
  id_map_generation = 0;
  delete_snapshot_generation = 0;
  next_segment_id = 0;
  segment_index_snapshots = [];
}

is_nil {ℓ} : {A : Type ℓ} → List A → Bool
is_nil [] = true
is_nil (x ∷ xs) = false

is_none {ℓ} : {A : Type ℓ} → Option A → Bool
is_none none = true
is_none (some x) = false

is_tiny : Manifest → Bool
unfolding is_nil is_none bytes_equal
is_tiny m =
    m.format_version == 1
    && (bytes_equal m.schema empty_object
        && (not m.enable_mmap
            && (m.segment_max_documents == 10
                && (is_nil m.persisted_segments
                    && (is_none m.writing_segment
                        && (m.writing_segment_start_doc_id == 0
                            && (m.id_map_generation == 0
                                && (m.delete_snapshot_generation == 0
                                    && (m.next_segment_id == 0
                                        && is_nil m.segment_index_snapshots)))))))))

is_tiny-tiny : (m : Manifest) → is_tiny m ≡ true → m ≡ tiny m.generation
unfolding is_tiny is_nil is_none
is_tiny-tiny m h = ground (arith, bytes_equal_iff m.schema empty_object)

write_tiny : Manifest → Option (List ℕ)
unfolding is_tiny
write_tiny m = if is_tiny m then some (m.generation ∷ []) else none

read_tiny : List ℕ → Option Manifest
read_tiny [] = none
read_tiny (g ∷ _) = some (tiny g)

read-write_tiny :
    (m : Manifest) (payload : List ℕ) → write_tiny m ≡ some payload → read_tiny payload ≡ some m
unfolding write_tiny read_tiny
read-write_tiny m payload h = ground (arith, is_tiny-tiny m)

-- A writer of the manifests that differ in their generation alone
tiny_json : Json
unfolding write_tiny read_tiny
tiny_json = record {
  is_object = λ s. bytes_equal s empty_object;
  compact = λ s. s;
  marshal = write_tiny;
  unmarshal = read_tiny;
  compact_object = λ s. refl;
  unmarshal_marshal = λ m payload texts h. read-write_tiny m payload h;
}

abbrev tiny_file : ℕ → List ℕ
tiny_file generation = manifest_header generation (generation ∷ []) ++ (generation ∷ [])

abbrev first_dir : Directory
first_dir = record {
  files = (manifest_file_name 1, tiny_file 1) ∷ [];
  current = some (pointer (manifest_file_name 1));
}

abbrev first_manager : VersionManager
first_manager = record { current = tiny 1; current_name = manifest_file_name 1 }

-- Everything succeeds.
abbrev calm : Answers
calm = record {
  locked = true;
  before_encoding = live_ctx;
  manifest_file = file_synced;
  first_sync = true;
  before_pointer = live_ctx;
  temp_file = true;
  installed = true;
  second_sync = true;
}

-- Creating a collection in an empty directory gives this directory and this manager.
create_test :
    create_version_manager tiny_json calm live_ctx (tiny 0) (record { files = []; current = none })
    ≡ (first_dir, some first_manager, none)
unfolding create_version_manager tiny_json marshal_manifest manifest_file_name
    parse_manifest_file_name
create_test = refl

first_dir-Opens : Opens tiny_json first_dir first_manager
unfolding open_version_manager tiny_json unmarshal_manifest manifest_file_name manifest_header
    current_header from_le crc32c validate
first_dir-Opens = refl

-- The second manager of two that opened the same version is refused once the first has published.
conflict_test :
    (publish tiny_json calm live_ctx
      (tiny 0)
      first_manager
      (publish tiny_json calm live_ctx (tiny 0) first_manager first_dir).dir).error
    ≡ some manifest_conflict
unfolding publish tiny_json manifest_file_name from_le crc32c
conflict_test = refl

tiny_texts : (generation : ℕ) → manifest_texts (tiny generation) ≡ true
unfolding manifest_texts
tiny_texts generation = refl

marshal_tiny : marshal_manifest tiny_json (tiny 7) ≡ ok (tiny_file 7)
unfolding marshal_manifest tiny_json
marshal_tiny = refl

unmarshal-marshal_manifest_example :
    unmarshal_manifest tiny_json (tiny_file 7) ≡ ok (compacted tiny_json (tiny 7))
unmarshal-marshal_manifest_example =
    unmarshal-marshal_manifest tiny_json (tiny 7) (tiny_file 7) (tiny_texts 7) (omega arith)
      marshal_tiny

decode-marshal_current_example :
    (parse_manifest_file_name (manifest_file_name 7) ≡ some 7)
    × (marshal_current (manifest_file_name 7) ≡ ok (pointer (manifest_file_name 7)))
    × (decode_current (pointer (manifest_file_name 7)) ≡ ok (manifest_file_name 7))
decode-marshal_current_example = decode-marshal_current 7 (omega arith) (omega arith)

publish-IsSafe_example :
    IsSafe tiny_json first_manager first_dir first_manager
      (publish tiny_json calm live_ctx (tiny 0) first_manager first_dir)
publish-IsSafe_example =
    publish-IsSafe tiny_json calm first_manager first_dir first_manager live_ctx (tiny 0)
      (tiny_texts 0) first_dir-Opens

-- The file of the manifest is cut off behind its first byte.
abbrev torn : Answers
torn = record calm { manifest_file = file_failed (some (b'Z' ∷ [])) }

abbrev tiny_update : Outcome
tiny_update =
    update tiny_json calm live_ctx live_ctx (λ m. ok (tiny 0)) (tiny 1) first_manager first_dir

update-IsSafe_example :
    IsSafe tiny_json first_manager first_dir first_manager tiny_update
    × FromBase tiny_json calm first_manager first_dir first_manager
        (λ m. ok (tiny 0))
        (tiny 1)
        tiny_update
update-IsSafe_example =
    update-IsSafe tiny_json calm first_manager first_dir first_manager live_ctx live_ctx
      (λ m. ok (tiny 0)) (tiny 1) (λ m e. ground (arith, tiny_texts 0)) first_dir-Opens
