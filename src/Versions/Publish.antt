-- ===== src/Versions/Publish.antt =====
-- internal/db/version_manager.go: publishing a version, with every answer of the operating system.
use zvec.Base.{
  ℕ, List, ◌∷◌, Bool, true, false, not, Option, none, some, bytes_equal, ◌==◌, if◌then◌else◌,
}
use zvec.Errors.{
  Error, Result, ok, err, ◌>>=◌, ◌>>◌, reject, Context, check_context, manifest_corrupt,
  manifest_conflict, manifest_exists, directory_sync_failed, current_not_replaced, write_failed,
  lock_unavailable,
}
use zvec.Manifest.{Manifest, Json, validate, disk_format_version}
use zvec.Manifest.Codec.{marshal_manifest}
use zvec.Versions.{
  Directory, manifest_file_name, lookup_file, next_manifest_generation, marshal_current,
  read_current, read_manifest_file,
}

-- A new file is written, synced and closed, or fails; what it then holds, if it is still there.
pub data FileAnswer : Type 0 where
  file_synced : FileAnswer
  file_failed : Option (List ℕ) → FileAnswer

-- What one publication meets, in its order: the lock, a poll of the context, the manifest's file, the
-- sync of the directory, a poll, the temporary file (or the poll in it), its rename or link, a sync.
pub record Answers : Type 0 where
  pub locked : Bool
  pub before_encoding : Context
  pub manifest_file : FileAnswer
  pub first_sync : Bool
  pub before_pointer : Context
  pub temp_file : Bool
  pub installed : Bool
  pub second_sync : Bool

-- `name`, `committed` and `err`, and the directory that is left
pub record Published : Type 0 where
  pub dir : Directory
  pub committed : Option (List ℕ)
  pub error : Option Error

abbrev pub refused : Directory → Error → Published
refused dir e = record { dir = dir; committed = none; error = some e }

unfoldable pub with_file : List ℕ → List ℕ → Directory → Directory
with_file name contents dir = record dir { files = (name, contents) ∷ dir.files }

unfoldable pub leave_rest : List ℕ → Option (List ℕ) → Directory → Directory
unfolding with_file
leave_rest name none dir = dir
leave_rest name (some rest) dir = with_file name rest dir

-- The creation of the file, when `found` is there under its name
unfoldable pub write_found :
    FileAnswer → List ℕ → List ℕ → Option (List ℕ) → Directory → Directory × Option Error
unfolding leave_rest with_file
write_found answer name contents (some old) dir = (dir, some manifest_conflict)
write_found file_synced name contents none dir = (with_file name contents dir, none)
write_found (file_failed rest) name contents none dir =
    (leave_rest name rest dir, some write_failed)

-- `writeExclusiveSynced`: the directory, and the error
unfoldable pub write_exclusive : FileAnswer → List ℕ → List ℕ → Directory → Directory × Option Error
unfolding lookup_file write_found
write_exclusive answer name contents dir =
    write_found answer name contents (lookup_file name dir.files) dir

-- The rename, or the link, and what follows it
unfoldable pub replace_current : Answers → List ℕ → List ℕ → Directory → Published
replace_current a name pointer dir =
    if not a.installed then refused dir current_not_replaced else record {
      dir = record dir { current = some pointer };
      committed = some name;
      error = if a.second_sync then none else some directory_sync_failed;
    }

-- A link does not replace a CURRENT that is there.
unfoldable pub link_current : Answers → List ℕ → List ℕ → Option (List ℕ) → Directory → Published
unfolding replace_current
link_current a name pointer (some old) dir = refused dir manifest_exists
link_current a name pointer none dir = replace_current a name pointer dir

-- `expected` tells whether a CURRENT is expected.
unfoldable pub install_current : Answers → Bool → List ℕ → List ℕ → Directory → Published
unfolding replace_current link_current
install_current a true name pointer dir = replace_current a name pointer dir
install_current a false name pointer dir = link_current a name pointer dir.current dir

abbrev pub proceed {ℓ} : {A : Type ℓ} → Directory → Result A → (A → Published) → Published
proceed dir (err e) continue = refused dir e
proceed dir (ok x) continue = continue x

-- Behind the write of the manifest's file
unfoldable pub publish_file :
    Json → Answers → Bool → Manifest → List ℕ → Directory × Option Error → Published
unfolding install_current manifest_file_name marshal_current
publish_file json a expected manifest encoded (dir, some e) = refused dir e
publish_file json a expected manifest encoded (dir, none) =
    if not a.first_sync
    then refused dir directory_sync_failed
    else proceed dir (check_context a.before_pointer) (λ live.
      let name = manifest_file_name manifest.generation in
      proceed dir (marshal_current name) (λ pointer.
        if not a.temp_file
        then refused dir write_failed
        else install_current a expected name pointer dir))

unfoldable pub publish_locked : Json → Answers → Bool → Manifest → Directory → Published
unfolding write_exclusive publish_file marshal_manifest manifest_file_name validate
publish_locked json a expected manifest dir = proceed dir (validate json manifest) (λ valid.
    proceed dir (check_context a.before_encoding) (λ live.
      proceed dir (marshal_manifest json manifest) (λ encoded.
        let name = manifest_file_name manifest.generation in
        publish_file json a expected manifest encoded
          (write_exclusive a.manifest_file name encoded dir))))

unfoldable pub prepare_manifest : Manifest → ℕ → Manifest
prepare_manifest m generation = record m {
  format_version = if m.format_version == 0 then disk_format_version else m.format_version;
  generation = generation;
}

pub record VersionManager : Type 0 where
  pub current : Manifest
  pub current_name : List ℕ

-- The directory, the manager if there is one, and the error
unfoldable pub create_version_manager :
    Json
    → Answers
    → Context
    → Manifest
    → Directory
    → Directory × Option VersionManager × Option Error
unfolding read_current next_manifest_generation prepare_manifest publish_locked
create_version_manager json a ctx initial dir = elim (check_context ctx) [
  | err e ↦ (dir, none, some e)
  | ok live ↦ if not a.locked then (dir, none, some lock_unavailable) else elim (read_current dir) [
    | ok name ↦ (dir, none, some manifest_exists)
    | err Error.manifest_not_found ↦ elim (next_manifest_generation dir) [
      | err e ↦ (dir, none, some e)
      | ok generation ↦
          let prepared = prepare_manifest initial generation in
          let done = publish_locked json a false prepared dir in
          (
            done.dir,
            elim done.committed [
              | none ↦ none
              | some name ↦ some (record { current = prepared; current_name = name })
            ],
            done.error,
          )
    ]
    | err e ↦ (dir, none, some e)
  ]
]

unfoldable pub open_version_manager : Json → Context → Directory → Result VersionManager
unfolding read_current read_manifest_file manifest_file_name
open_version_manager json ctx dir = do
  check_context ctx
  name ← read_current dir
  manifest ← read_manifest_file json dir name
  reject (not (bytes_equal (manifest_file_name manifest.generation) name)) manifest_corrupt
  ok (record { current = manifest; current_name = name })

-- The manager and the directory afterwards, and the manifest or the error that is returned. An error
-- behind the rename is returned beside the new manifest.
pub record Outcome : Type 0 where
  pub manager : VersionManager
  pub dir : Directory
  pub manifest : Option Manifest
  pub error : Option Error

abbrev pub unchanged : VersionManager → Directory → Error → Outcome
unchanged m dir e = record { manager = m; dir = dir; manifest = none; error = some e }

unfoldable pub settle : VersionManager → Manifest → Published → Outcome
settle m next done = elim done.committed [
  | none ↦ record { manager = m; dir = done.dir; manifest = none; error = done.error }
  | some name ↦ record {
    manager = record { current = next; current_name = name };
    dir = done.dir;
    manifest = some next;
    error = done.error;
  }
]

abbrev pub attempt {ℓ} :
    {A : Type ℓ} → VersionManager → Directory → Result A → (A → Outcome) → Outcome
attempt m dir (err e) continue = unchanged m dir e
attempt m dir (ok x) continue = continue x

unfoldable pub publish_manager_locked :
    Json → Answers → Manifest → VersionManager → Directory → Outcome
unfolding read_current next_manifest_generation prepare_manifest publish_locked settle
publish_manager_locked json a next m dir =
    attempt m dir (reject (not a.locked) lock_unavailable) (λ locked.
      attempt m dir (read_current dir) (λ name.
        attempt m dir (reject (not (bytes_equal name m.current_name)) manifest_conflict) (λ same.
          attempt m dir (next_manifest_generation dir) (λ generation.
            let prepared = prepare_manifest next generation in
            settle m prepared (publish_locked json a true prepared dir)))))

unfoldable pub publish : Json → Answers → Context → Manifest → VersionManager → Directory → Outcome
unfolding publish_manager_locked
publish json a ctx next m dir =
    attempt m dir (check_context ctx) (λ live. publish_manager_locked json a next m dir)

-- `Update` on the version `base` that it read at its start; `Clone` gives that version itself, which a
-- function on values cannot change. Other calls may have changed the manager
-- since. `ctx` and `later` are its polls of the context.
unfoldable pub update :
    Json
    → Answers
    → Context
    → Context
    → (Manifest → Result Manifest)
    → Manifest
    → VersionManager
    → Directory
    → Outcome
unfolding publish_manager_locked
update json a ctx later mutate base m dir = attempt m dir (check_context ctx) (λ live.
    attempt m dir (mutate base) (λ next. attempt m dir (check_context later) (λ live2.
      attempt m dir (reject (not (m.current.generation == base.generation)) manifest_conflict)
        (λ same. publish_manager_locked json a next m dir))))
