-- ===== src/Versions/Updates.antt =====
-- internal/db/version_manager.go: updates of one manager that began with the same version.
use zvec.Base.{◌≡◌, some, none}
use zvec.Manifest.{Manifest}
use zvec.Versions.{Directory, greatest}
use zvec.Versions.Publish.{VersionManager, Outcome}
use zvec.Versions.{parse_manifest_file_name, greatest}

-- Nothing is published, and neither the manager nor the directory is changed.
abbrev pub IsUntouched : VersionManager → Directory → Outcome → Type 0
IsUntouched m dir o = (o.manifest ≡ none) × (o.manager ≡ m) × (o.dir ≡ dir)

-- The name of a version is that of its generation.
abbrev pub IsNamed : VersionManager → Type 0
IsNamed m = parse_manifest_file_name m.current_name ≡ some m.current.generation
