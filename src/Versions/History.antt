-- ===== src/Versions/History.antt =====
-- internal/db/version_manager.go: managers of one directory that publish in any order, with publications
-- that are cut off anywhere.
use zvec.Base.{◌≤◌, ◌<◌, ◌≡◌, true, ◌⊎◌}
use zvec.Errors.{Context}
use zvec.Manifest.{Manifest, Json, manifest_texts}
use zvec.Versions.{Directory, greatest}
use zvec.Versions.Publish.{Answers, VersionManager, Outcome, publish}
use zvec.Versions.Opening.{Opens}

-- The files of an outcome number at least as high.
abbrev Grows : Directory → Outcome → Type 0
Grows dir o = greatest dir.files ≤ greatest o.dir.files

-- One call of `Publish` by any manager, with any answers
pub data Step (json : Json) : Directory → Directory → Type 0 where
  published :
      (a : Answers) (ctx : Context) (next : Manifest) (m : VersionManager) (dir : Directory)
      → manifest_texts next ≡ true
      → Step json dir (publish json a ctx next m dir).dir

pub data Reach (json : Json) : Directory → Directory → Type 0 where
  here : {dir : Directory} → Reach json dir dir
  next : {dir mid end : Directory} → Step json dir mid → Reach json mid end → Reach json dir end

-- The directory opens, as the version it had or as one whose generation is above all files it had.
abbrev pub IsLater : Json → Directory → VersionManager → Directory → Type 0
IsLater json dir v end =
    (greatest dir.files ≤ greatest end.files)
    × ((w : VersionManager) × Opens json end w
        × ((w ≡ v) ⊎ (greatest dir.files < w.current.generation)))
