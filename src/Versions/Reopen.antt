-- ===== src/Versions/Reopen.antt =====
-- internal/db/version_manager.go: what a directory opens as after Publish and Update.
use zvec.Base.{
  Option-cases, ℕ, ◌<◌, ◌^◌, ◌≡◌, refl, ◌∙◌, List, true, not, some, none, ◌⊎◌, inl, inr,
  bytes_equal, bytes_equal_iff, arith, ◌==◌,
}
use zvec.Errors.{
  Error, Result, ok, err, reject, Context, manifest_conflict, lock_unavailable, check_context,
}
use zvec.Manifest.{Manifest, Json, manifest_texts}
use zvec.Versions.{Directory, manifest_file_name, greatest, next_manifest_generation, read_current}
use zvec.Versions.Names.{next_manifest_generation-bounds}
use zvec.Versions.Publish.{
  Answers, Published, publish_locked, prepare_manifest, VersionManager, Outcome, settle, attempt,
  publish_manager_locked, unchanged, publish, update,
}
use zvec.Versions.Safety.{IsPublication, publish_locked-IsPublication}
use zvec.Versions.Opening.{Opens, Opens-Read, Abandoned-Opens, Committed-Opens, reopened}

-- Nothing was committed, and the manager and what the directory opens as are as before; or the
-- version that the manager had is the one that CURRENT named, the new manifest has a generation above
-- those of all files, the manager has it, and the directory opens as it.
abbrev pub IsSafe : Json → VersionManager → Directory → VersionManager → Outcome → Type 0
IsSafe json m dir v o =
    ((o.manifest ≡ none) × (o.manager ≡ m) × Opens json o.dir v)
    ⊎ ((new : Manifest) × (o.manifest ≡ some new)
        × (v.current_name ≡ m.current_name)
        × (greatest dir.files < new.generation)
        × (o.manager ≡ record { current = new; current_name = manifest_file_name new.generation })
        × Opens json o.dir (reopened json new))

unchanged-IsSafe :
    (json : Json) (m : VersionManager) (dir : Directory) (v : VersionManager) (e : Error)
    → Opens json dir v
    → IsSafe json m dir v (unchanged m dir e)
unchanged-IsSafe json m dir v e h = inl (refl, refl, h)

settle-IsSafe :
    (json : Json) (m : VersionManager) (dir : Directory) (v : VersionManager) (new : Manifest)
    (p : Published)
    → Opens json dir v
    → v.current_name ≡ m.current_name
    → greatest dir.files < new.generation
    → 0 < new.generation
    → new.generation < 2 ^ 64
    → manifest_texts new ≡ true
    → IsPublication json dir new p
    → IsSafe json m dir v (settle m new p)
unfolding settle
settle-IsSafe json m dir v new p h same above low high texts (inl abandoned) =
    let none_done : p.committed ≡ none = abandoned.0 in
    let now : settle m new p
        ≡ record { manager = m; dir = p.dir; manifest = none; error = p.error } =
      ground arith in
    rw now (inl (refl, refl, Abandoned-Opens json dir _ p v abandoned h))
settle-IsSafe json m dir v new p h same above low high texts (inr committed) =
    let name = manifest_file_name new.generation in
    let done : p.committed ≡ some name = committed.3 in
    let manager : VersionManager = record { current = new; current_name = name } in
    let now : settle m new p
        ≡ record { manager = manager; dir = p.dir; manifest = some new; error = p.error } =
      ground arith in
    rw now
      (inr (new, refl, same, above, refl, Committed-Opens json dir new p low high texts committed))

same-name :
    (expected name other : List ℕ) (r : Result (List ℕ))
    → r ≡ ok expected
    → r ≡ ok name
    → reject (not (bytes_equal name other)) manifest_conflict ≡ ok tt
    → expected ≡ other
same-name expected name other r e f s =
    let same = (bytes_equal_iff name other).0 (ground arith) in cc

pub attempt-cases {ℓ} :
    {A : Type ℓ} (P : Outcome → Type 0) (m : VersionManager) (dir : Directory) (r : Result A)
    (continue : A → Outcome)
    → ((e : Error) → P (unchanged m dir e))
    → ((x : A) → r ≡ ok x → P (continue x))
    → P (attempt m dir r continue)
attempt-cases P m dir (err e) continue f g = f e
attempt-cases P m dir (ok x) continue f g = g x refl

module _ (json : Json) (a : Answers) (m : VersionManager) (dir : Directory)
    (v : VersionManager) where
  prepared-texts :
      (next : Manifest) (generation : ℕ)
      → manifest_texts (prepare_manifest next generation) ≡ manifest_texts next
  unfolding prepare_manifest manifest_texts
  prepared-texts next generation = refl

  prepared-IsSafe :
      (next : Manifest) (generation : ℕ)
      → manifest_texts next ≡ true
      → Opens json dir v
      → v.current_name ≡ m.current_name
      → next_manifest_generation dir ≡ ok generation
      → IsSafe json m dir v (
          let prepared = prepare_manifest next generation in
          settle m prepared (publish_locked json a true prepared dir))
  unfolding prepare_manifest
  prepared-IsSafe next generation texts h same g =
      let (low, high, above) = next_manifest_generation-bounds dir generation g in
      let prepared = prepare_manifest next generation in
      settle-IsSafe json m dir v prepared (publish_locked json a true prepared dir) h same above low
        high (prepared-texts next generation ∙ texts)
        (publish_locked-IsPublication json a dir prepared true low high)

  locked-IsSafe :
      (next : Manifest)
      → manifest_texts next ≡ true
      → Opens json dir v
      → IsSafe json m dir v (publish_manager_locked json a next m dir)
  unfolding publish_manager_locked
  locked-IsSafe next texts h =
      let P = IsSafe json m dir v in
      let stays : (e : Error) → P (unchanged m dir e) = λ e. unchanged-IsSafe json m dir v e h in
      let (encoded, read, _, _, _, _) = Opens-Read json dir v h in
      attempt-cases P m dir (reject (not a.locked) lock_unavailable) _ stays (λ locked l.
        attempt-cases P m dir (read_current dir) _ stays (λ name r.
          attempt-cases P m dir (reject (not (bytes_equal name m.current_name)) manifest_conflict) _
            stays
            (λ same s. attempt-cases P m dir (next_manifest_generation dir) _ stays (λ generation g.
              prepared-IsSafe next generation texts h
                (same-name v.current_name name m.current_name _ read r s) g))))

  -- Let a directory open as a version. Then publishing a manifest whose strings are valid UTF-8, by any
  -- manager and whatever the context, the lock and the files answer, leaves a directory that opens.
  -- Either nothing is published, and the manager and the version in the directory are as before; or
  -- the manager had the version that the directory named, so that no version of another manager is
  -- lost, the new generation is above that of every file, and the directory opens as the new
  -- manifest.
  pub publish-IsSafe :
      (ctx : Context) (next : Manifest)
      → manifest_texts next ≡ true
      → Opens json dir v
      → IsSafe json m dir v (publish json a ctx next m dir)
  unfolding publish
  publish-IsSafe ctx next texts h =
      attempt-cases (IsSafe json m dir v) m dir (check_context ctx) _
        (λ e. unchanged-IsSafe json m dir v e h) (λ live c. locked-IsSafe next texts h)

  -- What an update that publishes has done: it applied its function to the version that it began with,
  -- which is still the manager's, and published what the function gave, with a generation of its own.
  abbrev pub FromBase : (Manifest → Result Manifest) → Manifest → Outcome → Type 0
  FromBase mutate base o =
      (o.manifest ≡ none)
      ⊎ ((next : Manifest) × (generation : ℕ) × (mutate base ≡ ok next)
          × (m.current.generation ≡ base.generation)
          × (o.manifest ≡ some (prepare_manifest next generation)))

  abbrev Prepared : Manifest → Outcome → Type 0
  Prepared next o =
      (o.manifest ≡ none)
      ⊎ ((generation : ℕ) × (o.manifest ≡ some (prepare_manifest next generation)))

  settle-Prepared :
      (next : Manifest) (generation : ℕ) (p : Published)
      → Prepared next (settle m (prepare_manifest next generation) p)
  unfolding settle
  settle-Prepared next generation p = elim (Option-cases p.committed) [
    | inl e ↦ inl (ground arith)
    | inr (name, e) ↦ inr (generation, ground arith)
  ]

  locked-Prepared : (next : Manifest) → Prepared next (publish_manager_locked json a next m dir)
  unfolding publish_manager_locked
  locked-Prepared next =
      let P = Prepared next in
      let stays : (e : Error) → P (unchanged m dir e) = λ e. inl refl in
      attempt-cases P m dir (reject (not a.locked) lock_unavailable) _ stays (λ locked l.
        attempt-cases P m dir (read_current dir) _ stays (λ name r.
          attempt-cases P m dir (reject (not (bytes_equal name m.current_name)) manifest_conflict) _
            stays
            (λ same s.
              attempt-cases P m dir (next_manifest_generation dir) _ stays
                (λ generation g. settle-Prepared next generation _))))

  locked-FromBase :
      (mutate : Manifest → Result Manifest) (base next : Manifest)
      → mutate base ≡ ok next
      → reject (not (m.current.generation == base.generation)) manifest_conflict ≡ ok tt
      → FromBase mutate base (publish_manager_locked json a next m dir)
  locked-FromBase mutate base next e s = elim (locked-Prepared next) [
    | inl nothing ↦ inl nothing
    | inr (generation, made) ↦ inr (next, generation, e, ground arith, made)
  ]

  -- Let a directory open as a version, and let an update's function give only manifests whose strings
  -- are valid UTF-8. Then `Update` is safe as publishing is, whatever happens and whatever other calls
  -- did to the manager since the update began; and it publishes nothing, or what its function gives for
  -- the version that it began with, whose generation the manager then still has.
  pub update-IsSafe :
      (ctx later : Context) (mutate : Manifest → Result Manifest) (base : Manifest)
      → ((next : Manifest) → mutate base ≡ ok next → manifest_texts next ≡ true)
      → Opens json dir v
      → IsSafe json m dir v (update json a ctx later mutate base m dir)
        × FromBase mutate base (update json a ctx later mutate base m dir)
  unfolding update
  update-IsSafe ctx later mutate base texts h =
      let P : Outcome → Type 0 = λ o. IsSafe json m dir v o × FromBase mutate base o in
      let stays : (e : Error) → P (unchanged m dir e) =
        λ e. (unchanged-IsSafe json m dir v e h, inl refl) in
      attempt-cases P m dir (check_context ctx) _ stays (λ live c.
        attempt-cases P m dir (mutate base) _ stays (λ next e.
          attempt-cases P m dir (check_context later) _ stays (λ live2 d.
            attempt-cases P m dir
              (reject (not (m.current.generation == base.generation)) manifest_conflict) _ stays
              (λ same s.
                (locked-IsSafe next (texts next e) h, locked-FromBase mutate base next e s)))))
