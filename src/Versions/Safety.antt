-- ===== src/Versions/Safety.antt =====
-- internal/db/version_manager.go: what a publication leaves, by the answers of the operating system.
use zvec.Base.{
  ℕ, ◌<◌, ◌^◌, ◌≡◌, refl, List, ◌∷◌, Bool, true, false, not, Option, some, none, ◌⊎◌, inl, inr,
  arith, if◌then◌else◌,
}
use zvec.Errors.{
  Error, Result, ok, err, directory_sync_failed, current_not_replaced, write_failed,
  manifest_exists, manifest_conflict, check_context,
}
use zvec.Manifest.{Manifest, Json, validate}
use zvec.Manifest.Codec.{marshal_manifest}
use zvec.Versions.{Directory, manifest_file_name, lookup_file, marshal_current}
use zvec.Versions.Names.{pointer, decode-marshal_current}
use zvec.Versions.Publish.{
  FileAnswer, file_synced, file_failed, Answers, Published, refused, with_file, leave_rest,
  write_exclusive, write_found, publish_file, proceed, replace_current, link_current,
  install_current, publish_locked,
}

proceed-cases {ℓ} :
    {A : Type ℓ} (P : Published → Type 0) (dir : Directory) (r : Result A)
    (continue : A → Published)
    → ((e : Error) → P (refused dir e))
    → ((x : A) → r ≡ ok x → P (continue x))
    → P (proceed dir r continue)
proceed-cases P dir (err e) continue f g = f e
proceed-cases P dir (ok x) continue f g = g x refl

if-cases :
    (P : Published → Type 0) (b : Bool) (x y : Published) → P x → P y → P (if b then x else y)
if-cases P true x y p q = p
if-cases P false x y p q = q

-- One file more, under a name that was free.
abbrev pub WithNew : Directory → List ℕ → Directory → Type 0
WithNew dir name dir' =
    (contents : List ℕ) × (lookup_file name dir.files ≡ none) × (dir' ≡ with_file name contents dir)

-- Nothing is committed, and the directory has at most a file more that CURRENT does not name.
abbrev pub Abandoned : Directory → List ℕ → Published → Type 0
Abandoned dir name p = (p.committed ≡ none) × ((p.dir ≡ dir) ⊎ WithNew dir name p.dir)

-- The manifest is complete in its file, and CURRENT points to it.
abbrev pub Committed : Json → Directory → Manifest → Published → Type 0
Committed json dir m p =
    let name = manifest_file_name m.generation in
    (encoded : List ℕ) × (marshal_manifest json m ≡ ok encoded)
    × (lookup_file name dir.files ≡ none)
    × (p.committed ≡ some name)
    × (p.dir.files ≡ (name, encoded) ∷ dir.files)
    × (p.dir.current ≡ some (pointer name))

abbrev pub IsPublication : Json → Directory → Manifest → Published → Type 0
IsPublication json dir m p =
    Abandoned dir (manifest_file_name m.generation) p ⊎ Committed json dir m p

module _ (json : Json) (a : Answers) (dir : Directory) (m : Manifest) where
  abbrev name : List ℕ
  name = manifest_file_name m.generation

  stays : (e : Error) → IsPublication json dir m (refused dir e)
  stays e = inl (refl, inl refl)

  new_file :
      (contents : List ℕ) (e : Error)
      → lookup_file name dir.files ≡ none
      → IsPublication json dir m (refused (with_file name contents dir) e)
  new_file contents e free = inl (refl, inr (contents, free, refl))

  replace-IsPublication :
      (encoded : List ℕ)
      → marshal_manifest json m ≡ ok encoded
      → lookup_file name dir.files ≡ none
      → IsPublication json dir m
          (replace_current a name (pointer name) (with_file name encoded dir))
  unfolding replace_current with_file
  replace-IsPublication encoded e free =
      if-cases (IsPublication json dir m) (not a.installed) _ _
        (new_file encoded current_not_replaced free) (inr (encoded, e, free, refl, refl, refl))

  link-IsPublication :
      (encoded : List ℕ) (current : Option (List ℕ))
      → marshal_manifest json m ≡ ok encoded
      → lookup_file name dir.files ≡ none
      → IsPublication json dir m
          (link_current a name (pointer name) current (with_file name encoded dir))
  unfolding link_current
  link-IsPublication encoded (some old) e free = new_file encoded manifest_exists free
  link-IsPublication encoded none e free = replace-IsPublication encoded e free

  install-IsPublication :
      (expected : Bool) (encoded : List ℕ)
      → marshal_manifest json m ≡ ok encoded
      → lookup_file name dir.files ≡ none
      → IsPublication json dir m
          (install_current a expected name (pointer name) (with_file name encoded dir))
  unfolding install_current
  install-IsPublication true encoded e free = replace-IsPublication encoded e free
  install-IsPublication false encoded e free = link-IsPublication encoded _ e free

  -- Behind the write of the manifest's file.
  point-IsPublication :
      (expected : Bool) (encoded : List ℕ)
      → 0 < m.generation
      → m.generation < 2 ^ 64
      → marshal_manifest json m ≡ ok encoded
      → lookup_file name dir.files ≡ none
      → IsPublication json dir m (
          let written = with_file name encoded dir in
          if not a.first_sync
          then refused written directory_sync_failed
          else proceed written (check_context a.before_pointer) (λ live2.
            proceed written (marshal_current name) (λ p.
              if not a.temp_file
              then refused written write_failed
              else install_current a expected name p written)))
  point-IsPublication expected encoded low high e free =
      let there = new_file encoded in
      let P = IsPublication json dir m in
      if-cases P (not a.first_sync) _ _ (there directory_sync_failed free) (
        proceed-cases P _ (check_context a.before_pointer) _ (λ f. there f free)
          (λ live2 eq.
            proceed-cases P _ (marshal_current name) _ (λ f. there f free)
              (λ p q. if-cases P (not a.temp_file) _ _ (there write_failed free) (
                let (_, written, _) = decode-marshal_current m.generation low high in
                let same : p ≡ pointer name = ground arith in
                rw same (install-IsPublication expected encoded e free)))))

  file-IsPublication :
      (expected : Bool) (encoded : List ℕ) (answer : FileAnswer) (found : Option (List ℕ))
      → 0 < m.generation
      → m.generation < 2 ^ 64
      → marshal_manifest json m ≡ ok encoded
      → lookup_file name dir.files ≡ found
      → IsPublication json dir m
          (publish_file json a expected m encoded (write_found answer name encoded found dir))
  unfolding publish_file write_found leave_rest
  file-IsPublication expected encoded answer (some old) low high e there = stays manifest_conflict
  file-IsPublication expected encoded (file_failed none) none low high e free = stays write_failed
  file-IsPublication expected encoded (file_failed (some rest)) none low high e free =
      new_file rest write_failed free
  file-IsPublication expected encoded file_synced none low high e free =
      point-IsPublication expected encoded low high e free

  -- Whatever happens, either nothing is committed or the new version is.
  pub publish_locked-IsPublication :
      (expected : Bool)
      → 0 < m.generation
      → m.generation < 2 ^ 64
      → IsPublication json dir m (publish_locked json a expected m dir)
  unfolding publish_locked write_exclusive
  publish_locked-IsPublication expected low high =
      let P = IsPublication json dir m in
      proceed-cases P dir (validate json m) _ stays (λ valid v.
        proceed-cases P dir (check_context a.before_encoding) _ stays (λ live c.
          proceed-cases P dir (marshal_manifest json m) _ stays
            (λ encoded e. file-IsPublication expected encoded a.manifest_file _ low high e refl)))
