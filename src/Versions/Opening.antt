-- ===== src/Versions/Opening.antt =====
-- internal/db/version_manager.go: what OpenVersionManager reads in a directory, before and after a publication.
use zvec.Base.{
  ℕ, ◌+◌, ◌≤◌, ◌<◌, ◌^◌, ◌≡◌, sym, ap, ◌∙◌, List, ◌∷◌, ◌++◌, true, false, ◌||◌, some, none, inl,
  inr, length, ltb, bytes_equal, bytes_equal_iff, bytes_equal_refl, arith, Bool-cases, Option-cases,
}
use zvec.Errors.{ok, live_ctx, Result-cases}
use zvec.Manifest.{Manifest, Json, manifest_texts}
use zvec.Manifest.Codec.{manifest_header, max_manifest_size, unmarshal_manifest}
use zvec.Manifest.Codec.RoundTrip.{compacted, unmarshal-marshal_manifest, marshal_inv, file_size}
use zvec.Versions.{
  Directory, manifest_file_name, lookup_file, read_current, read_manifest_file, decode_current,
}
use zvec.Versions.Names.{pointer, decode-marshal_current}
use zvec.Versions.Publish.{Published, with_file, VersionManager, open_version_manager}
use zvec.Versions.Safety.{Abandoned, Committed, WithNew}

-- What `OpenVersionManager` has read to make `v`.
abbrev Read : Json → Directory → VersionManager → Type 0
Read json dir v =
    (encoded : List ℕ) × (read_current dir ≡ ok v.current_name)
    × (lookup_file v.current_name dir.files ≡ some encoded)
    × (ltb (length encoded) 32 || ltb (32 + 67108864) (length encoded) ≡ false)
    × (unmarshal_manifest json encoded ≡ ok v.current)
    × (bytes_equal (manifest_file_name v.current.generation) v.current_name ≡ true)

abbrev pub Opens : Json → Directory → VersionManager → Type 0
Opens json dir v = open_version_manager json live_ctx dir ≡ ok v

Read-Opens :
    (json : Json) (dir : Directory) (v : VersionManager) → Read json dir v → Opens json dir v
unfolding open_version_manager read_manifest_file
Read-Opens json dir v (encoded, r, l, size, u, n) = ground arith

file-Read :
    (json : Json) (dir : Directory) (name : List ℕ) (m : Manifest)
    → read_manifest_file json dir name ≡ ok m
    → (encoded : List ℕ) × (lookup_file name dir.files ≡ some encoded)
      × (ltb (length encoded) 32 || ltb (32 + 67108864) (length encoded) ≡ false)
      × (unmarshal_manifest json encoded ≡ ok m)
unfolding read_manifest_file
file-Read json dir name m h = elim (Option-cases (lookup_file name dir.files)) [
  | inl e ↦ absurd (ground arith)
  | inr (encoded, e) ↦ (encoded, e, ground arith, ground arith)
]

pub Opens-Read :
    (json : Json) (dir : Directory) (v : VersionManager) → Opens json dir v → Read json dir v
unfolding open_version_manager
Opens-Read json dir v h = elim (Result-cases (read_current dir)) [
  | inr (e, f) ↦ absurd (ground arith)
  | inl (name, f) ↦ elim (Result-cases (read_manifest_file json dir name)) [
    | inr (e, g) ↦ absurd (ground arith)
    | inl (m, g) ↦
        let named : bytes_equal (manifest_file_name m.generation) name ≡ true = ground arith in
        let made : v ≡ record { current = m; current_name = name } = ground arith in
        let (encoded, l, size, u) = file-Read json dir name m g in
        rw made (encoded, f, l, size, u, named)
  ]
]

lookup-new :
    (name contents other found : List ℕ) (files : List (List ℕ × List ℕ))
    → lookup_file name files ≡ none
    → lookup_file other files ≡ some found
    → lookup_file other ((name, contents) ∷ files) ≡ some found
unfolding lookup_file
lookup-new name contents other found files free there = elim (Bool-cases (bytes_equal name other)) [
  | inr e ↦ ground arith
  | inl e ↦
      let same = (bytes_equal_iff name other).0 e in
      let both : none ≡ some found = sym free ∙ ap (λ n. lookup_file n files) same ∙ there in cc
]

WithNew-Opens :
    (json : Json) (dir dir' : Directory) (name : List ℕ) (v : VersionManager)
    → WithNew dir name dir'
    → Opens json dir v
    → Opens json dir' v
unfolding with_file read_current
WithNew-Opens json dir dir' name v (contents, free, now) h =
    let (encoded, r, l, size, u, named) = Opens-Read json dir v h in
    let kept = lookup-new name contents v.current_name encoded dir.files free l in
    rw now (Read-Opens json _ v (encoded, r, kept, size, u, named))

pub Abandoned-Opens :
    (json : Json) (dir : Directory) (name : List ℕ) (p : Published) (v : VersionManager)
    → Abandoned dir name p
    → Opens json dir v
    → Opens json p.dir v
Abandoned-Opens json dir name p v (_, inl same) h = rw same h
Abandoned-Opens json dir name p v (_, inr new) h = WithNew-Opens json dir p.dir name v new h

-- The manager that reading the published manifest back gives
abbrev pub reopened : Json → Manifest → VersionManager
reopened json m = record {
  current = compacted json m;
  current_name = manifest_file_name m.generation;
}

read-pointer :
    (dir : Directory) (name : List ℕ)
    → dir.current ≡ some (pointer name)
    → decode_current (pointer name) ≡ ok name
    → read_current dir ≡ ok name
unfolding read_current
read-pointer dir name e f = ground arith

lookup-same :
    (name contents : List ℕ) (files : List (List ℕ × List ℕ))
    → lookup_file name ((name, contents) ∷ files) ≡ some contents
unfolding lookup_file
lookup-same name contents files = ground (arith, bytes_equal_refl name)

size-fits :
    (generation : ℕ) (payload encoded : List ℕ)
    → length payload ≤ max_manifest_size
    → encoded ≡ manifest_header generation payload ++ payload
    → ltb (length encoded) 32 || ltb (32 + 67108864) (length encoded) ≡ false
size-fits generation payload encoded bound made =
    rw made (ground (arith, file_size generation payload))

pub Committed-Opens :
    (json : Json) (dir : Directory) (m : Manifest) (p : Published)
    → 0 < m.generation
    → m.generation < 2 ^ 64
    → manifest_texts m ≡ true
    → Committed json dir m p
    → Opens json p.dir (reopened json m)
Committed-Opens json dir m p low high texts (encoded, e, free, done, files, current) =
    let (_, _, decoded) = decode-marshal_current m.generation low high in
    let (payload, _, _, bound, made) = marshal_inv json m encoded e in
    Read-Opens json p.dir (reopened json m) (
      encoded,
      read-pointer p.dir _ current decoded,
      rw files (lookup-same (manifest_file_name m.generation) encoded dir.files),
      size-fits m.generation payload encoded bound made,
      unmarshal-marshal_manifest json m encoded texts high e,
      bytes_equal_refl (manifest_file_name m.generation),
    )
