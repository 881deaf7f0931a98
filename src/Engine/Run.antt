-- ===== src/Engine/Run.antt =====
-- State and failure: a step leaves an engine whether it returns or fails.
use zvec.Base.{Bool, true, false}
use zvec.Errors.{Error, Result, ok, err}
use zvec.Wal.Handle.{Wal}
use zvec.Manager.{SegmentManager}

pub record Engine : Type 0 where
  pub manager : SegmentManager
  pub wal : Wal

abbrev pub Mutation : Type 0 → Type 0
Mutation A = Engine → Engine × Result A

infixl 5 ◌>>=◌ ◌>>◌
abbrev pub ◌>>=◌ : {A B : Type 0} → Mutation A → (A → Mutation B) → Mutation B
◌>>=◌ m f e = let (e', r) = m e in elim r [ ok a ↦ f a e' | err x ↦ (e', err x) ]

abbrev pub ◌>>◌ : {B : Type 0} → Mutation (Unit {0}) → Mutation B → Mutation B
m >> k = m >>= λ _. k

abbrev pub pure : {A : Type 0} → A → Mutation A
pure a e = (e, ok a)

abbrev pub lift : {A : Type 0} → Result A → Mutation A
lift r e = (e, r)

abbrev pub fail_if : Bool → Error → Mutation (Unit {0})
fail_if true x e = (e, err x)
fail_if false x e = (e, ok tt)

abbrev pub read : {A : Type 0} → (SegmentManager → Result A) → Mutation A
read f e = (e, f e.manager)

-- A method of the log, which returns the log that it leaves.
abbrev pub on_wal : {A : Type 0} → (Wal → Wal × Result A) → Mutation A
on_wal f e = let (wal, r) = f e.wal in (record e { wal = wal }, r)

-- A change of the manager, which fails with the manager as it was.
abbrev pub on_manager : (SegmentManager → Result SegmentManager) → Mutation (Unit {0})
on_manager f e = elim (f e.manager) [
  | ok m ↦ (record e { manager = m }, ok tt)
  | err x ↦ (e, err x)
]
