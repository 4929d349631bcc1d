-- ===== src/Rotation/Files.antt =====
-- Which file holds what after the renames of `_rotate`.
use logquill_python.Base.{
  ℕ, zero, suc, ◌-◌, ◌≤◌, nat_eq, false, ◌&&◌, Option, none, some, [], ◌≡◌, refl, sym, ap, ◌∙◌, leb,
  ◌==◌, arith, if◌then◌else◌, Option-cases, inl, inr,
}
use logquill_python.Dict.{get, remove}
use logquill_python.Dict.Laws.{get-put, get-remove, get-set_default}
use logquill_python.Rotation.{Chunk, FileMap, open_file, moved, rename, shift, push_back}

-- a file that is there is moved
get-rename-some :
    (files : FileMap) (src dst j : ℕ) (chunk : Chunk)
    → get files src ≡ some chunk
    → (src == dst) ≡ false
    → get (rename files src dst) j
      ≡ (if dst == j then some chunk else if src == j then none else get files j)
unfolding rename moved
get-rename-some files src dst j chunk h apart =
    rw (h, moved)
      (get-put (remove (remove files dst) src) dst j chunk
        ∙ ap (λ (o : Option Chunk). if dst == j then some chunk else o)
            (get-remove (remove files dst) src j)
        ∙ ground (arith, get-remove files dst j))

get-rename-none :
    (files : FileMap) (src dst j : ℕ)
    → get files src ≡ none
    → get (rename files src dst) j ≡ get files j
unfolding rename moved
get-rename-none files src dst j h = rw (h, moved) refl

-- No file from the first backup to `n` is missing in front of one that is there.
abbrev pub HasNoGap : ℕ → FileMap → Type 0
HasNoGap n files = (k : ℕ) → 1 ≤ k → k ≤ n → get files k ≡ none → get files (suc k) ≡ none

-- one rename of the loop: the file after the gap that it makes
get-rename :
    (files : FileMap) (i j : ℕ)
    → HasNoGap (suc i) files
    → get (rename files (suc i) (suc (suc i))) j
      ≡ (if suc (suc i) == j then get files (suc i) else if suc i == j then none else get files j)
get-rename files i j gap = elim (Option-cases (get files (suc i))) [
  | inl e ↦
      get-rename-none files (suc i) (suc (suc i)) j e
      ∙ ground (
        arith,
        e,
        gap (suc i) (omega arith) (omega arith) e,
        nat_eq.same_iff (suc (suc i)) j,
        nat_eq.same_iff (suc i) j,
      )
  | inr (chunk, e) ↦
      get-rename-some files (suc i) (suc (suc i)) j chunk e (ground arith)
      ∙ ap
          (λ (o : Option Chunk).
            if suc (suc i) == j then o else if suc i == j then none else get files j)
          (sym e)
]

rename-HasNoGap :
    (files : FileMap) (i : ℕ)
    → HasNoGap (suc i) files
    → HasNoGap i (rename files (suc i) (suc (suc i)))
rename-HasNoGap files i gap k low high missing = ground (
  arith,
  get-rename files i k gap,
  get-rename files i (suc k) gap,
  gap k low (omega (arith, high)),
  missing,
  nat_eq.same_iff (suc (suc i)) k,
  nat_eq.same_iff (suc i) k,
  nat_eq.same_iff (suc (suc i)) (suc k),
  nat_eq.same_iff (suc i) (suc k),
  low,
  high,
)

get-shift :
    (i : ℕ) (files : FileMap) (j : ℕ)
    → HasNoGap i files
    → get (shift i files) j ≡ (
        if leb 1 i && j == 1
        then none
        else if leb 2 j && leb j (suc i)
        then get files (j - 1)
        else get files j)
unfolding shift
get-shift zero files j gap = ground arith
get-shift (suc i) files j gap = ground (
  arith,
  get-shift i (rename files (suc i) (suc (suc i))) j (rename-HasNoGap files i gap),
  get-rename files i j gap,
  get-rename files i (j - 1) gap,
  nat_eq.same_iff (suc (suc i)) j,
  nat_eq.same_iff (suc i) j,
  nat_eq.same_iff (suc (suc i)) (j - 1),
  nat_eq.same_iff (suc i) (j - 1),
  nat_eq.same_iff j 1,
)

-- the files after a rotation that keeps `n` backups
pub get-push_back :
    (n : ℕ) (files : FileMap) (j : ℕ) (chunk : Chunk)
    → HasNoGap (n - 1) files
    → get files 0 ≡ some chunk
    → get (open_file (push_back n files)) j
      ≡ (if j == 0 then some [] else if leb j n then get files (j - 1) else get files j)
unfolding push_back open_file
get-push_back zero files j chunk gap there =
    get-set_default (remove files 0) 0 j []
    ∙ ground (
      arith,
      get-remove files 0 j,
      get-remove files 0 0,
      nat_eq.same_iff 0 j,
      nat_eq.same_iff j 0,
    )
get-push_back (suc n) files j chunk gap there =
    let shifted = shift n files in
    let gap' : HasNoGap n files = λ k low high. gap k low (omega (arith, high)) in
    let first : get shifted 0 ≡ some chunk = get-shift n files 0 gap' ∙ ground (arith, there) in
    get-set_default (rename shifted 0 1) 0 j []
    ∙ ground (
      arith,
      there,
      get-rename-some shifted 0 1 0 chunk first (ground arith),
      get-rename-some shifted 0 1 j chunk first (ground arith),
      get-shift n files j gap',
      nat_eq.same_iff 0 j,
      nat_eq.same_iff j 0,
      nat_eq.same_iff 1 j,
      nat_eq.same_iff j 1,
    )
