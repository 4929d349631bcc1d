-- ===== src/Rotation/Keeps.antt =====
-- Which lines the files still hold.
use mathlib.Core.Path.{subst}
use logquill_python.Base.{
  ℕ, zero, suc, ◌<◌, String, false, List, [], ◌∷◌, ◌++◌, ◌≡◌, refl, sym, ap, ◌∙◌, arith, take,
  append_assoc, append-nil, Bool-cases, inl, inr,
}
use logquill_python.Rotation.{Chunk, new, size, write_all}
use logquill_python.Rotation.Chunks.{
  append_to, has_grown, log, log_all, IsView, new-IsView, write_all-IsView,
}

-- the lines of the files, the oldest first
abbrev pub lines_of : List Chunk → List String
lines_of [] = []
lines_of (c ∷ chunks) = lines_of chunks ++ c

-- `l` ends with `m`
abbrev pub EndsWith : List String → List String → Type 0
EndsWith l m = (lost : List String) × (lost ++ m ≡ l)

EndsWith-self : (l : List String) → EndsWith l l
EndsWith-self l = ([], refl)

EndsWith-append : (l m more : List String) → EndsWith l m → EndsWith (l ++ more) (m ++ more)
EndsWith-append l m more (lost, e) =
    (lost, sym (append_assoc lost m more) ∙ ap (λ (k : List String). k ++ more) e)

EndsWith-trans : (l m n : List String) → EndsWith l m → EndsWith m n → EndsWith l n
EndsWith-trans l m n (lost, e) (gone, f) =
    (lost ++ gone, append_assoc lost gone n ∙ ap (λ (k : List String). lost ++ k) f ∙ e)

EndsWith-nil : (l : List String) → EndsWith l []
EndsWith-nil l = (l, append-nil l)

lines_of-take :
    (n : ℕ) (chunks : List Chunk) → EndsWith (lines_of chunks) (lines_of (take n chunks))
lines_of-take zero chunks = EndsWith-nil (lines_of chunks)
lines_of-take (suc n) [] = EndsWith-self []
lines_of-take (suc n) (c ∷ chunks) =
    EndsWith-append (lines_of chunks) (lines_of (take n chunks)) c (lines_of-take n chunks)

lines_of-append_to :
    (chunks : List Chunk) (line : String)
    → lines_of (append_to chunks line) ≡ lines_of chunks ++ line ∷ []
lines_of-append_to [] line = refl
lines_of-append_to (c ∷ chunks) line = sym (append_assoc (lines_of chunks) c (line ∷ []))

module _ (size_of : String → ℕ) where
  -- the newest file is below the bound, if there is one
  abbrev pub IsBelowBound : ℕ → List Chunk → Type 0
  IsBelowBound max_bytes [] = Unit
  IsBelowBound max_bytes (c ∷ chunks) = 0 < max_bytes → size size_of c < max_bytes

  log-EndsWith :
      (m n : ℕ) (chunks : List Chunk) (line : String)
      → EndsWith (lines_of chunks ++ line ∷ []) (lines_of (log size_of m n chunks line))
  unfolding log
  log-EndsWith m n chunks line =
      let longer = append_to chunks line in
      let e = lines_of-append_to chunks line in
      elim (Bool-cases (has_grown size_of m longer)) [
        | inl q ↦ rw q (
            subst (λ (l : List String). EndsWith l (lines_of (take n longer) ++ [])) e
              (subst (EndsWith (lines_of longer)) (sym (append-nil (lines_of (take n longer))))
                (lines_of-take n longer)))
        | inr q ↦ rw q (
            subst (λ (l : List String). EndsWith l (lines_of longer)) e
              (EndsWith-self (lines_of longer)))
      ]

  log-IsBelowBound :
      (m n : ℕ) (chunks : List Chunk) (line : String) → IsBelowBound m (log size_of m n chunks line)
  unfolding log
  log-IsBelowBound m n chunks line =
      elim (Bool-cases (has_grown size_of m (append_to chunks line))) [
        | inl q ↦ rw q (λ h. h)
        | inr q ↦ rw q (not_grown m (append_to chunks line) q)
      ]
    where
      not_grown :
          (m : ℕ) (chunks : List Chunk) → has_grown size_of m chunks ≡ false → IsBelowBound m chunks
      not_grown m [] q = tt
      not_grown m (c ∷ chunks) q = λ h. ground arith

  log_all-EndsWith :
      (m n : ℕ) (chunks : List Chunk) (lines : List String)
      → EndsWith (lines_of chunks ++ lines) (lines_of (log_all size_of m n chunks lines))
  unfolding log_all
  log_all-EndsWith m n chunks [] =
      subst (λ (l : List String). EndsWith l (lines_of chunks)) (sym (append-nil (lines_of chunks)))
        (EndsWith-self (lines_of chunks))
  log_all-EndsWith m n chunks (line ∷ lines) =
      subst
        (λ (l : List String).
          EndsWith l (lines_of (log_all size_of m n (log size_of m n chunks line) lines)))
        (append_assoc (lines_of chunks) (line ∷ []) lines)
        (EndsWith-trans ((lines_of chunks ++ line ∷ []) ++ lines)
          (lines_of (log size_of m n chunks line) ++ lines)
          (lines_of (log_all size_of m n (log size_of m n chunks line) lines))
          (EndsWith-append (lines_of chunks ++ line ∷ []) (lines_of (log size_of m n chunks line))
            lines (log-EndsWith m n chunks line))
          (log_all-EndsWith m n (log size_of m n chunks line) lines))

  log_all-IsBelowBound :
      (m n : ℕ) (chunks : List Chunk) (lines : List String)
      → IsBelowBound m chunks
      → IsBelowBound m (log_all size_of m n chunks lines)
  unfolding log_all
  log_all-IsBelowBound m n chunks [] h = h
  log_all-IsBelowBound m n chunks (line ∷ lines) h =
      log_all-IsBelowBound m n (log size_of m n chunks line) lines
        (log-IsBelowBound m n chunks line)

  -- A transport that starts in an empty directory: whatever lines are written, the files from the
  -- oldest backup to `path` hold the last of them, in order, each once and none else; there are at
  -- most `backup_count` backups; and where `max_bytes` is above 0, `path` is below it.
  pub write_all-keeps_last :
      (max_bytes backup_count : ℕ) (lines : List String)
      → (chunks : List Chunk) × IsView
          (write_all size_of (new [] max_bytes backup_count) lines)
          chunks
        × EndsWith lines (lines_of chunks)
        × IsBelowBound max_bytes chunks
  unfolding new
  write_all-keeps_last max_bytes backup_count lines = (
    log_all size_of max_bytes backup_count ([] ∷ []) lines,
    write_all-IsView size_of (new [] max_bytes backup_count) ([] ∷ []) lines
        (new-IsView max_bytes backup_count),
    log_all-EndsWith max_bytes backup_count ([] ∷ []) lines,
    log_all-IsBelowBound max_bytes backup_count ([] ∷ []) lines (λ h. h),
  )
