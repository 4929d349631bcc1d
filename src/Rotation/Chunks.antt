-- ===== src/Rotation/Chunks.antt =====
-- What the files are for: a list of chunks, the newest first, of which the oldest are forgotten.
use mathlib.Core.Path.{subst}
use logquill_python.Base.{
  ℕ, zero, suc, ◌-◌, ◌≤◌, String, nat_eq, Bool, false, ◌&&◌, Option, none, some, List, [], ◌∷◌,
  ◌++◌, ◌≡◌, refl, sym, ap, ◌∙◌, leb, ltb, ◌==◌, arith, take, length, if_both, if◌then◌else◌,
  Bool-cases, inl, inr,
}
use logquill_python.Dict.{get}
use logquill_python.Dict.Laws.{get-put, get-set_default}
use logquill_python.Rotation.{
  Chunk, FileTransport, new, open_file, rotate, chunk_or_nil, size, append_line, is_full, write,
  write_all,
}
use logquill_python.Rotation.Files.{HasNoGap, get-push_back}

abbrev pub nth : List Chunk → ℕ → Option Chunk
nth [] j = none
nth (c ∷ chunks) zero = some c
nth (c ∷ chunks) (suc j) = nth chunks j

abbrev pub append_to : List Chunk → String → List Chunk
append_to [] line = (line ∷ []) ∷ []
append_to (c ∷ chunks) line = (c ++ line ∷ []) ∷ chunks

module _ (size_of : String → ℕ) where
  -- the newest chunk has reached the bound
  abbrev pub has_grown : ℕ → List Chunk → Bool
  has_grown max_bytes [] = false
  has_grown max_bytes (c ∷ chunks) = ltb 0 max_bytes && leb max_bytes (size size_of c)

  -- A written line ends the newest chunk; a chunk that has reached the bound is closed, and of the
  -- closed ones the newest are kept.
  unfoldable pub log : ℕ → ℕ → List Chunk → String → List Chunk
  log max_bytes backup_count chunks line =
      let longer = append_to chunks line in
      if has_grown max_bytes longer then [] ∷ take backup_count longer else longer

  unfoldable pub log_all : ℕ → ℕ → List Chunk → List String → List Chunk
  unfolding log
  log_all max_bytes backup_count chunks [] = chunks
  log_all max_bytes backup_count chunks (line ∷ lines) =
      log_all max_bytes backup_count (log max_bytes backup_count chunks line) lines

nth-take :
    (n : ℕ) (chunks : List Chunk) (j : ℕ)
    → nth (take n chunks) j ≡ (if ltb j n then nth chunks j else none)
nth-take zero chunks j = ground arith
nth-take (suc n) [] j = ground arith
nth-take (suc n) (c ∷ chunks) zero = ground arith
nth-take (suc n) (c ∷ chunks) (suc j) = nth-take n chunks j ∙ ground arith

nth-next : (chunks : List Chunk) (k : ℕ) → nth chunks k ≡ none → nth chunks (suc k) ≡ none
nth-next [] k h = refl
nth-next (c ∷ chunks) zero h = absurd (ground arith)
nth-next (c ∷ chunks) (suc k) h = nth-next chunks k h

nth-long : (chunks : List Chunk) (k : ℕ) → length chunks ≤ k → nth chunks k ≡ none
nth-long [] k h = refl
nth-long (c ∷ chunks) zero h = absurd (omega (arith, h))
nth-long (c ∷ chunks) (suc k) h = nth-long chunks k (omega (arith, h))

length-take-le : (n : ℕ) (chunks : List Chunk) → length (take n chunks) ≤ n
length-take-le zero chunks = omega arith
length-take-le (suc n) [] = omega arith
length-take-le (suc n) (c ∷ chunks) = omega (arith, length-take-le n chunks)

-- the files are the chunks: `path` the newest, `path.1` the one before it, and so on
pub record IsView (t : FileTransport) (chunks : List Chunk) : Type 0 where
  pub holds : (j : ℕ) → get t.files j ≡ nth chunks j
  pub few : length chunks ≤ suc t.backup_count
  pub opened : 1 ≤ length chunks

pub new-IsView : (max_bytes backup_count : ℕ) → IsView (new [] max_bytes backup_count) ([] ∷ [])
unfolding new open_file
new-IsView max_bytes backup_count = record {
  holds = λ j. get-set_default [] 0 j [] ∙ by_place j;
  few = omega arith;
  opened = omega arith;
}
  where
    by_place :
        (j : ℕ)
        → (if 0 == j
            then elim (get {K = ℕ} {V = Chunk} [] 0) [ none ↦ some [] | some w ↦ some w ]
            else get {K = ℕ} {V = Chunk} [] j)
          ≡ nth ([] ∷ []) j
    by_place zero = unfold get in refl
    by_place (suc j) = unfold get in ground arith

module _ (size_of : String → ℕ) where
  append_line-IsView :
      (t : FileTransport) (chunks : List Chunk) (line : String)
      → IsView t chunks
      → IsView (append_line size_of t line) (append_to chunks line)
  unfolding append_line
  append_line-IsView t [] line v = absurd (omega (arith, v.opened))
  append_line-IsView t (c ∷ chunks) line v = record {
    holds = λ j.
        get-put t.files 0 j (chunk_or_nil (get t.files 0) ++ line ∷ [])
        ∙ ap
            (λ (o : Option Chunk).
              if 0 == j then some (chunk_or_nil o ++ line ∷ []) else get t.files j)
            (v.holds 0)
        ∙ by_place j;
    few = v.few;
    opened = omega arith;
  }
    where
      by_place :
          (j : ℕ)
          → (if 0 == j then some (c ++ line ∷ []) else get t.files j)
            ≡ nth ((c ++ line ∷ []) ∷ chunks) j
      by_place zero = refl
      by_place (suc j) = ground (arith, v.holds (suc j))

  is_full-has_grown :
      (t : FileTransport) (chunks : List Chunk)
      → IsView t chunks
      → is_full size_of t ≡ has_grown size_of t.max_bytes chunks
  is_full-has_grown t [] v = absurd (omega (arith, v.opened))
  is_full-has_grown t (c ∷ chunks) v =
      ap
        (λ (o : Option Chunk). ltb 0 t.max_bytes && leb t.max_bytes (size size_of (chunk_or_nil o)))
        (v.holds 0)

rotate-IsView :
    (t : FileTransport) (c : Chunk) (chunks : List Chunk)
    → IsView t (c ∷ chunks)
    → IsView (rotate t) ([] ∷ take t.backup_count (c ∷ chunks))
unfolding rotate
rotate-IsView t c chunks v = record {
  holds = λ j. get-push_back t.backup_count t.files j c gap (v.holds 0) ∙ by_place j;
  few = omega (arith, length-take-le t.backup_count (c ∷ chunks));
  opened = omega arith;
}
  where
    gap : HasNoGap (t.backup_count - 1) t.files
    gap k low high missing = v.holds (suc k) ∙ nth-next (c ∷ chunks) k (sym (v.holds k) ∙ missing)

    by_place :
        (j : ℕ)
        → (if j == 0
            then some []
            else if leb j t.backup_count
            then get t.files (j - 1)
            else get t.files j)
          ≡ nth ([] ∷ take t.backup_count (c ∷ chunks)) j
    by_place zero = ground arith
    by_place (suc j) = ground (
      arith,
      v.holds j,
      v.holds (suc j),
      nth-take t.backup_count (c ∷ chunks) j,
      nth-long (c ∷ chunks) (suc j),
      v.few,
    )

settings-write :
    (size_of : String → ℕ) (t : FileTransport) (line : String)
    → ((write size_of t line).max_bytes ≡ t.max_bytes)
      × ((write size_of t line).backup_count ≡ t.backup_count)
unfolding write append_line rotate
settings-write size_of t line =
    if_both (λ (u : FileTransport). (u.max_bytes ≡ t.max_bytes) × (u.backup_count ≡ t.backup_count))
      (is_full size_of (append_line size_of t line)) (refl, refl) (refl, refl)

module _ (size_of : String → ℕ) where
  write-IsView :
      (t : FileTransport) (chunks : List Chunk) (line : String)
      → IsView t chunks
      → IsView (write size_of t line) (log size_of t.max_bytes t.backup_count chunks line)
  unfolding write log
  write-IsView t [] line v = absurd (omega (arith, v.opened))
  write-IsView t (c ∷ chunks) line v =
      let longer = append_line-IsView size_of t (c ∷ chunks) line v in
      let full =
        is_full-has_grown size_of (append_line size_of t line) ((c ++ line ∷ []) ∷ chunks) longer in
      elim (Bool-cases (is_full size_of (append_line size_of t line))) [
        | inl e ↦
            rw (e, same_bound full e)
              (rotate-IsView (append_line size_of t line) (c ++ line ∷ []) chunks longer)
        | inr e ↦ rw (e, same_bound full e) longer
      ]
    where
      same_bound :
          {b : Bool}
          → is_full size_of (append_line size_of t line)
            ≡ has_grown size_of (append_line size_of t line).max_bytes ((c ++ line ∷ []) ∷ chunks)
          → is_full size_of (append_line size_of t line) ≡ b
          → has_grown size_of t.max_bytes ((c ++ line ∷ []) ∷ chunks) ≡ b
      same_bound full e = (unfold append_line in sym full) ∙ e

  -- The files refine a list of chunks: after any writes, from files that show such a list, `path`
  -- holds the newest chunk and `path.n` the n-th before it, and there is no other file; the list is
  -- what appending each line to the newest chunk, closing a chunk that has reached `max_bytes`, and
  -- keeping the `backup_count` newest closed ones make of the lines.
  pub write_all-IsView :
      (t : FileTransport) (chunks : List Chunk) (lines : List String)
      → IsView t chunks
      → IsView (write_all size_of t lines) (log_all size_of t.max_bytes t.backup_count chunks lines)
  unfolding write_all log_all
  write_all-IsView t chunks [] v = v
  write_all-IsView t chunks (line ∷ lines) v =
      let (bytes, count) = settings-write size_of t line in
      subst
        (λ (m : ℕ). IsView (write_all size_of (write size_of t line) lines) (
          log_all size_of m t.backup_count (log size_of t.max_bytes t.backup_count chunks line)
            lines))
        bytes
        (subst
          (λ (n : ℕ). IsView (write_all size_of (write size_of t line) lines) (
            log_all size_of (write size_of t line).max_bytes n
              (log size_of t.max_bytes t.backup_count chunks line) lines))
          count
          (write_all-IsView (write size_of t line)
            (log size_of t.max_bytes t.backup_count chunks line) lines
            (write-IsView t chunks line v)))
