-- ===== src/TraceTree/Parents.antt =====
-- That each node stands where its record says: under the span that it names, or at the roots.
use mathlib.Core.Path.{subst}
use logquill_python.Base.{
  ℕ, zero, suc, String, string_eq, Option, none, some, List, [], ◌∷◌, ◌++◌, ◌≡◌, ◌≢◌, inl, inr,
  refl, sym, length, arith, All, All-append, ◌==◌, Bool-cases,
}
use logquill_python.Dict.{Dict, get, put, remove}
use logquill_python.Dict.Laws.{get-put}
use logquill_python.Value.{Meta}
use logquill_python.TraceTree.{Node, append_child, or_nil, span_id, parent_span_id}
use logquill_python.TraceTree.Kept.{entries_of}

-- the parent that the record at a place names
unfoldable pub parent_at : List Meta → ℕ → Option String
parent_at [] i = none
parent_at (e ∷ es) zero = parent_span_id e
parent_at (e ∷ es) (suc i) = parent_at es i

unfoldable pub span_at : List Meta → ℕ → Option String
span_at [] i = none
span_at (e ∷ es) zero = span_id e
span_at (e ∷ es) (suc i) = span_at es i

-- the record at the place names `k` as its parent
abbrev pub HasParent : List Meta → String → ℕ → Type 0
HasParent es k c = parent_at es c ≡ some k

abbrev pub FamilyOf : List Meta → Option String → List ℕ → Type 0
FamilyOf es none l = l ≡ []
FamilyOf es (some k) l = All (HasParent es k) l

-- the children of a node name its span; a record that is no span's has none
abbrev pub IsFamily : List Meta → Node → Type 0
IsFamily es n = FamilyOf es (span_id n.entry) n.children

-- no record of the list is that of the span `k`
abbrev pub HasNoSpan : String → List Meta → Type 0
HasNoSpan k es = All (λ (e : Meta). span_id e ≢ some k) es

pub parent_at-append :
    (es more : List Meta) (c : ℕ) (k : String) → HasParent es k c → HasParent (es ++ more) k c
unfolding parent_at
parent_at-append [] more c k h = absurd (ground arith)
parent_at-append (e ∷ es) more zero k h = h
parent_at-append (e ∷ es) more (suc c) k h = parent_at-append es more c k h

pub span_at-append :
    (es more : List Meta) (c : ℕ) (k : String)
    → span_at es c ≡ some k
    → span_at (es ++ more) c ≡ some k
unfolding span_at
span_at-append [] more c k h = absurd (ground arith)
span_at-append (e ∷ es) more zero k h = h
span_at-append (e ∷ es) more (suc c) k h = span_at-append es more c k h

pub parent_at-last :
    (es : List Meta) (e : Meta) → parent_at (es ++ e ∷ []) (length es) ≡ parent_span_id e
unfolding parent_at
parent_at-last [] e = refl
parent_at-last (d ∷ es) e = parent_at-last es e

pub span_at-last : (es : List Meta) (e : Meta) → span_at (es ++ e ∷ []) (length es) ≡ span_id e
unfolding span_at
span_at-last [] e = refl
span_at-last (d ∷ es) e = span_at-last es e

pub parents-append :
    (es more : List Meta) (k : String) (l : List ℕ)
    → All (HasParent es k) l
    → All (HasParent (es ++ more) k) l
parents-append es more k [] a = tt
parents-append es more k (c ∷ l) (first, rest) =
    (parent_at-append es more c k first, parents-append es more k l rest)

family-append :
    (es more : List Meta) (o : Option String) (l : List ℕ)
    → FamilyOf es o l
    → FamilyOf (es ++ more) o l
family-append es more none l h = h
family-append es more (some k) l h = parents-append es more k l h

pub families-append :
    (es more : List Meta) (store : List Node)
    → All (IsFamily es) store
    → All (IsFamily (es ++ more)) store
families-append es more [] a = tt
families-append es more (n ∷ store) (first, rest) =
    (family-append es more (span_id n.entry) n.children first, families-append es more store rest)

-- a child more, under the node of the span that it names
pub families-append_child :
    (es : List Meta) (store : List Node) (i c : ℕ) (k : String)
    → span_at (entries_of store) i ≡ some k
    → HasParent es k c
    → All (IsFamily es) store
    → All (IsFamily es) (append_child store i c)
unfolding append_child span_at
families-append_child es [] i c k s h a = tt
families-append_child es (n ∷ store) zero c k s h (first, rest) = (
  subst (λ (o : Option String). FamilyOf es o (n.children ++ c ∷ [])) (sym s)
      (All-append (HasParent es k) n.children (c ∷ [])
        (subst (λ (o : Option String). FamilyOf es o n.children) s first) (h, tt)),
  rest,
)
families-append_child es (n ∷ store) (suc i) c k s h (first, rest) =
    (first, families-append_child es store i c k s h rest)

-- what waits names a span that has no node
abbrev pub AreWaiting : List Meta → Dict String ℕ → Dict String (List ℕ) → Type 0
AreWaiting es nodes [] = Unit
AreWaiting es nodes ((k, l) ∷ pending) =
    (All (HasParent es k) l × (get nodes k ≡ none)) × AreWaiting es nodes pending

pub waiting-append :
    (es more : List Meta) (nodes : Dict String ℕ) (d : Dict String (List ℕ))
    → AreWaiting es nodes d
    → AreWaiting (es ++ more) nodes d
waiting-append es more nodes [] a = tt
waiting-append es more nodes ((k, l) ∷ d) (first, rest) =
    ((parents-append es more k l first.0, first.1), waiting-append es more nodes d rest)

pub waiting-get :
    (es : List Meta) (nodes : Dict String ℕ) (d : Dict String (List ℕ)) (k : String)
    → AreWaiting es nodes d
    → All (HasParent es k) (or_nil (get d k))
unfolding get
waiting-get es nodes [] k a = tt
waiting-get es nodes ((j, l) ∷ d) k (first, rest) = elim (Bool-cases (j == k)) [
  | inl e ↦
      rw e (subst (λ (s : String). All (HasParent es s) l) ((string_eq.same_iff j k).0 e) first.0)
  | inr e ↦ rw e (waiting-get es nodes d k rest)
]

-- a new node takes what waits for its span
pub waiting-remove :
    (es : List Meta) (nodes : Dict String ℕ) (d : Dict String (List ℕ)) (k : String) (i : ℕ)
    → AreWaiting es nodes d
    → AreWaiting es (put nodes k i) (remove d k)
unfolding remove
waiting-remove es nodes [] k i a = tt
waiting-remove es nodes ((j, l) ∷ d) k i (first, rest) = elim (Bool-cases (j == k)) [
  | inl e ↦ rw e (waiting-remove es nodes d k i rest)
  | inr e ↦ rw e (
    (
      first.0,
      ground
          (arith, get-put nodes k j i, first.1, e, string_eq.same_iff k j, string_eq.same_iff j k),
    ),
    waiting-remove es nodes d k i rest,
  )
]

pub waiting-put :
    (es : List Meta) (nodes : Dict String ℕ) (d : Dict String (List ℕ)) (k : String) (l : List ℕ)
    → get nodes k ≡ none
    → All (HasParent es k) l
    → AreWaiting es nodes d
    → AreWaiting es nodes (put d k l)
unfolding put
waiting-put es nodes [] k l free h a = ((h, free), tt)
waiting-put es nodes ((j, m) ∷ d) k l free h (first, rest) = elim (Bool-cases (j == k)) [
  | inl e ↦ rw e (
    (
      subst (λ (s : String). All (HasParent es s) l) (sym ((string_eq.same_iff j k).0 e)) h,
      first.1,
    ),
    rest,
  )
  | inr e ↦ rw e (first, waiting-put es nodes d k l free h rest)
]
