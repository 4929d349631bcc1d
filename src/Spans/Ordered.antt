-- ===== src/Spans/Ordered.antt =====
-- That a program writes its records in the order that `logquill/cli/trace_tree.py` documents.
use logquill_python.Base.{
  String, string_eq, true, false, ◌||◌, Option, none, some, List, [], ◌∷◌, ◌++◌, ◌≡◌, refl, sym, ap,
  ◌∙◌, ◌==◌, contains, arith,
}
use logquill_python.Dict.{get}
use logquill_python.Value.{Meta}
use logquill_python.TraceTree.{named}
use logquill_python.TraceTree.Order.{IsOpen, saw}
use logquill_python.Spans.{Block, logs, spans, binds, throws, catches, Blocks, done, next, as_value}
use logquill_python.Spans.Metas.{IsPlain}

abbrev pub span_of : Meta → Option String
span_of meta = named (get meta "span_id")

abbrev pub parent_of : Meta → Option String
parent_of meta = named (get meta "parent_span_id")

-- the ids of a record: of its span, and of the span around it
abbrev pub Mark : Type 0
Mark = Option String × Option String

abbrev pub mark : Meta → Mark
mark meta = (span_of meta, parent_of meta)

abbrev pub marks : List Meta → List Mark
marks [] = []
marks (meta ∷ records) = mark meta ∷ marks records

pub marks-append : (l m : List Meta) → marks (l ++ m) ≡ marks l ++ marks m
marks-append [] m = refl
marks-append (meta ∷ l) m = ap (λ (r : List Mark). mark meta ∷ r) (marks-append l m)

-- `InOrder`, on all records of a file
abbrev pub AllInOrder : List String → List Mark → Type 0
AllInOrder seen [] = Unit
AllInOrder seen ((span, parent) ∷ rest) =
    IsOpen (saw seen span) parent × AllInOrder (saw seen span) rest

abbrev pub saw_all : List String → List Mark → List String
saw_all seen [] = seen
saw_all seen ((span, parent) ∷ rest) = saw_all (saw seen span) rest

AllInOrder-append :
    (seen : List String) (l m : List Mark)
    → AllInOrder seen l
    → AllInOrder (saw_all seen l) m
    → AllInOrder seen (l ++ m)
AllInOrder-append seen [] m a b = b
AllInOrder-append seen ((span, parent) ∷ l) m (first, more) b =
    (first, AllInOrder-append (saw seen span) l m more b)

saw_all-append :
    (seen : List String) (l m : List Mark) → saw_all seen (l ++ m) ≡ saw_all (saw_all seen l) m
saw_all-append seen [] m = refl
saw_all-append seen ((span, parent) ∷ l) m = saw_all-append (saw seen span) l m

pub contains-append :
    (l m : List String) (x : String) → contains (l ++ m) x ≡ (contains l x || contains m x)
contains-append [] m x = refl
contains-append (y ∷ l) m x = ground (arith, contains-append l m x)

-- the ids of the spans of a block
unfoldable mutual
  pub ids_of : Block → List String
  ids_of (logs meta) = []
  ids_of (spans span body) = span.span_id ∷ ids_of_all body
  ids_of (binds values body) = ids_of_all body
  ids_of (throws error) = []
  ids_of (catches body) = ids_of_all body

  pub ids_of_all : Blocks → List String
  ids_of_all done = []
  ids_of_all (next block rest) = ids_of block ++ ids_of_all rest

-- The spans have ids that are not empty, not used before and different from each other, none gives
-- its parent itself, and no call names the two ids in its `meta` or binds them.
unfoldable mutual
  unfolding ids_of

  pub IsTidy : List String → Block → Type 0
  IsTidy used (logs meta) = IsPlain meta
  IsTidy used (spans span body) =
      ((span.span_id == "") ≡ false)
      × (contains used span.span_id ≡ false)
      × (span.explicit_parent ≡ none)
      × IsPlain span.meta
      × AreTidy (span.span_id ∷ used) body
  IsTidy used (binds values body) = IsPlain values × AreTidy used body
  IsTidy used (throws error) = Unit
  IsTidy used (catches body) = AreTidy used body

  pub AreTidy : List String → Blocks → Type 0
  AreTidy used done = Unit
  AreTidy used (next block rest) = IsTidy used block × AreTidy (ids_of block ++ used) rest

-- what the records of a block do to the ids that were seen, where `used` holds all that were given
pub record Emits (seen used ids : List String) (records : List Mark) : Type 0 where
  pub ordered : AllInOrder seen records
  pub within :
      (x : String) → contains (saw_all seen records) x ≡ true → contains (ids ++ used) x ≡ true
  pub old_same :
      (x : String) → contains used x ≡ true → contains (saw_all seen records) x ≡ contains seen x

-- the span around a block is open: its id is given, and its record is not written
abbrev pub IsAround : List String → List String → Option String → Type 0
IsAround seen used none = Unit
IsAround seen used (some p) =
    ((p == "") ≡ false) × (contains used p ≡ true) × (contains seen p ≡ false)

abbrev pub AreGiven : List String → List String → Type 0
AreGiven seen used = (x : String) → contains seen x ≡ true → contains used x ≡ true

pub named_value :
    (seen used : List String) (p : Option String) → IsAround seen used p → named (as_value p) ≡ p
named_value seen used none a = refl
named_value seen used (some p) a = rw a.0 refl

pub nothing-Emits : (seen used : List String) → AreGiven seen used → Emits seen used [] []
nothing-Emits seen used given = record { ordered = tt; within = given; old_same = λ x h. refl }

IsOpen-around : (seen used : List String) (p : Option String) → IsAround seen used p → IsOpen seen p
IsOpen-around seen used none a = tt
IsOpen-around seen used (some p) a = a.2

pub event-Emits :
    (seen used : List String) (p : Option String)
    → AreGiven seen used
    → IsAround seen used p
    → Emits seen used [] ((none, p) ∷ [])
event-Emits seen used p given a = record {
  ordered = (IsOpen-around seen used p a, tt);
  within = given;
  old_same = λ x h. refl;
}

pub append-Emits :
    (seen used ids more : List String) (l m : List Mark)
    → Emits seen used ids l
    → Emits (saw_all seen l) (ids ++ used) more m
    → Emits seen used (ids ++ more) (l ++ m)
append-Emits seen used ids more l m a b = record {
  ordered = AllInOrder-append seen l m a.ordered b.ordered;
  within = λ x h. ground (
    arith,
    b.within x (ap (λ (s : List String). contains s x) (sym (saw_all-append seen l m)) ∙ h),
    contains-append (ids ++ more) used x,
    contains-append ids more x,
    contains-append more (ids ++ used) x,
    contains-append ids used x,
  );
  old_same = λ x h.
      ap (λ (s : List String). contains s x) (saw_all-append seen l m)
      ∙ b.old_same x (ground (arith, h, contains-append ids used x))
      ∙ a.old_same x h;
}

-- fewer records than the ids allow
pub short-Emits :
    (seen used ids more : List String) (l : List Mark)
    → Emits seen used ids l
    → Emits seen used (ids ++ more) l
short-Emits seen used ids more l a = record {
  ordered = a.ordered;
  within = λ x h. ground (
    arith,
    a.within x h,
    contains-append (ids ++ more) used x,
    contains-append ids more x,
    contains-append ids used x,
  );
  old_same = a.old_same;
}

-- a span's own record, behind those of its body
pub span-Emits :
    (seen used ids : List String) (p : Option String) (id : String) (l : List Mark)
    → IsAround seen used p
    → contains used id ≡ false
    → Emits seen (id ∷ used) ids l
    → Emits seen used (id ∷ ids) (l ++ (some id, p) ∷ [])
span-Emits seen used ids p id l around fresh a = record {
  ordered = AllInOrder-append seen l ((some id, p) ∷ []) a.ordered (own_open p around, tt);
  within = λ x h. ground (
    arith,
    a.within x,
    ap (λ (s : List String). contains s x) (sym (saw_all-append seen l ((some id, p) ∷ []))) ∙ h,
    contains-append ids used x,
    contains-append ids (id ∷ used) x,
  );
  old_same = λ x h.
      ap (λ (s : List String). contains s x) (saw_all-append seen l ((some id, p) ∷ []))
      ∙ ground (arith, a.old_same x, h, fresh, string_eq.same_iff id x);
}
  where
    own_open : (p : Option String) → IsAround seen used p → IsOpen (id ∷ saw_all seen l) p
    own_open none around = tt
    own_open (some q) (nonempty, held, unseen) =
        ground (arith, a.old_same q, held, unseen, fresh, string_eq.same_iff id q)
