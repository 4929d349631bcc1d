-- ===== src/Privacy/Fields.antt =====
-- What a content policy does to each key.
use logquill_python.Base.{
  String, string_eq, Bool, true, false, Option, none, some, List, [], ◌∷◌, ◌≡◌, refl, ap, ◌∙◌, sym,
  ◌==◌, contains, inl, inr, if◌then◌else◌, Bool-cases,
}
use logquill_python.Dict.{get}
use logquill_python.Dict.Laws.{get-put}
use logquill_python.Value.{Value, Meta}
use logquill_python.Privacy.{
  Policy, off, hash, truncate, full, apply_one, apply_found, apply_fields, apply_content_policy,
  content_fields,
}

-- No field stands twice.
abbrev pub AllDifferent : List String → Type 0
AllDifferent [] = Unit
AllDifferent (f ∷ fs) = (contains fs f ≡ false) × AllDifferent fs

abbrev pub on_some : (Value → Value) → Option Value → Option Value
on_some f none = none
on_some f (some v) = some (f v)

module _ (to_text : Value → String) (hexdigest : String → String) (policy : Policy) where
  found-get :
      (meta : Meta) (field key : String) (o : Option Value)
      → get meta field ≡ o
      → get (apply_found to_text hexdigest policy meta field o) key ≡ (
          if field == key
          then on_some (apply_one to_text hexdigest policy) (get meta key)
          else get meta key)
  unfolding apply_found
  found-get meta field key none e = elim (Bool-cases (field == key)) [
    | inl same ↦
        rw (same, ap (λ k. get meta k) (sym ((string_eq.same_iff field key).0 same)) ∙ e) refl
    | inr other ↦ rw other refl
  ]
  found-get meta field key (some v) e = elim (Bool-cases (field == key)) [
    | inl same ↦
        rw
          (
            get-put meta field key (apply_one to_text hexdigest policy v),
            same,
            ap (λ k. get meta k) (sym ((string_eq.same_iff field key).0 same)) ∙ e,
          )
          refl
    | inr other ↦ rw (get-put meta field key (apply_one to_text hexdigest policy v), other) refl
  ]

  captured : List String → Meta → String → Option Value
  captured fields meta key =
      if contains fields key
      then on_some (apply_one to_text hexdigest policy) (get meta key)
      else get meta key

  fields-captured :
      (fields : List String) (meta : Meta) (key : String)
      → AllDifferent fields
      → get (apply_fields to_text hexdigest policy fields meta) key ≡ captured fields meta key
  unfolding apply_fields captured
  fields-captured [] meta key d = refl
  fields-captured (field ∷ fields) meta key (fresh, d) =
      let next = apply_found to_text hexdigest policy meta field (get meta field) in
      let step = found-get meta field key (get meta field) refl in
      elim (Bool-cases (field == key)) [
        | inl same ↦
            let absent =
              ap (λ k. contains fields k) (sym ((string_eq.same_iff field key).0 same)) ∙ fresh in
            fields-captured fields next key d ∙ rw (absent, same) (step ∙ rw same refl)
        | inr other ↦ fields-captured fields next key d ∙ rw (step, other) refl
      ]

on_some_same : (f : Value → Value) (o : Option Value) → ((v : Value) → f v ≡ v) → on_some f o ≡ o
on_some_same f none h = refl
on_some_same f (some v) h = ap some (h v)

if_same : (b : Bool) {x y : Option Value} → x ≡ y → y ≡ (if b then x else y)
if_same true e = sym e
if_same false e = refl

-- The policy changes exactly the fields that it governs: each of them that is in `meta` has its
-- value replaced as the policy says, and every other key of `meta` keeps what it has. No field may
-- be listed twice.
pub get-apply_content_policy :
    (to_text : Value → String) (hexdigest : String → String) (policy : Policy)
    (fields : List String) (meta : Meta) (key : String)
    → AllDifferent fields
    → get (apply_content_policy to_text hexdigest policy fields meta) key ≡ (
        if contains fields key
        then on_some (apply_one to_text hexdigest policy) (get meta key)
        else get meta key)
unfolding apply_content_policy captured
get-apply_content_policy to_text hexdigest off fields meta key d =
    fields-captured to_text hexdigest off fields meta key d
get-apply_content_policy to_text hexdigest hash fields meta key d =
    fields-captured to_text hexdigest hash fields meta key d
get-apply_content_policy to_text hexdigest truncate fields meta key d =
    fields-captured to_text hexdigest truncate fields meta key d
get-apply_content_policy to_text hexdigest full fields meta key d =
    if_same (contains fields key) (
      on_some_same (apply_one to_text hexdigest full) (get meta key)
        (unfold apply_one in λ v. refl))

pub content_fields-AllDifferent : AllDifferent content_fields
content_fields-AllDifferent = (refl, (refl, (refl, (refl, (refl, (refl, tt))))))
