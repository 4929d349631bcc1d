-- ===== src/Logger/Privacy.antt =====
-- What no plugin gets to see.
use logquill_python.Base.{
  String, string_eq, Bool, true, Option, none, some, List, [], ◌∷◌, ◌++◌, ◌≡◌, refl, ap, ◌⊎◌, inl,
  inr, raise, Error, contains, Result-cases,
}
use logquill_python.Dict.{get}
use logquill_python.Value.{Meta, Value, str}
use logquill_python.Level.{Level}
use logquill_python.Records.{create_record}
use logquill_python.Retry.{Tracker}
use logquill_python.Privacy.{off, content_fields, apply_one, off_placeholder}
use logquill_python.Privacy.Fields.{get-apply_content_policy, content_fields-AllDifferent, on_some}
use logquill_python.Logger.Interface.{PluginOps}
use logquill_python.Logger.Prepare.{Env, Python, gather, prepare, redact_all}

hidden :
    (o : Option Value) (f : Value → Value)
    → ((v : Value) → f v ≡ str off_placeholder)
    → (on_some f o ≡ none) ⊎ (on_some f o ≡ some (str off_placeholder))
hidden none f h = inl refl
hidden (some v) f h = inr (ap some (h v))

module _ {P : Type 0} ⦃p : PluginOps P⦄ where
  -- Under the policy `off`, whatever a call passes, whatever is bound and whatever a lazy value
  -- returns, a content field of the record that the plugins get is absent or the placeholder.
  pub prepare-hides_content :
      (py : Python P) (env : Env) (t : Tracker) (plugins : List P) (name : String) (level : Level)
      (message : String) (meta : Meta) (lazy : Bool) (llm : Option Meta) (key : String)
      → contains content_fields key ≡ true
      → let (_, r) = prepare py env t plugins off name level message meta lazy llm in
        (get r.meta key ≡ none) ⊎ (get r.meta key ≡ some (str off_placeholder))
  unfolding prepare create_record
  prepare-hides_content py env t plugins name level message meta lazy llm key h =
      let (_, gathered) = gather py env t plugins level meta lazy in
      rw
        (
          get-apply_content_policy py.to_text py.hexdigest off content_fields gathered key
              content_fields-AllDifferent,
          h,
        )
        (hidden (get gathered key) (apply_one py.to_text py.hexdigest off)
          (unfold apply_one in λ v. refl))

  -- A redaction hook that raises masks the local variable, whatever the plugins around it do.
  pub redact_all-fails_closed :
      (before : List P) (plugin : P) (behind : List P) (name text : String)
      → ((t : String) → (e : Error) × (p.redact_local plugin name t ≡ raise e))
      → redact_all (before ++ plugin ∷ behind) name text ≡ "<redaction failed>"
  unfolding redact_all
  redact_all-fails_closed [] plugin behind name text h = let (e, raised) = h text in rw raised refl
  redact_all-fails_closed (q ∷ before) plugin behind name text h =
      elim (Result-cases (p.redact_local q name text)) [
        | inl (t, shown) ↦ rw shown (redact_all-fails_closed before plugin behind name t h)
        | inr (e, raised) ↦ rw raised refl
      ]
