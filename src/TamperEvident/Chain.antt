-- ===== src/TamperEvident/Chain.antt =====
-- A chain that the plugin wrote verifies.
use Prim.Native.String.{◌++◌ as ◌<>◌}
use mathlib.Core.Logic.{inl, inr}
use logquill_python.Base.{
  ℕ, ◌+◌, String, string_eq, true, some, List, [], ◌∷◌, map, length, ◌≡◌, refl, ap, ◌∙◌, arith,
  ◌==◌, ok, Bool-cases, beq_self,
}
use logquill_python.Dict.{get, put}
use logquill_python.Dict.Laws.{get-put, get-put_self}
use logquill_python.Value.{Value, str, Meta, entries-of_entries, value_eq, present}
use logquill_python.Records.{Record, as_dict}
use logquill_python.TamperEvident.{
  TamperEvident, new, is_chain_key, without_chain, content_of, hash_input, compute_hash, before_log,
  stamp, intact, check_record, check_stored, check_content, verify_from, verify_chain_detailed,
}

-- stamping leaves the content alone
without_chain-put :
    (meta : Meta) (k : String) (v : Value)
    → is_chain_key k ≡ true
    → without_chain (put meta k v) ≡ without_chain meta
unfolding without_chain put
without_chain-put [] k v h = rw h refl
without_chain-put ((j, w) ∷ meta) k v h = elim (Bool-cases (j == k)) [
  | inl same ↦
      let chain = ap is_chain_key ((string_eq.same_iff j k).0 same) ∙ h in rw (same, chain) refl
  | inr other ↦ rw (other, without_chain-put meta k v h) refl
]

module _ (dumps : Meta → String) (sha256 : String → String) where
  abbrev pub stamped : Meta → String → String → Meta
  stamped meta prev digest = put (put meta "prev_hash" (str prev)) "hash" (str digest)

  get-hash :
      (meta : Meta) (prev digest : String)
      → get (stamped meta prev digest) "hash" ≡ some (str digest)
  get-hash meta prev digest = get-put_self (put meta "prev_hash" (str prev)) "hash" (str digest)

  get-prev_hash :
      (meta : Meta) (prev digest : String)
      → get (stamped meta prev digest) "prev_hash" ≡ some (str prev)
  get-prev_hash meta prev digest =
      get-put (put meta "prev_hash" (str prev)) "hash" "prev_hash" (str digest)
      ∙ get-put_self meta "prev_hash" (str prev)

  pub same_content :
      (r : Record) (prev digest : String)
      → let meta = stamped r.meta prev digest in
        content_of (as_dict (record r { meta = meta })) meta ≡ content_of (as_dict r) r.meta
  unfolding content_of get
  same_content r prev digest =
      rw
        (
          without_chain-put (put r.meta "prev_hash" (str prev)) "hash" (str digest) refl,
          without_chain-put r.meta "prev_hash" (str prev) refl,
        )
        refl

  checked_content :
      (r : Meta) (meta : Meta) (prev digest : String) (checked : ℕ)
      → compute_hash dumps sha256 r meta prev ≡ digest
      → check_content dumps sha256 r meta prev checked (str digest) ≡ inl digest
  unfolding check_content
  checked_content r meta prev digest checked e = rw (e, beq_self (str digest)) refl

  checked_stored :
      (r : Meta) (meta : Meta) (prev digest : String) (checked : ℕ)
      → get meta "hash" ≡ some (str digest)
      → get meta "prev_hash" ≡ some (str prev)
      → compute_hash dumps sha256 r meta prev ≡ digest
      → check_stored dumps sha256 r meta prev checked (present (get meta "hash")) ≡ inl digest
  unfolding check_stored present
  checked_stored r meta prev digest checked h p e =
      rw (h, p, beq_self (str prev)) (checked_content r meta prev digest checked e)

  check_stamped :
      (r : Record) (prev : String) (checked : ℕ)
      → let digest = compute_hash dumps sha256 (as_dict r) r.meta prev in
        check_record dumps sha256
          (as_dict (record r { meta = stamped r.meta prev digest }))
          prev
          checked
        ≡ ok (inl digest)
  unfolding check_record get
  check_stamped r prev checked =
      let digest = compute_hash dumps sha256 (as_dict r) r.meta prev in
      let meta = stamped r.meta prev digest in
      ap ok (
        rw (entries-of_entries meta) (
          checked_stored (as_dict (record r { meta = meta })) meta prev digest checked
            (get-hash r.meta prev digest) (get-prev_hash r.meta prev digest)
            (unfold compute_hash hash_input in
              ap (λ c. sha256 (prev <> dumps c)) (same_content r prev digest))))

  verify_from-stamp :
      (p : TamperEvident) (rs : List Record) (checked : ℕ)
      → let (written, p') = stamp dumps sha256 p rs in
        verify_from dumps sha256 p.last_hash checked (map as_dict written)
        ≡ ok (intact dumps sha256 (checked + length rs) p'.last_hash)
  unfolding verify_from stamp before_log
  verify_from-stamp p [] checked = ap (λ n. ok (intact dumps sha256 n p.last_hash)) (omega arith)
  verify_from-stamp p (r ∷ rs) checked =
      let digest = compute_hash dumps sha256 (as_dict r) r.meta p.last_hash in
      rw (check_stamped r p.last_hash (checked + 1)) (
        verify_from-stamp (record p { last_hash = digest }) rs (checked + 1)
        ∙ ap
            (λ n. ok (
              intact dumps sha256 n
                (stamp dumps sha256 (record p { last_hash = digest }) rs).1.last_hash))
            (omega arith))

  -- A log that the plugin wrote verifies: every record is checked, and the head is the one that the
  -- plugin holds.
  pub verify_chain_detailed-stamp :
      (genesis : String) (rs : List Record)
      → let (written, p) = stamp dumps sha256 (new genesis) rs in
        verify_chain_detailed dumps sha256 genesis (map as_dict written)
        ≡ ok (intact dumps sha256 (length rs) p.last_hash)
  unfolding verify_chain_detailed new
  verify_chain_detailed-stamp genesis rs =
      verify_from-stamp (new genesis) rs 0
      ∙ ap (λ n. ok (intact dumps sha256 n (stamp dumps sha256 (new genesis) rs).1.last_hash))
          (omega arith)
