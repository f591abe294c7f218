-- ===== src/Store/Refs/Laws.antt =====
-- What the references do, in terms of the root that each name points at.
use oci_amber.Prelude.{
  ℕ, ◌≡◌, refl, sym, ap, ◌∙◌, subst, inl, inr, true, false, Bool-cases, Option, none, some, List,
  [], ◌∷◌, arith, if◌then◌else◌,
}
use oci_amber.Prelude.Maybe.{Option-cases, some_injective, >>=-eq-some}
use oci_amber.Prelude.Text.{Bytes, bytes_eq, has_prefix}
use oci_amber.Prelude.Sort.{Has}
use oci_amber.Store.{Key}
use oci_amber.Store.Refs.{
  Ref, RefStore, RefIo, found, not_found, deleted, decode_ref, publish, publish_record, resolve,
  delete_ref, list_records, list_refs,
}

-- What the refstore and the records of references promise.
pub record RefLaws {S : Type 0} (refs : RefStore S) : Type 0 where
  pub get-put :
      (n m raw : Bytes) (s : S)
      → refs.get m (refs.put n raw s) ≡ (if bytes_eq n m then some raw else refs.get m s)
  pub get-delete :
      (n m : Bytes) (s : S)
      → refs.get m (refs.delete n s) ≡ (if bytes_eq n m then none else refs.get m s)
  pub all_sound : (n raw : Bytes) (s : S) → Has (n, raw) (refs.all s) → refs.get n s ≡ some raw
  pub all_complete : (n raw : Bytes) (s : S) → refs.get n s ≡ some raw → Has (n, raw) (refs.all s)
  pub decode-encode :
      (n raw : Bytes) (k : Key) (t : ℕ)
      → refs.encode n k t ≡ some raw
      → refs.decode raw ≡ some (k, t)

module _ {S : Type 0} (refs : RefStore S) where
  -- The reference `n`, when it has a record that decodes.
  unfoldable pub target : Bytes → S → Option Key
  unfolding decode_ref
  target n s = elim (refs.get n s) [
    | none ↦ none
    | some raw ↦ elim (decode_ref refs n raw) [ none ↦ none | some r ↦ some r.key ]
  ]

  pub resolve-found :
      (io : RefIo) (n : Bytes) (s : S) (k : Key)
      → resolve refs io n s ≡ found k
      → target n s ≡ some k
  unfolding resolve target
  resolve-found io n s k h = ground arith

  pub resolve-target :
      (io : RefIo) (n : Bytes) (s : S) (k : Key)
      → io.get_fails n ≡ false
      → target n s ≡ some k
      → resolve refs io n s ≡ found k
  unfolding resolve target
  resolve-target io n s k f h = ground arith

  pub resolve-not_found :
      (io : RefIo) (n : Bytes) (s : S) → resolve refs io n s ≡ not_found → target n s ≡ none
  unfolding resolve target
  resolve-not_found io n s h = ground arith

  -- A publish that fails leaves the references as they were.
  pub publish-kept :
      (io : RefIo) (n : Bytes) (root : Key) (s : S)
      → (publish refs io n root s).1 ≡ false
      → (publish refs io n root s).0 ≡ s
  unfolding publish publish_record
  publish-kept io n root s h = ground arith

  module _ (laws : RefLaws refs) where
    pub target-publish :
        (io : RefIo) (n m : Bytes) (root : Key) (s t : S)
        → refs.parse root ≡ some root
        → publish refs io n root s ≡ (t, true)
        → target m t ≡ (if bytes_eq n m then some root else target m s)
    unfolding publish publish_record target decode_ref
    target-publish io n m root s t p h = elim (Option-cases (refs.encode n root io.now)) [
      | inl e ↦ absurd (ground arith)
      | inr (raw, e) ↦
          ground (arith, laws.get-put n m raw s, laws.decode-encode n raw root io.now e)
    ]

    pub target-delete_ref :
        (io : RefIo) (n m : Bytes) (s t : S)
        → delete_ref refs io n s ≡ (t, deleted)
        → target m t ≡ (if bytes_eq n m then none else target m s)
    unfolding delete_ref target
    target-delete_ref io n m s t h = ground (arith, laws.get-delete n m s)

  target-record :
      (n : Bytes) (s : S) (k : Key)
      → target n s ≡ some k
      → (raw : Bytes) × (r : Ref) × (refs.get n s ≡ some raw)
        × (decode_ref refs n raw ≡ some r)
        × (r.key ≡ k)
  unfolding target
  target-record n s k t = elim (Option-cases (refs.get n s)) [
    | inl a ↦ absurd (ground arith)
    | inr (raw, a) ↦ elim (Option-cases (decode_ref refs n raw)) [
      | inl b ↦ absurd (ground arith)
      | inr (r, b) ↦ (raw, r, a, b, ground arith)
    ]
  ]

  decode_ref-name : (n raw : Bytes) (r : Ref) → decode_ref refs n raw ≡ some r → r.name ≡ n
  unfolding decode_ref
  decode_ref-name n raw r h =
      let ((k, t), a, h1) = >>=-eq-some (refs.decode raw) _ h in
      let (key, b, h2) = >>=-eq-some (refs.parse k) _ h1 in
      ap (λ x. x.name) (sym (some_injective h2))

  -- The records behind a name with the prefix that is listed.
  list_records-cons :
      (prefix name raw : Bytes) (rest : List (Bytes × Bytes)) (rs : List Ref)
      → list_records refs prefix ((name, raw) ∷ rest) ≡ some rs
      → has_prefix name prefix ≡ true
      → (r : Ref) × (others : List Ref) × (decode_ref refs name raw ≡ some r)
        × (list_records refs prefix rest ≡ some others)
        × (rs ≡ r ∷ others)
  unfolding list_records
  list_records-cons prefix name raw rest rs h t =
      let (r, a, h1) = >>=-eq-some (decode_ref refs name raw) _ (rw t at h) in
      let (others, b, h2) = >>=-eq-some (list_records refs prefix rest) _ h1 in
      (r, others, a, b, some_injective (sym h2))

  list_records-rest :
      (prefix name raw : Bytes) (rest : List (Bytes × Bytes))
      → has_prefix name prefix ≡ false
      → list_records refs prefix ((name, raw) ∷ rest) ≡ list_records refs prefix rest
  unfolding list_records
  list_records-rest prefix name raw rest t = rw t refl

  -- Every listed reference has its record, and a name with the prefix.
  abbrev Recorded : Bytes → List (Bytes × Bytes) → Ref → Type 0
  Recorded prefix all r =
      (raw : Bytes) × Has (r.name, raw) all
      × (decode_ref refs r.name raw ≡ some r)
      × (has_prefix r.name prefix ≡ true)

  list_records-Has :
      (prefix : Bytes) (all : List (Bytes × Bytes)) (rs : List Ref) (r : Ref)
      → list_records refs prefix all ≡ some rs
      → Has r rs
      → Recorded prefix all r
  list_records-Has prefix [] rs r h m =
      unfold list_records in absurd (subst (λ l. Has r l) (some_injective (sym h)) m)
  list_records-Has prefix ((name, raw) ∷ rest) rs r h m =
      let ih = list_records-Has prefix rest in
      elim (Bool-cases (has_prefix name prefix)) [
        | inl t ↦
            let (ref, others, a, b, e) = list_records-cons prefix name raw rest rs h t in
            elim (subst (λ l. Has r l) e m) [
              | inl q ↦
                  let n : r.name ≡ name =
                    ap (λ x. x.name) (sym q) ∙ decode_ref-name name raw ref a in
                  (
                    raw,
                    inl (cc n),
                    subst (λ x. decode_ref refs x raw ≡ some r) (sym n) (a ∙ ap some q),
                    subst (λ x. has_prefix x prefix ≡ true) (sym n) t,
                  )
              | inr q ↦ let (raw', x, y, z) = ih others r b q in (raw', inr x, y, z)
            ]
        | inr t ↦
            let (raw', x, y, z) = ih rs r (sym (list_records-rest prefix name raw rest t) ∙ h) m in
            (raw', inr x, y, z)
      ]

  list_records_complete :
      (prefix : Bytes) (all : List (Bytes × Bytes)) (rs : List Ref) (r : Ref) (n raw : Bytes)
      → list_records refs prefix all ≡ some rs
      → Has (n, raw) all
      → decode_ref refs n raw ≡ some r
      → has_prefix n prefix ≡ true
      → Has r rs
  list_records_complete prefix [] rs r n raw h m d p = absurd m
  list_records_complete prefix ((name, raw') ∷ rest) rs r n raw h m d p =
      let ih = list_records_complete prefix rest in
      elim (Bool-cases (has_prefix name prefix)) [
        | inl t ↦
            let (ref, others, a, b, e) = list_records-cons prefix name raw' rest rs h t in
            subst (λ l. Has r l) (sym e)
              (elim m [
                | inl q ↦ inl (some_injective (sym a ∙ cc (q, d)))
                | inr q ↦ inr (ih others r n raw b q d p)
              ])
        | inr t ↦ elim m [
          | inl q ↦ absurd (cc (q, t, p))
          | inr q ↦ ih rs r n raw (sym (list_records-rest prefix name raw' rest t) ∙ h) q d p
        ]
      ]

  list_refs-records :
      (io : RefIo) (prefix : Bytes) (s : S) (rs : List Ref)
      → list_refs refs io prefix s ≡ some rs
      → list_records refs prefix (refs.all s) ≡ some rs
  unfolding list_refs
  list_refs-records io prefix s rs h = ground arith

  pub list_refs-target :
      (laws : RefLaws refs) (io : RefIo) (prefix : Bytes) (s : S) (rs : List Ref) (r : Ref)
      → list_refs refs io prefix s ≡ some rs
      → Has r rs
      → (target r.name s ≡ some r.key) × (has_prefix r.name prefix ≡ true)
  unfolding target
  list_refs-target laws io prefix s rs r h m =
      let (raw, a, b, c) =
        list_records-Has prefix (refs.all s) rs r (list_refs-records io prefix s rs h) m in
      (ground (arith, laws.all_sound r.name raw s a, b), c)

  -- Every reference with the prefix that can be read is listed.
  pub list_refs_complete :
      (laws : RefLaws refs) (io : RefIo) (prefix n : Bytes) (k : Key) (s : S) (rs : List Ref)
      → list_refs refs io prefix s ≡ some rs
      → target n s ≡ some k
      → has_prefix n prefix ≡ true
      → (r : Ref) × Has r rs × (r.name ≡ n) × (r.key ≡ k)
  list_refs_complete laws io prefix n k s rs h t p =
      let (raw, r, g, d, e) = target-record n s k t in
      (
        r,
        list_records_complete prefix (refs.all s) rs r n raw (list_refs-records io prefix s rs h)
            (laws.all_complete n raw s g) d p,
        decode_ref-name n raw r d,
        e,
      )
