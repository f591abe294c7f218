-- ===== src/Rootfs/Path/Clean.antt =====
-- What a cleaned path is made of.
use oci_amber.Prelude.{
  ℕ, zero, suc, replicate, ◌≡◌, ◌≢◌, refl, sym, ap, ◌∙◌, subst, Bool, true, false, inl, inr,
  Bool-cases, List, [], ◌∷◌, ◌⊎◌, ◌++◌, reverse, All, arith, All-append, some, none,
}
use mathlib.Core.List.{reverse-cons, reverse-append}
use oci_amber.Prelude.Text.{Bytes, Lacks, codes, bytes_eq, has_prefix, cut_prefix}
use oci_amber.Prelude.Text.Laws.{bytes_eq_iff}
use oci_amber.Prelude.Split.{split, join, split-All, split-append, split-Lacks}
use oci_amber.Oci.Digest.{is_empty}
use oci_amber.Rootfs.Path.{
  slash, dot_dot, trim_slash, is_still, clean_step, clean_parts, check_inside, clean_text,
  path_clean, path_base, last_part, clean_path, clean_request,
}

-- A proper name: not empty, neither "." nor "..", and without '/'.
abbrev pub IsName : Bytes → Type 0
IsName c = (is_still c ≡ false) × (bytes_eq c dot_dot ≡ false) × Lacks slash c

-- Proper names, the last one first, in front of which stands a run of "..", if the path is not rooted.
record Kept (rooted : Bool) (out : List Bytes) : Type 0 where
  names : List Bytes
  ups : ℕ
  parts : out ≡ names ++ replicate ups dot_dot
  proper : All IsName names
  inside : rooted ≡ true → ups ≡ 0

clean_step-name :
    (rooted : Bool) (out : List Bytes) (c : Bytes)
    → is_still c ≡ false
    → bytes_eq c dot_dot ≡ false
    → clean_step rooted out c ≡ c ∷ out
unfolding clean_step
clean_step-name rooted [] c s d = rw (s, d) refl
clean_step-name rooted (e ∷ out) c s d = rw (s, d) refl

clean_step-still :
    (rooted : Bool) (out : List Bytes) (c : Bytes)
    → is_still c ≡ true
    → clean_step rooted out c ≡ out
unfolding clean_step
clean_step-still rooted [] c s = rw s refl
clean_step-still rooted (e ∷ out) c s = rw s refl

up_from :
    (rooted : Bool) (names : List Bytes) (ups : ℕ)
    → All IsName names
    → (rooted ≡ true → ups ≡ 0)
    → Kept rooted (clean_step rooted (names ++ replicate ups dot_dot) dot_dot)
unfolding clean_step
up_from rooted (n ∷ names) ups ((s, d, l), a) z =
    rw d record { names = names; ups = ups; parts = refl; proper = a; inside = z }
up_from rooted [] (suc k) a z = record {
  names = [];
  ups = suc (suc k);
  parts = refl;
  proper = tt;
  inside = λ e. absurd (omega (arith, z e));
}
up_from true [] zero a z = record { names = []; ups = 0; parts = refl; proper = tt; inside = z }
up_from false [] zero a z = record {
  names = [];
  ups = 1;
  parts = refl;
  proper = tt;
  inside = λ e. cc;
}

clean_step-Kept :
    (rooted : Bool) (out : List Bytes) (c : Bytes)
    → Lacks slash c
    → Kept rooted out
    → Kept rooted (clean_step rooted out c)
clean_step-Kept rooted out c l k = elim (Bool-cases (is_still c)) [
  | inl s ↦ subst (Kept rooted) (sym (clean_step-still rooted out c s)) k
  | inr s ↦ elim (Bool-cases (bytes_eq c dot_dot)) [
    | inl d ↦
        subst (λ x. Kept rooted (clean_step rooted out x)) (sym ((bytes_eq_iff c dot_dot).0 d))
          (subst (λ x. Kept rooted (clean_step rooted x dot_dot)) (sym k.parts)
            (up_from rooted k.names k.ups k.proper k.inside))
    | inr d ↦ subst (Kept rooted) (sym (clean_step-name rooted out c s d)) record {
      names = c ∷ k.names;
      ups = k.ups;
      parts = ap (λ x. c ∷ x) k.parts;
      proper = ((s, d, l), k.proper);
      inside = k.inside;
    }
  ]
]

clean_parts-Kept :
    (rooted : Bool) (out cs : List Bytes)
    → All (Lacks slash) cs
    → Kept rooted out
    → Kept rooted (clean_parts rooted out cs)
unfolding clean_parts
clean_parts-Kept rooted out [] l k = k
clean_parts-Kept rooted out (c ∷ cs) (lc, l) k =
    clean_parts-Kept rooted (clean_step rooted out c) cs l (clean_step-Kept rooted out c lc k)

All-reverse {ℓ} : {A : Type ℓ} (P : A → Type 0) (xs : List A) → All P xs → All P (reverse xs)
All-reverse P [] a = tt
All-reverse P (x ∷ xs) (p, a) =
    subst (All P) (sym (reverse-cons x xs))
      (All-append P (reverse xs) (x ∷ []) (All-reverse P xs a) (p, tt))

replicate-snoc {ℓ} : {A : Type ℓ} (n : ℕ) (a : A) → replicate n a ++ a ∷ [] ≡ a ∷ replicate n a
replicate-snoc zero a = refl
replicate-snoc (suc n) a = ap (λ x. a ∷ x) (replicate-snoc n a)

reverse-replicate {ℓ} : {A : Type ℓ} (n : ℕ) (a : A) → reverse (replicate n a) ≡ replicate n a
reverse-replicate zero a = refl
reverse-replicate (suc n) a =
    reverse-cons a (replicate n a)
    ∙ ap (λ x. x ++ a ∷ []) (reverse-replicate n a)
    ∙ replicate-snoc n a

-- What is kept, in order: a run of ".." and proper names.
parts-order :
    (rooted : Bool) (out : List Bytes) (k : Kept rooted out)
    → reverse out ≡ replicate k.ups dot_dot ++ reverse k.names
parts-order rooted out k =
    ap reverse k.parts
    ∙ reverse-append k.names (replicate k.ups dot_dot)
    ∙ ap (λ x. x ++ reverse k.names) (reverse-replicate k.ups dot_dot)

kept : (rooted : Bool) (p : Bytes) → Kept rooted (clean_parts rooted [] (split p slash))
kept rooted p =
    clean_parts-Kept rooted [] (split p slash) (split-All p slash)
      record { names = []; ups = 0; parts = refl; proper = tt; inside = λ e. refl }

-- Joined names are not empty and do not begin with '/'.
join-name :
    (n : Bytes) (ns : List Bytes)
    → is_still n ≡ false
    → Lacks slash n
    → (is_empty (join (n ∷ ns) slash) ≡ false)
      × (cut_prefix (join (n ∷ ns) slash) (slash ∷ []) ≡ none)
unfolding join cut_prefix
join-name [] ns s l = absurd (ground arith)
join-name (c ∷ n) [] s l = ground arith
join-name (c ∷ n) (m ∷ ns) s l = ground arith

join-none : join [] slash ≡ []
unfolding join
join-none = refl

trim_text :
    (rooted : Bool) (n : Bytes) (ns : List Bytes)
    → is_still n ≡ false
    → Lacks slash n
    → trim_slash (clean_text rooted (join (n ∷ ns) slash)) ≡ join (n ∷ ns) slash
unfolding clean_text
trim_text true n ns s l = unfold cut_prefix in refl
trim_text false n ns s l = let (e, c) = join-name n ns s l in rw e (rw (trim_slash, c) refl)

trim_root : (rooted : Bool) → is_still (trim_slash (clean_text rooted (join [] slash))) ≡ true
unfolding clean_text join cut_prefix
trim_root true = refl
trim_root false = refl

check_inside-still : (p : Bytes) → is_still p ≡ true → check_inside p ≡ ([], true)
unfolding check_inside
check_inside-still p s = rw s refl

check_inside-eq :
    (p q : Bytes)
    → check_inside p ≡ (q, true)
    → ((q ≡ []) × (is_still p ≡ true))
      ⊎ ((q ≡ p) × (bytes_eq p dot_dot ≡ false) × (has_prefix p (codes "../") ≡ false))
unfolding check_inside
check_inside-eq p q h = ground arith

up-outside :
    (rest : List Bytes)
    → bytes_eq (join (dot_dot ∷ rest) slash) dot_dot ≡ false
    → has_prefix (join (dot_dot ∷ rest) slash) (codes "../") ≡ true
unfolding join has_prefix
up-outside [] h = absurd (ground arith)
up-outside (r ∷ rest) h = refl

-- The parts of a path that is accepted.
inside-names :
    (ups : ℕ) (names : List Bytes) (q : Bytes)
    → All IsName names
    → (rooted : Bool)
    → check_inside (trim_slash (clean_text rooted (join (replicate ups dot_dot ++ names) slash)))
      ≡ (q, true)
    → (ns : List Bytes) × All IsName ns × (q ≡ join ns slash)
inside-names zero [] q a rooted h = (
  [],
  tt,
  ap (λ r. r.0)
        (sym h
          ∙ check_inside-still (trim_slash (clean_text rooted (join [] slash))) (trim_root rooted))
      ∙ sym join-none,
)
inside-names zero (n ∷ names) q ((s, d, l), a) rooted h = elim (check_inside-eq _ q h) [
  | inl (e, t) ↦ ([], tt, e ∙ sym join-none)
  | inr (e, t, u) ↦ (n ∷ names, ((s, d, l), a), e ∙ trim_text rooted n names s l)
]
inside-names (suc k) names q a rooted h = elim (check_inside-eq _ q h) [
  | inl (e, t) ↦ ([], tt, e ∙ sym join-none)
  | inr (e, t, u) ↦
      (let r = replicate k dot_dot ++ names in
        let same = trim_text rooted dot_dot r refl (ground arith) in
        absurd (
          cc (
            up-outside r (ap (λ x. bytes_eq x dot_dot) (sym same) ∙ t),
            ap (λ x. has_prefix x (codes "../")) (sym same) ∙ u,
          )))
]

-- A path that stays inside the root is the root or proper names joined by '/'.
pub clean_path-join :
    (name p : Bytes)
    → clean_path name ≡ (p, true)
    → (ns : List Bytes) × All IsName ns × (p ≡ join ns slash)
unfolding clean_path path_clean
clean_path-join name p h =
    let rooted = has_prefix name (slash ∷ []) in
    let k = kept rooted name in
    inside-names k.ups (reverse k.names) p (All-reverse IsName k.names k.proper) rooted (
      subst (λ x. check_inside (trim_slash (clean_text rooted (join x slash))) ≡ (p, true))
        (parts-order rooted (clean_parts rooted [] (split name slash)) k) h)

split-join :
    (n : Bytes) (ns : List Bytes) → All IsName (n ∷ ns) → split (join (n ∷ ns) slash) slash ≡ n ∷ ns
unfolding join
split-join n [] ((s, d, l), a) = split-Lacks n slash l
split-join n (m ∷ ns) ((s, d, l), a) =
    split-append n (join (m ∷ ns) slash) slash l ∙ ap (λ x. n ∷ x) (split-join m ns a)

last_part-IsName :
    (n : Bytes) (ns : List Bytes)
    → All IsName (n ∷ ns)
    → (b : Bytes) × (last_part (n ∷ ns) ≡ some b) × IsName b
unfolding last_part
last_part-IsName n [] ((s, d, l), a) = (n, ground arith, (s, d, l))
last_part-IsName n (m ∷ ns) ((s, d, l), a) =
    let (b, e, k) = last_part-IsName m ns a in (b, rw e refl, k)

base_of :
    (p : Bytes) (ns : List Bytes)
    → p ≢ []
    → All IsName ns
    → p ≡ join ns slash
    → IsName (path_base p)
unfolding path_base
base_of p [] ne a e = absurd (ne (e ∙ join-none))
base_of p (n ∷ ns) ne a e =
    let (b, f, k) = last_part-IsName n ns a in
    let (s, d, l) = a.0 in
    let same : path_base (join (n ∷ ns) slash) ≡ b =
      rw ((join-name n ns s l).0, split-join n ns a, f) refl in
    subst IsName (sym (ap path_base e ∙ same)) k

-- The last component of a path that stays inside the root is a proper name, unless it is the root.
pub path_base-IsName :
    (name p : Bytes) → clean_path name ≡ (p, true) → p ≢ [] → IsName (path_base p)
path_base-IsName name p h ne = let (ns, a, e) = clean_path-join name p h in base_of p ns ne a e

trim_rooted : (p : Bytes) → trim_slash (slash ∷ p) ≡ p
unfolding cut_prefix
trim_rooted p = refl

-- A request path, cleaned, is proper names joined by '/': it never leads above the root.
pub clean_request-join :
    (p : Bytes) → (ns : List Bytes) × All IsName ns × (clean_request p ≡ join ns slash)
unfolding clean_request path_clean clean_text has_prefix
clean_request-join p =
    let k = kept true (slash ∷ p) in
    let order = parts-order true (clean_parts true [] (split (slash ∷ p) slash)) k in
    (
      reverse k.names,
      All-reverse IsName k.names k.proper,
      trim_rooted (join (reverse (clean_parts true [] (split (slash ∷ p) slash))) slash)
          ∙ ap (λ x. join x slash)
              (order ∙ ap (λ u. replicate u dot_dot ++ reverse k.names) (k.inside refl)),
    )
