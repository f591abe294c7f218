-- ===== src/Blob/Tar/Probe.antt =====
-- blob/analyze.go: what probeTar takes for an archive.
use oci_amber.Prelude.{
  ℕ, zero, suc, ◌≤◌, ◌<◌, ◌≡◌, ◌⊎◌, ◌↔◌, refl, sym, ap, ◌∙◌, inl, inr, Bool, true, false,
  Bool-cases, ◌&&◌, not, Option, none, some, [], ◌∷◌, All, length, length-take, length-drop, take,
  drop, ltb, ltb→lt, lt→ltb, arith, if◌then◌else◌,
}
use oci_amber.Prelude.Text.{Bytes}
use oci_amber.Blob.Tar.{Content, is_tar_header, all_zero, probe_tar}

-- Nothing but zeros, an archive's record long at most.
abbrev pub IsBlank : Content → Type 0
IsBlank c = All (λ x. x ≡ 0) c.bytes × (length c.bytes ≤ 10240)

-- A whole block that is a header, or an empty archive.
abbrev pub IsArchive : Content → Type 0
IsArchive c =
    (512 ≤ length c.bytes)
    × ((is_tar_header (take 512 c.bytes) ≡ true) ⊎ (IsBlank c × (c.fails ≡ false)))

-- A read error before that is decided.
abbrev pub IsUnread : Content → Type 0
IsUnread c =
    (c.fails ≡ true)
    × ((length c.bytes < 512)
        ⊎ ((is_tar_header (take 512 c.bytes) ≡ false)
            × All (λ x. x ≡ 0) (take 512 c.bytes)
            × (length c.bytes ≤ 10240)))

all_zero_iff : (s : Bytes) → (all_zero s ≡ true) ↔ All (λ x. x ≡ 0) s
unfolding all_zero
all_zero_iff [] = (λ h. tt, λ h. refl)
all_zero_iff (c ∷ s) =
    let (a, b) = all_zero_iff s in
    (λ h. (ground arith, a (ground arith)), λ (e, m). ground (arith, e, b m))

all_zero-take : (n : ℕ) (s : Bytes) → all_zero s ≡ (all_zero (take n s) && all_zero (drop n s))
unfolding all_zero
all_zero-take zero s = refl
all_zero-take (suc n) [] = refl
all_zero-take (suc n) (c ∷ s) = ground (arith, all_zero-take n s)

take_short : (n : ℕ) (s : Bytes) → length s ≤ n → take n s ≡ s
take_short zero [] h = refl
take_short zero (c ∷ s) h = absurd (omega arith)
take_short (suc n) [] h = refl
take_short (suc n) (c ∷ s) h = ap (λ x. c ∷ x) (take_short n s (omega arith))

-- The tests that decide about the whole stream: a short stream, a header, a zero block, a stream that
-- is too long, a read error, and zeros.
turns : Bool → Bool → Bool → Bool → Bool → Bool → Option Bool
turns short header zeros long fails all =
    if short
    then (if fails then none else some false)
    else if header
    then some true
    else if not zeros
    then some false
    else if long
    then some false
    else if fails
    then none
    else some all

turns-true :
    (s h z l f a : Bool)
    → turns s h z l f a ≡ some true
    → (s ≡ false) × ((h ≡ true) ⊎ ((l ≡ false) × (f ≡ false) × (a ≡ true)))
unfolding turns
turns-true s h z l f a e = ground arith

true-turns :
    (s h z l f a : Bool)
    → (a ≡ true → z ≡ true)
    → (s ≡ false) × ((h ≡ true) ⊎ ((l ≡ false) × (f ≡ false) × (a ≡ true)))
    → turns s h z l f a ≡ some true
unfolding turns
true-turns s h z l f a k e = ground (arith, k)

turns-none :
    (s h z l f a : Bool)
    → turns s h z l f a ≡ none
    → (f ≡ true) × ((s ≡ true) ⊎ ((h ≡ false) × (z ≡ true) × (l ≡ false)))
unfolding turns
turns-none s h z l f a e = ground arith

none-turns :
    (s h z l f a : Bool)
    → (f ≡ true) × ((s ≡ true) ⊎ ((h ≡ false) × (z ≡ true) × (l ≡ false)))
    → turns s h z l f a ≡ none
unfolding turns
none-turns s h z l f a e = ground arith

tested : Content → Option Bool
unfolding turns
tested c =
    turns (ltb (length c.bytes) 512) (is_tar_header (take 512 c.bytes))
      (all_zero (take 512 c.bytes)) (ltb 10240 (length c.bytes)) c.fails (all_zero c.bytes)

-- The tests of probeTar in turn: a short stream, a header, a zero block, a read error in the rest, a rest
-- that is too long, and a rest of zeros.
in_turn : Bool → Bool → Bool → Bool → Bool → Bool → Bool → Option Bool
in_turn short header zeros fails cut long rest =
    if short
    then (if fails then none else some false)
    else if header
    then some true
    else if not zeros
    then some false
    else if fails && cut
    then none
    else if long
    then some false
    else some rest

in_turn-long :
    (short header zeros fails rest all : Bool)
    → in_turn short header zeros fails false true rest ≡ (
        if short
        then (if fails then none else some false)
        else if header
        then some true
        else if not zeros
        then some false
        else if true
        then some false
        else if fails
        then none
        else some all)
unfolding in_turn
in_turn-long true header zeros fails rest all = refl
in_turn-long false true zeros fails rest all = refl
in_turn-long false false false fails rest all = refl
in_turn-long false false true true rest all = refl
in_turn-long false false true false rest all = refl

in_turn-short :
    (short header zeros fails rest all : Bool)
    → all ≡ (zeros && rest)
    → in_turn short header zeros fails true false rest ≡ (
        if short
        then (if fails then none else some false)
        else if header
        then some true
        else if not zeros
        then some false
        else if false
        then some false
        else if fails
        then none
        else some all)
unfolding in_turn
in_turn-short true header zeros fails rest all h = refl
in_turn-short false true zeros fails rest all h = refl
in_turn-short false false false fails rest all h = refl
in_turn-short false false true true rest all h = refl
in_turn-short false false true false rest all h = ap some (sym h)

not_ltb : (a b : ℕ) → b ≤ a → ltb a b ≡ false
not_ltb a b h = ground arith

ltb-false : (a b : ℕ) → ltb a b ≡ false → b ≤ a
ltb-false a b h = ground arith

probe_tar-tested : (c : Content) → probe_tar c ≡ tested c
unfolding probe_tar tested in_turn turns
probe_tar-tested c =
    let n = length c.bytes in
    let behind = drop 512 c.bytes in
    let l = length-drop 512 c.bytes in
    let t = length-take 9729 (drop 512 c.bytes) in
    let short = ltb n 512 in
    let header = is_tar_header (take 512 c.bytes) in
    let zeros = all_zero (take 512 c.bytes) in
    elim (Bool-cases (ltb 10240 n)) [
      | inl e ↦
          let far = ltb→lt 10240 n e in
          let a : ltb (length behind) 9729 ≡ false =
            not_ltb (length behind) 9729 (omega (arith, l, far)) in
          let b : ltb 9728 (length (take 9729 behind)) ≡ true =
            lt→ltb 9728 (length (take 9729 behind)) (omega (arith, l, t, far)) in
          rw (a, b, e)
            (in_turn-long short header zeros c.fails (all_zero (take 9729 behind))
              (all_zero c.bytes))
      | inr e ↦
          let near = ltb-false 10240 n e in
          let a : ltb (length behind) 9729 ≡ true =
            lt→ltb (length behind) 9729 (omega (arith, l, near)) in
          let b : ltb 9728 (length (take 9729 behind)) ≡ false =
            not_ltb 9728 (length (take 9729 behind)) (omega (arith, l, t, near)) in
          let r = take_short 9729 behind (omega (arith, l, near)) in
          rw (a, b, e)
            (in_turn-short short header zeros c.fails (all_zero (take 9729 behind))
              (all_zero c.bytes)
              (all_zero-take 512 c.bytes ∙ ap (λ x. zeros && all_zero x) (sym r)))
    ]

and_left : (x y : Bool) → (x && y) ≡ true → x ≡ true
and_left true y h = refl
and_left false y h = h

zeros-first : (c : Content) → all_zero c.bytes ≡ true → all_zero (take 512 c.bytes) ≡ true
zeros-first c h =
    and_left (all_zero (take 512 c.bytes)) (all_zero (drop 512 c.bytes))
      (sym (all_zero-take 512 c.bytes) ∙ h)

pub probe_tar-IsArchive : (c : Content) → (probe_tar c ≡ some true) ↔ IsArchive c
unfolding tested
probe_tar-IsArchive c =
    let s = ltb (length c.bytes) 512 in
    let h = is_tar_header (take 512 c.bytes) in
    let z = all_zero (take 512 c.bytes) in
    let l = ltb 10240 (length c.bytes) in
    let a = all_zero c.bytes in
    (
      λ e.
          let (x, y) = turns-true s h z l c.fails a (sym (probe_tar-tested c) ∙ e) in
          (
            ltb-false (length c.bytes) 512 x,
            elim y [
              | inl k ↦ inl k
              | inr (u, v, w) ↦
                  inr (((all_zero_iff c.bytes).0 w, ltb-false 10240 (length c.bytes) u), v)
            ],
          ),
      λ (x, y).
          probe_tar-tested c
          ∙ true-turns s h z l c.fails a (zeros-first c) (
            not_ltb (length c.bytes) 512 x,
            elim y [
              | inl k ↦ inl k
              | inr ((u, v), w) ↦
                  inr (not_ltb 10240 (length c.bytes) v, w, (all_zero_iff c.bytes).1 u)
            ],
          ),
    )

pub probe_tar-IsUnread : (c : Content) → (probe_tar c ≡ none) ↔ IsUnread c
unfolding tested
probe_tar-IsUnread c =
    let s = ltb (length c.bytes) 512 in
    let h = is_tar_header (take 512 c.bytes) in
    let z = all_zero (take 512 c.bytes) in
    let l = ltb 10240 (length c.bytes) in
    let a = all_zero c.bytes in
    (
      λ e.
          let (x, y) = turns-none s h z l c.fails a (sym (probe_tar-tested c) ∙ e) in
          (
            x,
            elim y [
              | inl k ↦ inl (ltb→lt (length c.bytes) 512 k)
              | inr (u, v, w) ↦
                  inr (u, (all_zero_iff (take 512 c.bytes)).0 v, ltb-false 10240 (length c.bytes) w)
            ],
          ),
      λ (x, y).
          probe_tar-tested c
          ∙ none-turns s h z l c.fails a (
            x,
            elim y [
              | inl k ↦ inl (lt→ltb (length c.bytes) 512 k)
              | inr (u, v, w) ↦
                  inr (u, (all_zero_iff (take 512 c.bytes)).1 v, not_ltb 10240 (length c.bytes) w)
            ],
          ),
    )
