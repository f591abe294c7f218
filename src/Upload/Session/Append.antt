-- ===== src/Upload/Session/Append.antt =====
-- What `Append` leaves in a session, whatever the body and the operating system do.
use oci_amber.Prelude.{
  ℕ, ◌≡◌, refl, sym, ap, ◌∙◌, subst, if◌then◌else◌, Bool, true, false, inl, inr, Option, none, some,
  List, [], ◌∷◌, ◌++◌, append_assoc, append-nil, arith, length, take, drop, take-append-drop,
  Bool-cases, ltb,
}
use oci_amber.Prelude.Text.{Bytes}
use oci_amber.Upload.Session.{
  Session, Chunk, Body, UploadError, unknown, io_error, touch, write, copy, append, append_end,
}
use oci_amber.Upload.Session.Contents.{IsValid, Took, write-Takes, touch-IsValid}

-- The bytes of a body.
abbrev pub received : List Chunk → Bytes
received [] = []
received (c ∷ cs) = c.bytes ++ received cs

-- `t` is `s` with a first part of `p` appended, all of it if `done`.
pub record Got (s t : Session) (p : Bytes) (done : Bool) : Type 0 where
  pub taken : Bytes
  pub rest : Bytes
  pub parts : p ≡ taken ++ rest
  pub hash : t.hash ≡ s.hash ++ taken
  pub all : done ≡ true → rest ≡ []
  pub closed : t.closed ≡ s.closed
  pub kept : s.file ≡ true → t.file ≡ true
  pub valid : IsValid t

pub Got-refl : (s : Session) → IsValid s → Got s s [] true
Got-refl s v = record {
  taken = [];
  rest = [];
  parts = refl;
  hash = sym (append-nil s.hash);
  all = λ d. refl;
  closed = refl;
  kept = λ f. f;
  valid = v;
}

Got-step :
    (s u t : Session) (b p : Bytes) (n : ℕ) (done : Bool)
    → Took s u b n true
    → Got u t p done
    → Got s t (b ++ p) done
Got-step s u t b p n done k g = record {
  taken = b ++ g.taken;
  rest = g.rest;
  parts = ap (λ x. b ++ x) g.parts ∙ sym (append_assoc b g.taken g.rest);
  hash =
      g.hash
      ∙ ap (λ x. x ++ g.taken) (k.hash ∙ ap (λ x. s.hash ++ x) (k.all refl))
      ∙ append_assoc s.hash b g.taken;
  all = g.all;
  closed = g.closed ∙ k.closed;
  kept = λ f. g.kept (k.kept f);
  valid = g.valid;
}

Got-stop :
    (s u : Session) (b p : Bytes) (n : ℕ) (d : Bool) → Took s u b n d → Got s u (b ++ p) false
Got-stop s u b p n d k = record {
  taken = take n b;
  rest = drop n b ++ p;
  parts = ap (λ x. x ++ p) (sym (take-append-drop n b)) ∙ append_assoc (take n b) (drop n b) p;
  hash = k.hash;
  all = λ e. cc;
  closed = k.closed;
  kept = k.kept;
  valid = k.valid;
}

Got-skip :
    (s : Session) (b p : Bytes) (r : Session × Bool)
    → b ≡ []
    → Got s r.0 p r.1
    → Got s r.0 (b ++ p) r.1
Got-skip s b p r e g = rw e g

-- The three ways in which a round of the copy goes on.
copy-skip :
    (c : Chunk) (cs : List Chunk) (fails : Bool) (s : Session)
    → ltb 0 (length c.bytes) ≡ false
    → copy (c ∷ cs) fails s ≡ copy cs fails s
unfolding copy
copy-skip c cs fails s e = rw e

copy-next :
    (c : Chunk) (cs : List Chunk) (fails : Bool) (s : Session)
    → ltb 0 (length c.bytes) ≡ true
    → (write c.io c.at s c.bytes).2 ≡ true
    → copy (c ∷ cs) fails s ≡ copy cs fails (write c.io c.at s c.bytes).0
unfolding copy
copy-next c cs fails s e d = rw (e, d)

copy-stop :
    (c : Chunk) (cs : List Chunk) (fails : Bool) (s : Session)
    → ltb 0 (length c.bytes) ≡ true
    → (write c.io c.at s c.bytes).2 ≡ false
    → copy (c ∷ cs) fails s ≡ ((write c.io c.at s c.bytes).0, false)
unfolding copy
copy-stop c cs fails s e d = rw (e, d)

abbrev pub is_none {ℓ} : {A : Type ℓ} → Option A → Bool
is_none none = true
is_none (some a) = false

copy-Got :
    (cs : List Chunk) (fails : Bool) (s : Session)
    → IsValid s
    → s.closed ≡ false
    → Got s (copy cs fails s).0 (received cs) (copy cs fails s).1
copy-Got [] fails s v o =
    unfold copy in
    record {
      taken = [];
      rest = [];
      parts = refl;
      hash = sym (append-nil s.hash);
      all = λ d. refl;
      closed = refl;
      kept = λ f. f;
      valid = v;
    }
copy-Got (c ∷ cs) fails s v o =
    let w = write c.io c.at s c.bytes in
    let k = write-Takes c.io c.at s c.bytes v o in
    let P = λ (r : Session × Bool). Got s r.0 (c.bytes ++ received cs) r.1 in
    elim (Bool-cases (ltb 0 (length c.bytes))) [
      | inr e ↦ subst P (sym (copy-skip c cs fails s e)) (
          Got-skip s c.bytes (received cs) (copy cs fails s) (ground arith)
            (copy-Got cs fails s v o))
      | inl e ↦ elim (Bool-cases w.2) [
        | inl d ↦ subst P (sym (copy-next c cs fails s e d)) (
            Got-step s w.0 (copy cs fails w.0).0 c.bytes (received cs) w.1 (copy cs fails w.0).1
              (subst (λ b. Took s w.0 c.bytes w.1 b) d k)
              (copy-Got cs fails w.0 k.valid (k.closed ∙ o)))
        | inr d ↦
            subst P (sym (copy-stop c cs fails s e d))
              (Got-stop s w.0 c.bytes (received cs) w.1 w.2 k)
      ]
    ]

append-copy :
    (entry exit : ℕ) (body : Body) (s : Session)
    → s.closed ≡ false
    → append entry exit body s ≡ append_end exit (copy body.chunks body.fails (touch entry s))
unfolding append
append-copy entry exit body s o = ground arith

is_none-if : (b : Bool) (e : UploadError) → is_none (if b then none else some e) ≡ b
is_none-if true e = refl
is_none-if false e = refl

Got-touch : (now : ℕ) (s t : Session) (p : Bytes) (d : Bool) → Got (touch now s) t p d → Got s t p d
Got-touch now s t p d g = record {
  taken = g.taken;
  rest = g.rest;
  parts = g.parts;
  hash = g.hash;
  all = g.all;
  closed = g.closed;
  kept = g.kept;
  valid = g.valid;
}

append_end-Got :
    (exit : ℕ) (s : Session) (p : Bytes) (r : Session × Bool)
    → Got s r.0 p r.1
    → Got s (append_end exit r).0 p (is_none (append_end exit r).2)
      × ((append_end exit r).1 ≡ length (append_end exit r).0.hash)
unfolding append_end
append_end-Got exit s p r g = (
  record {
    taken = g.taken;
    rest = g.rest;
    parts = g.parts;
    hash = g.hash;
    all = λ d. g.all (sym (is_none-if r.1 io_error) ∙ d);
    closed = g.closed;
    kept = g.kept;
    valid = touch-IsValid exit r.0 g.valid;
  },
  g.valid.sized,
)

-- What one call of `Append` does to an open session: it appends a first part of the body, all of it
-- if it reports no error, and returns the new length. Afterwards the session is valid again.
pub append-open :
    (entry exit : ℕ) (body : Body) (s : Session)
    → IsValid s
    → s.closed ≡ false
    → Got s
        (append entry exit body s).0
        (received body.chunks)
        (is_none (append entry exit body s).2)
      × ((append entry exit body s).1 ≡ length (append entry exit body s).0.hash)
unfolding append
append-open entry exit body s v o =
    let t = touch entry s in
    subst
      (λ (r : Session × ℕ × Option UploadError).
        Got s r.0 (received body.chunks) (is_none r.2) × (r.1 ≡ length r.0.hash))
      {x = append_end exit (copy body.chunks body.fails t)} (sym (append-copy entry exit body s o))
      (append_end-Got exit s (received body.chunks) (copy body.chunks body.fails t) (
        Got-touch entry s (copy body.chunks body.fails t).0 (received body.chunks)
          (copy body.chunks body.fails t).1
          (copy-Got body.chunks body.fails t (touch-IsValid entry s v) o)))

-- A closed session takes nothing: `Append` reports ErrUnknown and the session keeps its contents.
pub append-closed :
    (entry exit : ℕ) (body : Body) (s : Session)
    → s.closed ≡ true
    → append entry exit body s ≡ (touch exit s, s.size, some unknown)
unfolding append
append-closed entry exit body s c = rw c
