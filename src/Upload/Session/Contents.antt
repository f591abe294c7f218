-- ===== src/Upload/Session/Contents.antt =====
-- A session holds exactly the bytes that it received, in memory or in its file.
use oci_amber.Prelude.{
  ℕ, zero, suc, ◌+◌, ◌≤◌, ◌≡◌, refl, sym, ap, ◌∙◌, subst, if◌then◌else◌, ◌&&◌, Bool, true, false,
  not, inl, inr, some, [], ◌∷◌, ◌++◌, append-nil, arith, min, length, take, length-append,
  length-take, Bool-cases, ltb,
}
use oci_amber.Prelude.Text.{Bytes}
use oci_amber.Upload.Session.{
  Session, new_session, WriteIo, touch, spill, write_on, write_file, write_buffer, write_spilled,
  write,
}

pub record IsValid (s : Session) : Type 0 where
  pub sized : s.size ≡ length s.hash
  pub in_memory : s.closed ≡ false → s.file ≡ false → s.buf ≡ s.hash
  pub in_file : s.closed ≡ false → s.file ≡ true → s.disk ≡ some s.hash
  pub no_copy : s.file ≡ true → s.buf ≡ []
  pub bounded : length s.buf ≤ s.max_in_memory

-- What a write does to a valid open session: it takes `n` bytes, all of them if it succeeds.
pub record Took (s t : Session) (p : Bytes) (n : ℕ) (done : Bool) : Type 0 where
  pub hash : t.hash ≡ s.hash ++ take n p
  pub all : done ≡ true → take n p ≡ p
  pub closed : t.closed ≡ s.closed
  pub kept : s.file ≡ true → t.file ≡ true
  pub valid : IsValid t

take_all : (n : ℕ) (p : Bytes) → length p ≤ n → take n p ≡ p
take_all zero [] h = refl
take_all (suc n) [] h = refl
take_all zero (c ∷ p) h = absurd (omega arith)
take_all (suc n) (c ∷ p) h = ap (λ x. c ∷ x) (take_all n p (omega arith))

write_buffer-Took :
    (s : Session) (p : Bytes)
    → IsValid s
    → s.closed ≡ false
    → s.file ≡ false
    → s.size + length p ≤ s.max_in_memory
    → Took s (write_buffer s p).0 p (write_buffer s p).1 (write_buffer s p).2
unfolding write_buffer
write_buffer-Took s p v o f fits = record {
  hash = ap (λ x. s.hash ++ x) (sym (take_all (length p) p (omega arith)));
  all = λ d. take_all (length p) p (omega arith);
  closed = refl;
  kept = λ g. g;
  valid = record {
    sized = omega (arith, length-append s.hash p, v.sized);
    in_memory = λ c g. ap (λ x. x ++ p) (v.in_memory o f);
    in_file = λ c g. cc (f, g);
    no_copy = λ g. cc (f, g);
    bounded = rw (length-append, v.in_memory o f) (omega (arith, v.sized));
  };
}

write_file-Took :
    (io : WriteIo) (s : Session) (p : Bytes)
    → IsValid s
    → s.closed ≡ false
    → s.file ≡ true
    → Took s (write_file io s p).0 p (write_file io s p).1 (write_file io s p).2
unfolding write_file
write_file-Took io s p v o f = record {
  hash = refl;
  all = λ d. take_all (min io.taken (length p)) p (ground arith);
  closed = refl;
  kept = λ g. g;
  valid = record {
    sized = omega (
      arith,
      length-append s.hash (take (min io.taken (length p)) p),
      length-take (min io.taken (length p)) p,
      v.sized,
    );
    in_memory = λ c g. cc (f, g);
    in_file = λ c g. rw (v.in_file o f);
    no_copy = v.no_copy;
    bounded = v.bounded;
  };
}

-- A spill moves the bytes into the file or leaves the session as it was.
spill_lem :
    (io : WriteIo) (s : Session)
    → IsValid s
    → s.closed ≡ false
    → s.file ≡ false
    → IsValid (spill io s).0
      × ((spill io s).0.hash ≡ s.hash)
      × ((spill io s).0.closed ≡ false)
      × ((spill io s).1 ≡ true → (spill io s).0.file ≡ true)
unfolding spill
spill_lem io s v o f = ground (arith, v.in_memory o f)

-- What the result of a write says.
abbrev pub Takes : Session → Bytes → Session × ℕ × Bool → Type 0
Takes s p r = Took s r.0 p r.1 r.2

write_on-file :
    (io : WriteIo) (s : Session) (p : Bytes) → s.file ≡ true → write_on io s p ≡ write_file io s p
unfolding write_on
write_on-file io s p f = ground arith

write_on-buffer :
    (io : WriteIo) (s : Session) (p : Bytes) → s.file ≡ false → write_on io s p ≡ write_buffer s p
unfolding write_on
write_on-buffer io s p f = ground arith

write_on-Takes :
    (io : WriteIo) (s : Session) (p : Bytes)
    → IsValid s
    → s.closed ≡ false
    → (s.file ≡ false → s.size + length p ≤ s.max_in_memory)
    → Takes s p (write_on io s p)
write_on-Takes io s p v o fits = elim (Bool-cases s.file) [
  | inl f ↦ subst (Takes s p) (sym (write_on-file io s p f)) (write_file-Took io s p v o f)
  | inr f ↦
      subst (Takes s p) (sym (write_on-buffer io s p f)) (write_buffer-Took s p v o f (fits f))
]

pub touch-IsValid : (now : ℕ) (s : Session) → IsValid s → IsValid (touch now s)
touch-IsValid now s v = ground arith

Took-trans :
    (s u : Session) (p : Bytes) (r : Session × ℕ × Bool)
    → u.hash ≡ s.hash
    → u.closed ≡ s.closed
    → (s.file ≡ true → u.file ≡ true)
    → Takes u p r
    → Takes s p r
Took-trans s u p r h c f t = record {
  hash = t.hash ∙ ap (λ x. x ++ take r.1 p) h;
  all = t.all;
  closed = t.closed ∙ c;
  kept = λ g. t.kept (f g);
  valid = t.valid;
}

-- A write that only failed to spill takes nothing.
Takes-none :
    (s u : Session) (p : Bytes)
    → IsValid u
    → u.hash ≡ s.hash
    → u.closed ≡ s.closed
    → (s.file ≡ true → u.file ≡ true)
    → Takes s p (u, 0, false)
Takes-none s u p v h c f = record {
  hash = h ∙ sym (append-nil s.hash);
  all = λ d. cc;
  closed = c;
  kept = f;
  valid = v;
}

write_spilled-Takes :
    (io : WriteIo) (s : Session) (p : Bytes)
    → IsValid s
    → s.closed ≡ false
    → s.file ≡ false
    → Takes s p (write_spilled io p (spill io s))
unfolding write_spilled
write_spilled-Takes io s p v o f =
    let (u_valid, same, still_open, has_file) = spill_lem io s v o f in
    let u = (spill io s).0 in
    elim (Bool-cases (spill io s).1) [
      | inl e ↦ subst (Takes s p) (ap (λ b. if b then write_on io u p else (u, 0, false)) (sym e)) (
          Took-trans s u p (write_on io u p) same (still_open ∙ sym o) (λ g. cc (f, g))
            (write_on-Takes io u p u_valid still_open (λ g. absurd (ground (arith, has_file e)))))
      | inr e ↦
          subst (Takes s p) (ap (λ b. if b then write_on io u p else (u, 0, false)) (sym e))
            (Takes-none s u p u_valid same (still_open ∙ sym o) (λ g. cc (f, g)))
    ]

-- A write to a valid open session appends a prefix of the bytes to what the session holds, all of
-- them if it reports no error, and leaves it valid.
pub write-Takes :
    (io : WriteIo) (now : ℕ) (s : Session) (p : Bytes)
    → IsValid s
    → s.closed ≡ false
    → Takes s p (write io now s p)
unfolding write
write-Takes io now s p v o =
    let t = touch now s in
    let w = touch-IsValid now s v in
    elim (Bool-cases (not s.file && ltb s.max_in_memory (s.size + length p))) [
      | inl e ↦
          subst (λ b. Takes s p (if b then write_spilled io p (spill io t) else write_on io t p))
            (sym e)
            (Took-trans s t p (write_spilled io p (spill io t)) refl refl (λ g. g)
              (write_spilled-Takes io t p w o (ground arith)))
      | inr e ↦
          subst (λ b. Takes s p (if b then write_spilled io p (spill io t) else write_on io t p))
            (sym e)
            (Took-trans s t p (write_on io t p) refl refl (λ g. g)
              (write_on-Takes io t p w o (λ f. ground arith)))
    ]

pub new_session-IsValid :
    (id path : Bytes) (limit now : ℕ) → IsValid (new_session id path limit now)
new_session-IsValid id path limit now = record {
  sized = refl;
  in_memory = λ c f. refl;
  in_file = λ c f. cc;
  no_copy = λ f. refl;
  bounded = omega arith;
}
