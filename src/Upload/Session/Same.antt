-- ===== src/Upload/Session/Same.antt =====
-- The methods of a session that leave its identity and whether it is removed.
use oci_amber.Prelude.{
  ℕ, ◌≤◌, ◌⊎◌, length, ◌≡◌, refl, sym, subst, Option, Bool, true, false, inl, inr, List, [], ◌∷◌,
  arith, Bool-cases,
}
use oci_amber.Prelude.Text.{Bytes}
use oci_amber.Upload.Session.{
  Session, UploadError, WriteIo, Chunk, Body, CloseIo, touch, spill, write_on, write_spilled, write,
  copy, append, close,
}
use oci_amber.Upload.Session.Contents.{IsValid, touch-IsValid}
use oci_amber.Upload.Session.Append.{append-open, append-closed}
use oci_amber.Upload.Session.Close.{IsGone}
use oci_amber.Upload.Session.Unlinked.{
  IsUnlinked, restored, unlinked, unlinked-cases, append-IsUnlinked,
}

-- A session that is valid, or whose file was removed with a spool.
unfoldable pub IsKept : Session → Type 0
IsKept s = IsValid s ⊎ IsUnlinked s

-- `t` is a later state of the session `s`: a removed session stays removed, with its file gone.
pub record Later (s t : Session) : Type 0 where
  pub id : t.id ≡ s.id
  pub removed : t.removed ≡ false → s.removed ≡ false
  pub gone : (s.removed ≡ true → IsGone s) → t.removed ≡ true → IsGone t
  pub valid : IsKept t

Same : Session → Session → Type 0
Same s t = (t.id ≡ s.id) × (t.removed ≡ s.removed) × (t.path ≡ s.path)

write_on-Same : (io : WriteIo) (s : Session) (p : Bytes) → Same s (write_on io s p).0
unfolding Same write_on
write_on-Same io s p = ground arith

spill-Same : (io : WriteIo) (s : Session) → Same s (spill io s).0
unfolding Same spill
spill-Same io s = ground arith

write-Same : (io : WriteIo) (now : ℕ) (s : Session) (p : Bytes) → Same s (write io now s p).0
unfolding Same write write_spilled
write-Same io now s p = ground (
  arith,
  spill-Same io (touch now s),
  write_on-Same io (touch now s) p,
  write_on-Same io (spill io (touch now s)).0 p,
)

copy-Same : (cs : List Chunk) (fails : Bool) (s : Session) → Same s (copy cs fails s).0
unfolding Same copy
copy-Same [] fails s = (refl, refl, refl)
copy-Same (c ∷ cs) fails s = ground (
  arith,
  copy-Same cs fails s,
  copy-Same cs fails (write c.io c.at s c.bytes).0,
  write-Same c.io c.at s c.bytes,
)

append-Same : (entry exit : ℕ) (body : Body) (s : Session) → Same s (append entry exit body s).0
unfolding Same append
append-Same entry exit body s = ground (arith, copy-Same body.chunks body.fails (touch entry s))

pub append-path :
    (entry exit : ℕ) (body : Body) (s : Session) → (append entry exit body s).0.path ≡ s.path
unfolding Same
append-path entry exit body s = (append-Same entry exit body s).2

touch-IsKept : (now : ℕ) (s : Session) → IsKept s → IsKept (touch now s)
unfolding IsKept IsUnlinked
touch-IsKept now s (inl v) = inl (touch-IsValid now s v)
touch-IsKept now s (inr (f, d, v)) = inr (f, d, touch-IsValid now (restored s) v)

append-IsKept :
    (entry exit : ℕ) (body : Body) (s : Session)
    → s.closed ≡ false
    → IsKept s
    → IsKept (append entry exit body s).0
unfolding IsKept
append-IsKept entry exit body s o (inl v) = inl (append-open entry exit body s v o).0.valid
append-IsKept entry exit body s o (inr u) = inr (append-IsUnlinked entry exit body s u o)

pub touch-Later : (now : ℕ) (s : Session) → IsKept s → Later s (touch now s)
touch-Later now s v = record {
  id = refl;
  removed = λ r. r;
  gone = λ g r. g r;
  valid = touch-IsKept now s v;
}

-- Appending to a session, open or closed, removed or not.
pub append-Later :
    (entry exit : ℕ) (body : Body) (s : Session)
    → IsKept s
    → (s.removed ≡ true → IsGone s)
    → Later s (append entry exit body s).0
unfolding Same
append-Later entry exit body s v g =
    let (same_id, same_removed, same_path) = append-Same entry exit body s in
    elim (Bool-cases s.closed) [
      | inl c ↦
          subst (λ (r : Session × ℕ × Option UploadError). Later s r.0)
            (sym (append-closed entry exit body s c)) (touch-Later exit s v)
      | inr o ↦ record {
        id = same_id;
        removed = λ r. cc (same_removed, r);
        gone = λ h r. ground (arith, h (cc (same_removed, r)));
        valid = append-IsKept entry exit body s o v;
      }
    ]

-- A closed session is valid whatever file it has.
close-IsValid :
    (io : CloseIo) (s : Session)
    → s.size ≡ length s.hash
    → (s.file ≡ true → s.buf ≡ [])
    → length s.buf ≤ s.max_in_memory
    → IsValid (close io s).0
unfolding close
close-IsValid io s z c b = record {
  sized = ground (arith, z);
  in_memory = ground arith;
  in_file = ground arith;
  no_copy = ground (arith, c);
  bounded = ground (arith, b);
}

close-IsKept : (io : CloseIo) (s : Session) → IsKept s → IsKept (close io s).0
unfolding IsKept IsUnlinked
close-IsKept io s (inl v) = inl (close-IsValid io s v.sized v.no_copy v.bounded)
close-IsKept io s (inr (f, d, v)) = inl (close-IsValid io s v.sized v.no_copy v.bounded)

pub close-Later : (io : CloseIo) (s : Session) → IsKept s → Later s (close io s).0
unfolding close
close-Later io s v = record {
  id = ground arith;
  removed = ground arith;
  gone = ground arith;
  valid = close-IsKept io s v;
}

-- The file of a session is removed with a spool.
pub unlinked-Later : (s : Session) → IsKept s → Later s (unlinked s)
unfolding IsKept IsUnlinked
unlinked-Later s v = record {
  id = refl;
  removed = λ r. r;
  gone = λ g r. let (c, q, d) = g r in (c, q, refl);
  valid = elim v [ inl x ↦ unlinked-cases s x | inr (f, d, x) ↦ inr (f, refl, x) ];
}

-- A close without an error leaves the session removed.
pub close-done :
    (io : CloseIo) (s : Session) → (close io s).1 ≡ true → (close io s).0.removed ≡ true
unfolding close
close-done io s d = ground arith
