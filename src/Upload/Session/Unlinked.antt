-- ===== src/Upload/Session/Unlinked.antt =====
-- upload/session.go: a session whose file was removed with a spool, which shares it. The open file takes
-- further bytes, but no path leads to it.
use oci_amber.Prelude.{
  ℕ, ◌≡◌, ◌⊎◌, refl, sym, ap, ◌∙◌, subst, inl, inr, Bool, true, false, Option, none, some, List, [],
  ◌∷◌, Bool-cases, length, ltb, if◌then◌else◌,
}
use oci_amber.Prelude.Text.{Bytes}
use oci_amber.Upload.Session.{
  Session, UploadError, unknown, WriteIo, Chunk, Body, touch, write, write_on, write_file,
  write_spilled, copy, append, append_end,
}
use oci_amber.Upload.Session.Contents.{IsValid}
use oci_amber.Upload.Session.Append.{append-open}

-- Without its file, and with one that has what was received.
abbrev pub unlinked : Session → Session
unlinked s = record s { disk = none }

abbrev pub restored : Session → Session
restored s = record s { disk = some s.hash }

-- Valid, or valid but for the file that is gone.
unfoldable pub IsUnlinked : Session → Type 0
IsUnlinked s = (s.file ≡ true) × (s.disk ≡ none) × IsValid (restored s)

pub restored-IsValid : (s : Session) → IsValid s → IsValid (restored s)
restored-IsValid s v = record {
  sized = v.sized;
  in_memory = v.in_memory;
  in_file = λ c f. refl;
  no_copy = v.no_copy;
  bounded = v.bounded;
}

-- A session with a file stays one when the file is unlinked.
pub unlinked-cases : (s : Session) → IsValid s → IsValid (unlinked s) ⊎ IsUnlinked (unlinked s)
unfolding IsUnlinked
unlinked-cases s v = elim (Bool-cases s.file) [
  | inl f ↦ inr (f, refl, restored-IsValid s v)
  | inr f ↦ inl (record {
    sized = v.sized;
    in_memory = v.in_memory;
    in_file = λ c g. absurd (cc (f, g));
    no_copy = v.no_copy;
    bounded = v.bounded;
  })
]

write-unlinked :
    (io : WriteIo) (now : ℕ) (s : Session) (p : Bytes)
    → s.file ≡ true
    → ((write io now (unlinked s) p).0 ≡ unlinked (write io now s p).0)
      × ((write io now (unlinked s) p).2 ≡ (write io now s p).2)
      × ((write io now s p).0.file ≡ true)
unfolding write write_on write_file write_spilled
write-unlinked io now s p f = rw f (refl, refl, refl)

-- One round of the copy: the rest of it behind a write, the write that failed, or the rest without one.
joined : Bool → Bool → Session → Session × Bool → Session × Bool → Session × Bool
joined writes done w next skip = if writes then (if done then next else (w, false)) else skip

join-unlinked :
    (writes done : Bool) (w : Session) (next next' skip skip' : Session × Bool)
    → next'.0 ≡ unlinked next.0
    → skip'.0 ≡ unlinked skip.0
    → w.file ≡ true
    → next.0.file ≡ true
    → skip.0.file ≡ true
    → ((joined writes done (unlinked w) next' skip').0
        ≡ unlinked (joined writes done w next skip).0)
      × ((joined writes done w next skip).0.file ≡ true)
unfolding joined
join-unlinked true true w next next' skip skip' a b g h i = (a, h)
join-unlinked true false w next next' skip skip' a b g h i = (refl, g)
join-unlinked false done w next next' skip skip' a b g h i = (b, i)

copy-unlinked :
    (cs : List Chunk) (fails : Bool) (s : Session)
    → s.file ≡ true
    → ((copy cs fails (unlinked s)).0 ≡ unlinked (copy cs fails s).0)
      × ((copy cs fails s).0.file ≡ true)
unfolding copy joined
copy-unlinked [] fails s f = (refl, f)
copy-unlinked (c ∷ cs) fails s f =
    let (w, d, g) = write-unlinked c.io c.at s c.bytes f in
    let (a, h) = copy-unlinked cs fails (write c.io c.at s c.bytes).0 g in
    let (b, i) = copy-unlinked cs fails s f in
    rw (w, d)
      (join-unlinked (ltb 0 (length c.bytes)) (write c.io c.at s c.bytes).2
        (write c.io c.at s c.bytes).0 (copy cs fails (write c.io c.at s c.bytes).0)
        (copy cs fails (unlinked (write c.io c.at s c.bytes).0)) (copy cs fails s)
        (copy cs fails (unlinked s)) a b g h i)

pub append-unlinked :
    (entry exit : ℕ) (body : Body) (s : Session)
    → s.file ≡ true
    → s.closed ≡ false
    → ((append entry exit body (unlinked s)).0 ≡ unlinked (append entry exit body s).0)
      × ((append entry exit body s).0.file ≡ true)
unfolding append append_end
append-unlinked entry exit body s f o =
    let (a, h) = copy-unlinked body.chunks body.fails (touch entry s) f in
    subst
      (λ c.
        let run : Session → Session × ℕ × Option UploadError = λ t.
          if c
          then (touch exit t, t.size, some unknown)
          else append_end exit (copy body.chunks body.fails (touch entry t)) in
        ((run (unlinked s)).0 ≡ unlinked (run s).0) × ((run s).0.file ≡ true))
      (sym o) (ap (touch exit) a, h)

-- Appending to a session whose file is gone.
pub append-IsUnlinked :
    (entry exit : ℕ) (body : Body) (s : Session)
    → IsUnlinked s
    → s.closed ≡ false
    → IsUnlinked (append entry exit body s).0
unfolding IsUnlinked
append-IsUnlinked entry exit body s (f, d, v) o =
    let t = (append entry exit body (restored s)).0 in
    let w : IsValid t = (append-open entry exit body (restored s) v o).0.valid in
    let (a, g) = append-unlinked entry exit body (restored s) f o in
    let same : (append entry exit body s).0 ≡ unlinked t =
      ap (λ x. (append entry exit body (record s { disk = x })).0) d ∙ a in
    subst IsUnlinked (sym same) (g, refl, restored-IsValid t w)
