-- ===== src/Store/Dir/Ordered.antt =====
-- Whatever is added to a directory, its entries stay in order, with valid names and payloads.
use oci_amber.Prelude.{
  suc, ◌≡◌, ◌⊎◌, refl, sym, subst, inl, inr, Bool, true, false, not, ◌&&◌, Bool-cases, some, List,
  [], ◌∷◌, ◌++◌, All, All-append, arith, ltb, length, length-append,
}
use oci_amber.Prelude.Text.{Bytes, bytes_lt}
use oci_amber.Prelude.Order.{bytes_lt_trans}
use oci_amber.Store.{Keys}
use oci_amber.Store.Dir.{DirEntry, Dir, new_dir, valid_name, valid_payload, add_entry}

abbrev Above : Bytes → List DirEntry → Type 0
Above t = All (λ e. bytes_lt t e.name ≡ true)

-- Names that strictly rise.
abbrev pub Rising : List DirEntry → Type 0
Rising [] = Unit {0}
Rising (e ∷ es) = All (λ f. bytes_lt e.name f.name ≡ true) es × Rising es

-- The names of a directory are at most the last one.
abbrev pub AtMost : Bytes → List DirEntry → Type 0
AtMost t = All (λ e. (e.name ≡ t) ⊎ (bytes_lt e.name t ≡ true))

All-below :
    (es : List DirEntry) (t u : Bytes)
    → AtMost t es
    → bytes_lt t u ≡ true
    → All (λ e. bytes_lt e.name u ≡ true) es
All-below [] t u h k = tt
All-below (e ∷ es) t u (inl q, h) k = (rw q k, All-below es t u h k)
All-below (e ∷ es) t u (inr q, h) k = (bytes_lt_trans e.name t u q k, All-below es t u h k)

Rising-append :
    (es : List DirEntry) (e : DirEntry)
    → Rising es
    → All (λ f. bytes_lt f.name e.name ≡ true) es
    → Rising (es ++ e ∷ [])
Rising-append [] e r h = (tt, tt)
Rising-append (f ∷ es) e (a, r) (b, h) =
    (All-append (λ g. bytes_lt f.name g.name ≡ true) es (e ∷ []) a (b, tt), Rising-append es e r h)

AtMost-below :
    (es : List DirEntry) (t : Bytes) → All (λ e. bytes_lt e.name t ≡ true) es → AtMost t es
AtMost-below [] t h = tt
AtMost-below (e ∷ es) t (a, h) = (inr a, AtMost-below es t h)

-- Every entry of a directory stands below one that the order test lets in.
All-lower :
    (d : Dir) (n : Bytes)
    → AtMost d.last d.entries
    → d.count ≡ length d.entries
    → (ltb 0 d.count && not (bytes_lt d.last n)) ≡ false
    → All (λ e. bytes_lt e.name n ≡ true) d.entries
All-lower d n h c t = elim (Bool-cases (bytes_lt d.last n)) [
  | inl a ↦ All-below d.entries d.last n h a
  | inr a ↦ none-in d.entries n (ground arith)
]
  where
    none-in :
        (es : List DirEntry) (n : Bytes) → length es ≡ 0 → All (λ e. bytes_lt e.name n ≡ true) es
    none-in [] n e = tt
    none-in (x ∷ es) n e = absurd (omega arith)

module _ (keys : Keys) where
  pub record IsWellFormed (d : Dir) : Type 0 where
    pub rising : Rising d.entries
    pub valid : All (λ e. (valid_name e.name && valid_payload keys e) ≡ true) d.entries
    pub counted : d.count ≡ length d.entries
    pub below : AtMost d.last d.entries

  pub new_dir-IsWellFormed : IsWellFormed new_dir
  new_dir-IsWellFormed = record { rising = tt; valid = tt; counted = refl; below = tt }

  -- An entry that is added without an error.
  added :
      (takes : DirEntry → Bool) (e : DirEntry) (d t : Dir)
      → add_entry keys takes e d ≡ some t
      → (t ≡ record {
        entries = d.entries ++ e ∷ [];
        last = e.name;
        count = suc d.count;
        done = false;
      })
        × ((valid_name e.name && valid_payload keys e) ≡ true)
        × ((ltb 0 d.count && not (bytes_lt d.last e.name)) ≡ false)
  unfolding add_entry
  added takes e d t h = (ground arith, ground arith, ground arith)

  -- Adding an entry keeps a directory well formed: its names rise strictly, so that none stands twice,
  -- and each entry has a name of one component and the payload of its type.
  pub add_entry-IsWellFormed :
      (takes : DirEntry → Bool) (e : DirEntry) (d t : Dir)
      → IsWellFormed d
      → add_entry keys takes e d ≡ some t
      → IsWellFormed t
  add_entry-IsWellFormed takes e d t v h =
      let (q, a, b) = added takes e d t h in
      let lower = All-lower d e.name v.below v.counted b in
      subst IsWellFormed (sym q) (record {
        rising = Rising-append d.entries e v.rising lower;
        valid =
            All-append (λ f. (valid_name f.name && valid_payload keys f) ≡ true) d.entries (e ∷ [])
              v.valid (a, tt);
        counted = omega (arith, v.counted, length-append d.entries (e ∷ []));
        below =
            All-append (λ f. (f.name ≡ e.name) ⊎ (bytes_lt f.name e.name ≡ true)) d.entries (e ∷ [])
              (AtMost-below d.entries e.name lower) (inl refl, tt);
      })
