-- ===== src/Rootfs/Tree/Proper.antt =====
-- Every name in a tree is a proper one, and only directories have children, whatever is applied.
use oci_amber.Prelude.{
  ℕ, zero, suc, ◌≡◌, ◌≢◌, refl, sym, subst, Bool, true, false, inl, inr, Bool-cases, Option, none,
  some, List, [], ◌∷◌, ◌++◌, All, All-append, arith,
}
use oci_amber.Prelude.Maybe.{Option-cases, some_injective}
use oci_amber.Prelude.Text.{Bytes, Lacks, bytes_eq}
use oci_amber.Prelude.Split.{split-All}
use oci_amber.Oci.Digest.{is_empty}
use oci_amber.Rootfs.Path.{slash, trim_slash, split_path, split_parent, path_base}
use oci_amber.Rootfs.Path.Clean.{IsName}
use oci_amber.Rootfs.Entry.{Entry, Reason, loop}
use oci_amber.Rootfs.Tree.{
  Forest, nil, child, Attr, is_dir, new_dir, get_child, set_child, remove_child, children_at,
  change_at, stay, up, enter, make, follow, stop, move, Walked, reached, missing, looped, walk,
  resolve_dir, link_parts, start_of_link, made, pop, in_parent, in_directory, find, attr_of, place,
  kept_children, put, linked, link_to, link, whiteout_entry, opaque_entry, get_at,
}

unfoldable pub IsProper : Forest → Type 0
IsProper nil = Unit
IsProper (child c a f rest) = IsName c × (is_dir a ≡ false → f ≡ nil) × IsProper f × IsProper rest

set_child-IsProper :
    (c : Bytes) (a : Attr) (f t : Forest)
    → IsName c
    → (is_dir a ≡ false → f ≡ nil)
    → IsProper f
    → IsProper t
    → IsProper (set_child c a f t)
unfolding IsProper set_child
set_child-IsProper c a f nil n l p q = (n, l, p, tt)
set_child-IsProper c a f (child d b g rest) n l p (m, k, r, q) = elim (Bool-cases (bytes_eq d c)) [
  | inl e ↦ rw e (n, l, p, q)
  | inr e ↦ rw e (m, k, r, set_child-IsProper c a f rest n l p q)
]

remove_child-IsProper : (c : Bytes) (t : Forest) → IsProper t → IsProper (remove_child c t)
unfolding IsProper remove_child
remove_child-IsProper c nil p = tt
remove_child-IsProper c (child d b g rest) (m, k, r, q) = elim (Bool-cases (bytes_eq d c)) [
  | inl e ↦ rw e (remove_child-IsProper c rest q)
  | inr e ↦ rw e (m, k, r, remove_child-IsProper c rest q)
]

get_child-IsProper :
    (c : Bytes) (t : Forest) (a : Attr) (f : Forest)
    → IsProper t
    → get_child c t ≡ some (a, f)
    → (is_dir a ≡ false → f ≡ nil) × IsProper f
unfolding IsProper get_child
get_child-IsProper c nil a f p h = cc
get_child-IsProper c (child d b g rest) a f (m, k, r, q) h =
    ground (arith, get_child-IsProper c rest a f q)

change_at-IsProper :
    (cs : List Bytes) (h : Forest → Forest) (t : Forest)
    → ((f : Forest) → IsProper f → IsProper (h f))
    → IsProper t
    → IsProper (change_at cs h t)
unfolding IsProper change_at
change_at-IsProper [] h t ph p = ph t p
change_at-IsProper (c ∷ cs) h nil ph p = tt
change_at-IsProper (c ∷ cs) h (child d a f rest) ph (m, k, r, q) =
    elim (Bool-cases (bytes_eq d c)) [
      | inr e ↦ rw e (m, k, r, change_at-IsProper (c ∷ cs) h rest ph q)
      | inl e ↦ elim (Bool-cases (is_dir a)) [
        | inl y ↦ rw (e, y) (m, λ n. cc (n, y), change_at-IsProper cs h f ph r, q)
        | inr y ↦ rw (e, y) (m, k, r, q)
      ]
    ]

-- What a walk leaves.
Good : Walked → Type 0
Good (reached u stack) = IsProper u
Good missing = Unit
Good (looped u) = IsProper u

made-IsProper :
    (c : Bytes) (stack : List Bytes) (t : Forest)
    → IsName c
    → IsProper t
    → IsProper (made c stack t)
made-IsProper c stack t n p =
    change_at-IsProper stack (set_child c new_dir nil) t
      (λ f q. set_child-IsProper c new_dir nil f n (λ e. refl) (unfold IsProper in tt) q) p

-- Names are made only of components that are proper names.
move-make :
    (create : Bool) (c : Bytes) (stack : List Bytes) (t : Forest)
    → Lacks slash c
    → move create c stack t ≡ make
    → IsName c
unfolding move
move-make create c stack t l h = ground arith

walk-Good :
    (hops : ℕ) (comps : List Bytes) (create : Bool) (stack : List Bytes) (t : Forest)
    → All (Lacks slash) comps
    → IsProper t
    → Good (walk hops comps create stack t)
unfolding walk Good
walk-Good hops [] create stack t l p = p
walk-Good zero (c ∷ cs) create stack t (lc, l) p =
    elim (move create c stack t)
        as (λ m.
          (move create c stack t ≡ m)
          → Good (elim m [
            | stay ↦ walk zero cs create stack t
            | up ↦ walk zero cs create (pop stack) t
            | enter ↦ walk zero cs create (stack ++ c ∷ []) t
            | make ↦ walk zero cs create (stack ++ c ∷ []) (made c stack t)
            | follow target ↦ looped t
            | stop ↦ missing
          ])) [
            | stay ↦ λ e. walk-Good zero cs create stack t l p
            | up ↦ λ e. walk-Good zero cs create (pop stack) t l p
            | enter ↦ λ e. walk-Good zero cs create (stack ++ c ∷ []) t l p
            | make ↦ λ e.
                walk-Good zero cs create (stack ++ c ∷ []) (made c stack t) l
                  (made-IsProper c stack t (move-make create c stack t lc e) p)
            | follow target ↦ λ e. p
            | stop ↦ λ e. tt
          ]
      refl
walk-Good (suc hops) (c ∷ cs) create stack t (lc, l) p =
    elim (move create c stack t)
        as (λ m.
          (move create c stack t ≡ m)
          → Good (elim m [
            | stay ↦ walk (suc hops) cs create stack t
            | up ↦ walk (suc hops) cs create (pop stack) t
            | enter ↦ walk (suc hops) cs create (stack ++ c ∷ []) t
            | make ↦ walk (suc hops) cs create (stack ++ c ∷ []) (made c stack t)
            | follow target ↦
                walk hops (link_parts target ++ cs) create (start_of_link target stack) t
            | stop ↦ missing
          ])) [
            | stay ↦ λ e. walk-Good (suc hops) cs create stack t l p
            | up ↦ λ e. walk-Good (suc hops) cs create (pop stack) t l p
            | enter ↦ λ e. walk-Good (suc hops) cs create (stack ++ c ∷ []) t l p
            | make ↦ λ e.
                walk-Good (suc hops) cs create (stack ++ c ∷ []) (made c stack t) l
                  (made-IsProper c stack t (move-make create c stack t lc e) p)
            | follow target ↦ λ e.
                walk-Good hops (link_parts target ++ cs) create (start_of_link target stack) t
                  (All-append (Lacks slash) (link_parts target) cs
                    (split-All (trim_slash target) slash) l)
                  p
            | stop ↦ λ e. tt
          ]
      refl

split_path-All : (p : Bytes) → All (Lacks slash) (split_path p)
unfolding split_path
split_path-All p = elim (Bool-cases (is_empty p)) [
  | inl e ↦ rw e tt
  | inr e ↦ rw e (split-All p slash)
]

resolve_dir-Good :
    (p : Bytes) (create : Bool) (t : Forest)
    → IsProper t
    → Good (resolve_dir (split_path p) create t)
unfolding resolve_dir
resolve_dir-Good p create t k = walk-Good 40 (split_path p) create [] t (split_path-All p) k

in_parent-IsProper :
    (p : Bytes) (h : Bytes → Forest → Forest) (t : Forest)
    → ((f : Forest) → IsProper f → IsProper (h (split_parent p).1 f))
    → IsProper t
    → IsProper (in_parent p h t).0
unfolding in_parent Good
in_parent-IsProper p h t ph k =
    elim (resolve_dir (split_path (split_parent p).0) true t)
        as (λ w.
          Good w
          → IsProper
              (elim w as (λ _. Forest × Option Reason) [
                | reached u stack ↦ (change_at stack (h (split_parent p).1) u, none)
                | missing ↦ (t, none)
                | looped u ↦ (u, some loop)
              ]).0) [
                | reached u stack ↦ λ g. change_at-IsProper stack (h (split_parent p).1) u ph g
                | missing ↦ λ g. k
                | looped u ↦ λ g. g
              ]
      (resolve_dir-Good (split_parent p).0 true t k)

in_directory-IsProper :
    (p : Bytes) (h : Forest → Forest) (t : Forest)
    → ((f : Forest) → IsProper f → IsProper (h f))
    → IsProper t
    → IsProper (in_directory p h t).0
unfolding in_directory Good
in_directory-IsProper p h t ph k =
    elim (resolve_dir (split_path p) false t)
        as (λ w.
          Good w
          → IsProper
              (elim w as (λ _. Forest × Option Reason) [
                | reached u stack ↦ (change_at stack h u, none)
                | missing ↦ (t, none)
                | looped u ↦ (u, some loop)
              ]).0) [
                | reached u stack ↦ λ g. change_at-IsProper stack h u ph g
                | missing ↦ λ g. k
                | looped u ↦ λ g. g
              ]
      (resolve_dir-Good p false t k)

pub whiteout_entry-IsProper :
    (e : Entry) (t : Forest) → IsProper t → IsProper (whiteout_entry e t).0
unfolding whiteout_entry
whiteout_entry-IsProper e t p = elim (Bool-cases (is_empty e.path)) [
  | inl y ↦ rw y p
  | inr n ↦ rw n (
      in_directory-IsProper (split_parent e.path).0 (remove_child (split_parent e.path).1) t
        (remove_child-IsProper (split_parent e.path).1) p)
]

pub opaque_entry-IsProper : (e : Entry) (t : Forest) → IsProper t → IsProper (opaque_entry e t).0
unfolding opaque_entry
opaque_entry-IsProper e t p =
    in_directory-IsProper e.path (λ f. nil) t (λ f q. unfold IsProper in tt) p

kept_children-false : (o : Option (Attr × Forest)) → kept_children false o ≡ nil
kept_children-false none = refl
kept_children-false (some (a, f)) = refl

kept_children-IsProper :
    (b : Bool) (o : Option (Attr × Forest))
    → ((a : Attr) (f : Forest) → o ≡ some (a, f) → IsProper f)
    → IsProper (kept_children b o)
unfolding IsProper
kept_children-IsProper true none p = tt
kept_children-IsProper false none p = tt
kept_children-IsProper false (some (a, f)) p = tt
kept_children-IsProper true (some (a, f)) p = elim (Bool-cases (is_dir a)) [
  | inl y ↦ rw y (p a f refl)
  | inr n ↦ rw n tt
]

place-IsProper :
    (a : Attr) (name : Bytes) (f : Forest) → IsName name → IsProper f → IsProper (place a name f)
place-IsProper a name f n p =
    set_child-IsProper name a (kept_children (is_dir a) (get_child name f)) f n
      (λ d.
        subst (λ b. kept_children b (get_child name f) ≡ nil) (sym d)
          (kept_children-false (get_child name f)))
      (kept_children-IsProper (is_dir a) (get_child name f)
        (λ b g h. (get_child-IsProper name f b g p h).1))
      p

-- A link or a node is placed under a proper name unless its path is the root.
pub put-IsProper :
    (e : Entry) (t : Forest)
    → (e.path ≢ [] → IsName (path_base e.path))
    → IsProper t
    → IsProper (put e t).0
unfolding put split_parent
put-IsProper e t n p = elim (Bool-cases (is_empty e.path)) [
  | inl y ↦ rw y p
  | inr y ↦
      rw y
        (elim (attr_of e)
          as (λ o.
            IsProper
              (elim o as (λ _. Forest × Option Reason) [
                | none ↦ (t, none)
                | some a ↦ in_parent e.path (place a) t
              ]).0) [
                | none ↦ p
                | some a ↦
                    in_parent-IsProper e.path (place a) t
                      (λ f q. place-IsProper a (path_base e.path) f (n (λ z. ground arith)) q) p
              ])
]

children_at-IsProper :
    (cs : List Bytes) (t f : Forest) → IsProper t → children_at cs t ≡ some f → IsProper f
unfolding children_at IsProper
children_at-IsProper [] t f p h = subst IsProper (some_injective h) p
children_at-IsProper (c ∷ cs) nil f p h = cc
children_at-IsProper (c ∷ cs) (child d a g rest) f (m, k, r, q) h =
    ground (arith, children_at-IsProper cs g f r, children_at-IsProper (c ∷ cs) rest f q)

get_at-IsProper :
    (stack : List Bytes) (c : Bytes) (t : Forest) (a : Attr) (f : Forest)
    → IsProper t
    → get_at stack c t ≡ some (a, f)
    → (is_dir a ≡ false → f ≡ nil) × IsProper f
get_at-IsProper stack c t a f p h = elim (Option-cases (children_at stack t)) [
  | inl e ↦ absurd (ground arith)
  | inr (g, e) ↦ get_child-IsProper c g a f (children_at-IsProper stack t g p e) (ground arith)
]

-- What was found is proper, and has no children unless it is a directory.
Sound : Option (Attr × Forest) × Option Reason → Type 0
Sound r = (a : Attr) (f : Forest) → r.0 ≡ some (a, f) → (is_dir a ≡ false → f ≡ nil) × IsProper f

find-Sound : (p : Bytes) (t : Forest) → IsProper t → Sound (find p t)
unfolding find Sound Good
find-Sound p t k = elim (Bool-cases (is_empty p)) [
  | inl y ↦ rw y (λ a f h. ground (arith, some_injective h))
  | inr y ↦ rw y (
      elim (resolve_dir (split_path (split_parent p).0) false t)
          as (λ w.
            Good w
            → Sound (elim w as (λ _. Option (Attr × Forest) × Option Reason) [
              | reached u stack ↦ (get_at stack (split_parent p).1 u, none)
              | missing ↦ (none, none)
              | looped u ↦ (none, some loop)
            ])) [
              | reached u stack ↦ λ g a f h. get_at-IsProper stack (split_parent p).1 u a f g h
              | missing ↦ λ g a f h. cc
              | looped u ↦ λ g a f h. cc
            ]
        (resolve_dir-Good (split_parent p).0 false t k))
]

link_to-IsProper :
    (e : Entry) (r : Option (Attr × Forest) × Option Reason) (t : Forest)
    → IsName (path_base e.path)
    → Sound r
    → IsProper t
    → IsProper (link_to e r t).0
unfolding link_to Sound split_parent
link_to-IsProper e (n, some r) t c s p = p
link_to-IsProper e (none, none) t c s p = p
link_to-IsProper e (some (a, f), none) t c s p = elim (Bool-cases (is_dir a)) [
  | inl y ↦ rw y p
  | inr y ↦ rw y (
      in_parent-IsProper e.path (λ name. set_child name (linked e a) f) t
        (λ g q.
          set_child-IsProper (path_base e.path) (linked e a) f g c (λ d. (s a f refl).0 y)
            (s a f refl).1 q)
        p)
]

pub link-IsProper :
    (e : Entry) (t : Forest) → IsName (path_base e.path) → IsProper t → IsProper (link e t).0
unfolding link
link-IsProper e t c p = link_to-IsProper e (find e.target t) t c (find-Sound e.target t p) p
