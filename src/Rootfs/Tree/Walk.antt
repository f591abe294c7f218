-- ===== src/Rootfs/Tree/Walk.antt =====
-- Where a walk ends: in a directory of the tree.
use oci_amber.Prelude.{
  ℕ, zero, suc, ◌≡◌, ◌⊎◌, refl, sym, ap, ◌∙◌, subst, Bool, true, false, inl, inr, Bool-cases, none,
  some, List, [], ◌∷◌, ◌++◌, arith,
}
use oci_amber.Prelude.Maybe.{Option-cases}
use oci_amber.Prelude.Text.{Bytes, bytes_eq, has_prefix}
use oci_amber.Oci.Digest.{is_empty}
use oci_amber.Rootfs.Path.{slash, split_path, split_parent, path_base}
use oci_amber.Rootfs.Entry.{Entry, loop}
use oci_amber.Rootfs.Tree.{
  Forest, nil, Attr, is_dir, new_dir, get_child, set_child, remove_child, children_at, change_at,
  stay, up, enter, make, follow, stop, move, Walked, reached, missing, looped, walk, resolve_dir,
  link_parts, start_of_link, made, pop, in_parent, in_directory, attr_of, place, kept_children, put,
  whiteout_entry, Done,
}
use oci_amber.Rootfs.Tree.Change.{
  get_child-set_child, get_child-remove_child, children_at-change_at, children_at-snoc,
  children_at-pop,
}

-- The stack of a walk names a directory, and a walk that creates directories never ends at a missing
-- one.
unfoldable pub Ends : Bool → Walked → Type 0
Ends create (reached u stack) = (f : Forest) × (children_at stack u ≡ some f)
Ends create missing = create ≡ false
Ends create (looped u) = Unit

move-enter :
    (create : Bool) (c : Bytes) (stack : List Bytes) (t f : Forest)
    → children_at stack t ≡ some f
    → move create c stack t ≡ enter
    → (a : Attr) × (g : Forest) × (get_child c f ≡ some (a, g)) × (is_dir a ≡ true)
unfolding move
move-enter create c stack t f k h = elim (Option-cases (get_child c f)) [
  | inl e ↦ absurd (ground arith)
  | inr ((a, g), e) ↦ (a, g, e, ground arith)
]

move-stop :
    (create : Bool) (c : Bytes) (stack : List Bytes) (t : Forest)
    → move create c stack t ≡ stop
    → create ≡ false
unfolding move
move-stop create c stack t h = ground arith

entered :
    (create : Bool) (c : Bytes) (stack : List Bytes) (t f : Forest)
    → children_at stack t ≡ some f
    → move create c stack t ≡ enter
    → (g : Forest) × (children_at (stack ++ c ∷ []) t ≡ some g)
entered create c stack t f k h =
    let (a, g, e, d) = move-enter create c stack t f k h in
    (g, children_at-snoc stack c t f a g k e d)

made_there :
    (c : Bytes) (stack : List Bytes) (t f : Forest)
    → children_at stack t ≡ some f
    → (g : Forest) × (children_at (stack ++ c ∷ []) (made c stack t) ≡ some g)
made_there c stack t f k = (
  nil,
  children_at-snoc stack c (made c stack t) (set_child c new_dir nil f) new_dir nil
      (children_at-change_at stack (set_child c new_dir nil) t f k)
      ((get_child-set_child c c new_dir nil f).0 refl) refl,
)

start_there :
    (target : Bytes) (stack : List Bytes) (t f : Forest)
    → children_at stack t ≡ some f
    → (g : Forest) × (children_at (start_of_link target stack) t ≡ some g)
unfolding children_at
start_there target stack t f k = elim (Bool-cases (has_prefix target (slash ∷ []))) [
  | inl y ↦ (t, rw y refl)
  | inr y ↦ (f, rw y k)
]

walk-Ends :
    (hops : ℕ) (comps : List Bytes) (create : Bool) (stack : List Bytes) (t f : Forest)
    → children_at stack t ≡ some f
    → Ends create (walk hops comps create stack t)
unfolding walk Ends
walk-Ends hops [] create stack t f k = (f, k)
walk-Ends zero (c ∷ cs) create stack t f k =
    elim (move create c stack t)
        as (λ m.
          (move create c stack t ≡ m)
          → Ends create (elim m [
            | stay ↦ walk zero cs create stack t
            | up ↦ walk zero cs create (pop stack) t
            | enter ↦ walk zero cs create (stack ++ c ∷ []) t
            | make ↦ walk zero cs create (stack ++ c ∷ []) (made c stack t)
            | follow target ↦ looped t
            | stop ↦ missing
          ])) [
            | stay ↦ λ e. walk-Ends zero cs create stack t f k
            | up ↦ λ e.
                let (g, h) = children_at-pop stack t f k in
                walk-Ends zero cs create (pop stack) t g h
            | enter ↦ λ e.
                let (g, h) = entered create c stack t f k e in
                walk-Ends zero cs create (stack ++ c ∷ []) t g h
            | make ↦ λ e.
                let (g, h) = made_there c stack t f k in
                walk-Ends zero cs create (stack ++ c ∷ []) (made c stack t) g h
            | follow target ↦ λ e. tt
            | stop ↦ λ e. move-stop create c stack t e
          ]
      refl
walk-Ends (suc hops) (c ∷ cs) create stack t f k =
    elim (move create c stack t)
        as (λ m.
          (move create c stack t ≡ m)
          → Ends create (elim m [
            | stay ↦ walk (suc hops) cs create stack t
            | up ↦ walk (suc hops) cs create (pop stack) t
            | enter ↦ walk (suc hops) cs create (stack ++ c ∷ []) t
            | make ↦ walk (suc hops) cs create (stack ++ c ∷ []) (made c stack t)
            | follow target ↦
                walk hops (link_parts target ++ cs) create (start_of_link target stack) t
            | stop ↦ missing
          ])) [
            | stay ↦ λ e. walk-Ends (suc hops) cs create stack t f k
            | up ↦ λ e.
                let (g, h) = children_at-pop stack t f k in
                walk-Ends (suc hops) cs create (pop stack) t g h
            | enter ↦ λ e.
                let (g, h) = entered create c stack t f k e in
                walk-Ends (suc hops) cs create (stack ++ c ∷ []) t g h
            | make ↦ λ e.
                let (g, h) = made_there c stack t f k in
                walk-Ends (suc hops) cs create (stack ++ c ∷ []) (made c stack t) g h
            | follow target ↦ λ e.
                let (g, h) = start_there target stack t f k in
                walk-Ends hops (link_parts target ++ cs) create (start_of_link target stack) t g h
            | stop ↦ λ e. move-stop create c stack t e
          ]
      refl

-- Resolving a path, with symlinks and "..", never leaves the tree: it ends at a directory of the
-- tree, or reports a symlink loop, or, unless it creates what is missing, finds nothing.
pub resolve_dir-Ends :
    (comps : List Bytes) (create : Bool) (t : Forest) → Ends create (resolve_dir comps create t)
unfolding resolve_dir children_at
resolve_dir-Ends comps create t = walk-Ends 40 comps create [] t t refl

-- A directory of a tree before and after a change at one name, with its siblings as they were.
pub record Changed (comps : List Bytes) (create : Bool) (name : Bytes) (t u : Forest) : Type 0 where
  pub made : Forest
  pub stack : List Bytes
  pub before : Forest
  pub later : Forest
  pub leads : resolve_dir comps create t ≡ reached made stack
  pub there : children_at stack made ≡ some before
  pub here : children_at stack u ≡ some later
  pub siblings : (d : Bytes) → bytes_eq name d ≡ false → get_child d later ≡ get_child d before

-- What a change does at its own name and leaves elsewhere.
abbrev OnlyAt : Bytes → (Forest → Forest) → Type 0
OnlyAt name h =
    (f : Forest) (d : Bytes) → bytes_eq name d ≡ false → get_child d (h f) ≡ get_child d f

change-Changed :
    (comps : List Bytes) (create : Bool) (name : Bytes) (h : Forest → Forest) (t m : Forest)
    (stack : List Bytes) (f : Forest)
    → OnlyAt name h
    → resolve_dir comps create t ≡ reached m stack
    → children_at stack m ≡ some f
    → (c : Changed comps create name t (change_at stack h m)) × (c.later ≡ h c.before)
change-Changed comps create name h t m stack f only leads there = (
  record {
    made = m;
    stack = stack;
    before = f;
    later = h f;
    leads = leads;
    there = there;
    here = children_at-change_at stack h m f there;
    siblings = only f;
  },
  refl,
)

in_parent-Changed :
    (p : Bytes) (h : Bytes → Forest → Forest) (t : Forest)
    → OnlyAt (path_base p) (h (path_base p))
    → (in_parent p h t).1 ≡ none
    → (c : Changed (split_path (split_parent p).0) true (path_base p) t (in_parent p h t).0)
      × (c.later ≡ h (path_base p) c.before)
unfolding in_parent split_parent Ends
in_parent-Changed p h t only =
    let comps = split_path (split_parent p).0 in
    elim (resolve_dir comps true t)
        as (λ w.
          (resolve_dir comps true t ≡ w)
          → Ends true w
          → (elim w as (λ _. Done) [
            | reached u stack ↦ (change_at stack (h (path_base p)) u, none)
            | missing ↦ (t, none)
            | looped u ↦ (u, some loop)
          ]).1
            ≡ none
          → (c : Changed comps true (path_base p) t
              (elim w as (λ _. Done) [
                | reached u stack ↦ (change_at stack (h (path_base p)) u, none)
                | missing ↦ (t, none)
                | looped u ↦ (u, some loop)
              ]).0)
            × (c.later ≡ h (path_base p) c.before)) [
              | reached u stack ↦ λ e (f, k) d.
                  change-Changed comps true (path_base p) (h (path_base p)) t u stack f only e k
              | missing ↦ λ e k d. absurd (cc k)
              | looped u ↦ λ e k d. absurd (cc d)
            ]
      refl (resolve_dir-Ends comps true t)

place-OnlyAt : (a : Attr) (name : Bytes) → OnlyAt name (place a name)
place-OnlyAt a name f d n =
    (get_child-set_child name d a (kept_children (is_dir a) (get_child name f)) f).1 n

put-in_parent :
    (e : Entry) (a : Attr) (t : Forest)
    → is_empty e.path ≡ false
    → attr_of e ≡ some a
    → put e t ≡ in_parent e.path (place a) t
unfolding put
put-in_parent e a t n k = rw (n, k) refl

-- A put that reports no error places a node with the attributes of the entry under the last
-- component of the path, in the directory that the rest of the path leads to. A directory over a
-- directory keeps the children, and the other entries of that directory stay as they were.
pub put-Changed :
    (e : Entry) (a : Attr) (t : Forest)
    → is_empty e.path ≡ false
    → attr_of e ≡ some a
    → (put e t).1 ≡ none
    → (c : Changed (split_path (split_parent e.path).0) true (path_base e.path) t (put e t).0)
      × (get_child (path_base e.path) c.later
          ≡ some (a, kept_children (is_dir a) (get_child (path_base e.path) c.before)))
put-Changed e a t n k =
    subst
      (λ (r : Done).
        r.1 ≡ none
        → (c : Changed (split_path (split_parent e.path).0) true (path_base e.path) t r.0)
          × (get_child (path_base e.path) c.later
              ≡ some (a, kept_children (is_dir a) (get_child (path_base e.path) c.before))))
      (sym (put-in_parent e a t n k))
      (λ d.
        let (c, same) =
          in_parent-Changed e.path (place a) t (place-OnlyAt a (path_base e.path)) d in
        (
          c,
          ap (get_child (path_base e.path)) same
              ∙ (get_child-set_child (path_base e.path) (path_base e.path) a
                    (kept_children (is_dir a) (get_child (path_base e.path) c.before)) c.before).0
                  refl,
        ))

in_directory-Changed :
    (p name : Bytes) (h : Forest → Forest) (t : Forest)
    → OnlyAt name h
    → (in_directory p h t).1 ≡ none
    → ((in_directory p h t).0 ≡ t)
      ⊎ ((c : Changed (split_path p) false name t (in_directory p h t).0) × (c.later ≡ h c.before))
unfolding in_directory Ends
in_directory-Changed p name h t only =
    let comps = split_path p in
    elim (resolve_dir comps false t)
        as (λ w.
          (resolve_dir comps false t ≡ w)
          → Ends false w
          → (elim w as (λ _. Done) [
            | reached u stack ↦ (change_at stack h u, none)
            | missing ↦ (t, none)
            | looped u ↦ (u, some loop)
          ]).1
            ≡ none
          → ((elim w as (λ _. Done) [
            | reached u stack ↦ (change_at stack h u, none)
            | missing ↦ (t, none)
            | looped u ↦ (u, some loop)
          ]).0
              ≡ t)
            ⊎ ((c : Changed comps false name t
                  (elim w as (λ _. Done) [
                    | reached u stack ↦ (change_at stack h u, none)
                    | missing ↦ (t, none)
                    | looped u ↦ (u, some loop)
                  ]).0)
                × (c.later ≡ h c.before))) [
                  | reached u stack ↦
                      λ e (f, k) d. inr (change-Changed comps false name h t u stack f only e k)
                  | missing ↦ λ e k d. inl refl
                  | looped u ↦ λ e k d. absurd (cc d)
                ]
      refl (resolve_dir-Ends comps false t)

whiteout-in_directory :
    (e : Entry) (t : Forest)
    → is_empty e.path ≡ false
    → whiteout_entry e t
      ≡ in_directory (split_parent e.path).0 (remove_child (split_parent e.path).1) t
unfolding whiteout_entry
whiteout-in_directory e t n = rw n refl

-- A whiteout that reports no error leaves nothing under the last component of its path, in the
-- directory that the rest of the path leads to, and the other entries of that directory as they
-- were. If there is no such directory it leaves the tree as it was.
pub whiteout_entry-Changed :
    (e : Entry) (t : Forest)
    → is_empty e.path ≡ false
    → (whiteout_entry e t).1 ≡ none
    → ((whiteout_entry e t).0 ≡ t)
      ⊎ ((c : Changed
            (split_path (split_parent e.path).0)
            false
            (path_base e.path)
            t
            (whiteout_entry e t).0)
          × (get_child (path_base e.path) c.later ≡ none))
unfolding split_parent
whiteout_entry-Changed e t n =
    let name = path_base e.path in
    subst
      (λ (r : Done).
        r.1 ≡ none
        → (r.0 ≡ t)
          ⊎ ((c : Changed (split_path (split_parent e.path).0) false name t r.0) × (get_child name
                  c.later
                ≡ none)))
      (sym (whiteout-in_directory e t n))
      (λ d.
        elim (in_directory-Changed (split_parent e.path).0 name (remove_child name) t
          (λ f b m. (get_child-remove_child name b f).1 m) d) [
            | inl same ↦ inl same
            | inr (c, same) ↦
                inr
                  (c, ap (get_child name) same ∙ (get_child-remove_child name name c.before).0 refl)
          ])
