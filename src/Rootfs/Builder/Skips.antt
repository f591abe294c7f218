-- ===== src/Rootfs/Builder/Skips.antt =====
-- The report of the entries that were left out, and the order in which a layer is applied.
use oci_amber.Prelude.{
  All, ◌⊎◌, inl, inr, ◌≡◌, refl, sym, ap, ◌∙◌, Bool, true, false, none, some, List, [], ◌∷◌, ◌++◌,
  arith, length, length-append, min,
}
use oci_amber.Prelude.Text.{Bytes}
use oci_amber.Oci.Digest.{Digest}
use oci_amber.Rootfs.Entry.{Entry, Header, Kind, hardlink, whiteout, opaque, skip}
use oci_amber.Rootfs.Tree.{Done, put, link, whiteout_entry, opaque_entry}
use oci_amber.Rootfs.Builder.{
  Builder, record_skip, apply_whiteout, apply_entry, each, apply, apply_layers, entries,
  max_skipped,
}

-- The list holds the first skipped entries, as many as fit.
unfoldable pub IsCounted : Builder → Type 0
IsCounted b = length b.skipped ≡ min b.skipped_count max_skipped

record_skip-IsCounted :
    (layer : Digest) (e : Entry) (d : Done) (b : Builder)
    → IsCounted b
    → IsCounted (record_skip layer e d b)
unfolding IsCounted record_skip
record_skip-IsCounted layer e (t, none) b k = k
record_skip-IsCounted layer e (t, some r) b k =
    ground
      (arith, length-append b.skipped (record { layer = layer; path = e.path; reason = r } ∷ []))

apply_whiteout-IsCounted :
    (layer : Digest) (e : Entry) (b : Builder) → IsCounted b → IsCounted (apply_whiteout layer e b)
unfolding apply_whiteout
apply_whiteout-IsCounted layer e b k =
    elim e.kind
      as (λ x. IsCounted (elim x as (λ _. Builder) [
        | whiteout ↦ record_skip layer e (whiteout_entry e b.tree) b
        | opaque ↦ record_skip layer e (opaque_entry e b.tree) b
        | _ ↦ b
      ])) [
        | whiteout ↦ record_skip-IsCounted layer e (whiteout_entry e b.tree) b k
        | opaque ↦ record_skip-IsCounted layer e (opaque_entry e b.tree) b k
        | _ ↦ k
      ]

apply_entry-IsCounted :
    (layer : Digest) (e : Entry) (b : Builder) → IsCounted b → IsCounted (apply_entry layer e b)
unfolding apply_entry
apply_entry-IsCounted layer e b k =
    elim e.kind
      as (λ x. IsCounted (elim x as (λ _. Builder) [
        | whiteout ↦ b
        | opaque ↦ b
        | skip ↦ record_skip layer e (b.tree, e.reason) b
        | hardlink ↦ record_skip layer e (link e b.tree) b
        | _ ↦ record_skip layer e (put e b.tree) b
      ])) [
        | whiteout ↦ k
        | opaque ↦ k
        | skip ↦ record_skip-IsCounted layer e (b.tree, e.reason) b k
        | hardlink ↦ record_skip-IsCounted layer e (link e b.tree) b k
        | _ ↦ record_skip-IsCounted layer e (put e b.tree) b k
      ]

-- What every step keeps, all of them keep.
pub each-keeps :
    (P : Builder → Type 0) (Q : Entry → Type 0) (f : Entry → Builder → Builder) (es : List Entry)
    (b : Builder)
    → ((e : Entry) (c : Builder) → Q e → P c → P (f e c))
    → All Q es
    → P b
    → P (each f es b)
unfolding each
each-keeps P Q f [] b k a p = p
each-keeps P Q f (e ∷ es) b k (q, a) p = each-keeps P Q f es (f e b) k a (k e b q p)

All-unit : (es : List Entry) → All (λ e. Unit {0}) es
All-unit [] = tt
All-unit (e ∷ es) = (tt, All-unit es)

apply-IsCounted :
    (layer : Digest) (es : List Entry) (b : Builder) → IsCounted b → IsCounted (apply layer es b)
unfolding apply
apply-IsCounted layer es b k =
    each-keeps IsCounted (λ e. Unit {0}) (apply_entry layer) es (each (apply_whiteout layer) es b)
      (λ e c u. apply_entry-IsCounted layer e c) (All-unit es)
      (each-keeps IsCounted (λ e. Unit {0}) (apply_whiteout layer) es b
        (λ e c u. apply_whiteout-IsCounted layer e c) (All-unit es) k)

-- Whatever layers are applied, the report lists as many entries as were left out, up to the first
-- hundred.
pub apply_layers-IsCounted :
    (layers : List (Digest × List (Header × Bytes))) (b : Builder)
    → IsCounted b
    → IsCounted (apply_layers layers b)
unfolding apply_layers
apply_layers-IsCounted [] b k = k
apply_layers-IsCounted ((layer, headers) ∷ rest) b k =
    apply_layers-IsCounted rest (apply layer (entries headers) b)
      (apply-IsCounted layer (entries headers) b k)

each-append :
    (f : Entry → Builder → Builder) (xs ys : List Entry) (b : Builder)
    → each f (xs ++ ys) b ≡ each f ys (each f xs b)
unfolding each
each-append f [] ys b = refl
each-append f (x ∷ xs) ys b = each-append f xs ys (f x b)

abbrev pub is_whiteout : Kind → Bool
is_whiteout whiteout = true
is_whiteout opaque = true
is_whiteout _ = false

apply_entry-whiteout :
    (layer : Digest) (w : Entry) (b : Builder)
    → is_whiteout w.kind ≡ true
    → apply_entry layer w b ≡ b
unfolding apply_entry
apply_entry-whiteout layer w b h = ground arith

apply_whiteout-other :
    (layer : Digest) (e : Entry) (b : Builder)
    → is_whiteout e.kind ≡ false
    → apply_whiteout layer e b ≡ b
unfolding apply_whiteout
apply_whiteout-other layer e b h = ground arith

pair-swap :
    (f : Entry → Builder → Builder) (e w : Entry) (b : Builder)
    → ((c : Builder) → f e c ≡ c) ⊎ ((c : Builder) → f w c ≡ c)
    → each f (e ∷ w ∷ []) b ≡ each f (w ∷ e ∷ []) b
unfolding each
pair-swap f e w b (inl h) = ap (f w) (h b) ∙ sym (h (f w b))
pair-swap f e w b (inr h) = h (f e b) ∙ ap (f e) (sym (h b))

each-swap :
    (f : Entry → Builder → Builder) (xs ys : List Entry) (e w : Entry) (b : Builder)
    → ((c : Builder) → f e c ≡ c) ⊎ ((c : Builder) → f w c ≡ c)
    → each f (xs ++ e ∷ w ∷ ys) b ≡ each f (xs ++ w ∷ e ∷ ys) b
each-swap f xs ys e w b h =
    each-append f xs (e ∷ w ∷ ys) b
    ∙ each-append f (e ∷ w ∷ []) ys (each f xs b)
    ∙ ap (each f ys) (pair-swap f e w (each f xs b) h)
    ∙ sym (each-append f xs (w ∷ e ∷ ys) b ∙ each-append f (w ∷ e ∷ []) ys (each f xs b))

-- A whiteout never touches its own layer: it does not matter whether it stands before or after
-- another entry of the layer.
pub apply-swap :
    (layer : Digest) (xs ys : List Entry) (e w : Entry) (b : Builder)
    → is_whiteout e.kind ≡ false
    → is_whiteout w.kind ≡ true
    → apply layer (xs ++ e ∷ w ∷ ys) b ≡ apply layer (xs ++ w ∷ e ∷ ys) b
unfolding apply
apply-swap layer xs ys e w b he hw =
    each-swap (apply_entry layer) xs ys e w (each (apply_whiteout layer) (xs ++ e ∷ w ∷ ys) b)
      (inr (λ c. apply_entry-whiteout layer w c hw))
    ∙ ap (each (apply_entry layer) (xs ++ w ∷ e ∷ ys)) (
        each-swap (apply_whiteout layer) xs ys e w b (inl (λ c. apply_whiteout-other layer e c he)))
