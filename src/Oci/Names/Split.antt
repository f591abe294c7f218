-- ===== src/Oci/Names/Split.antt =====
-- Splitting a reference undoes how it is spelled.
use oci_amber.Prelude.{
  ℕ, ◌+◌, ◌≤◌, ◌≡◌, inl, inr, some, [], ◌∷◌, ◌++◌, arith, length, drop, take-append, length-drop,
}
use oci_amber.Prelude.Text.{Bytes, index_byte, last_index_byte, Lacks}
use oci_amber.Prelude.Text.Laws.{
  index_byte-append, index_byte-Lacks, last_index_byte-skip, last_index_byte-cases, drop-append_le,
  Lacks-drop, Lacks-append, drop_past,
}
use oci_amber.Oci.Names.{after_slash, split_tag, split_at, split_reference}

-- Where the search for a colon starts.
start_of : Bytes → ℕ
start_of s = after_slash (last_index_byte s b'/')

start_of-le : (s : Bytes) → start_of s ≤ length s
unfolding start_of
start_of-le s = elim (last_index_byte-cases s b'/') [
  | inl e ↦ rw e (omega arith)
  | inr (i, e, h) ↦ rw e h
]

start_of-append : (repo s : Bytes) → Lacks b'/' s → start_of (repo ++ s) ≡ start_of repo
unfolding start_of
start_of-append repo s h = rw (last_index_byte-skip repo s b'/' h)

split_reference-none :
    (s : Bytes)
    → Lacks b'@' s
    → split_reference s ≡ split_tag s (start_of s) (index_byte (drop (start_of s) s) b':')
unfolding split_reference start_of
split_reference-none s h = rw (index_byte-Lacks s b'@' h, split_at)

end_of_repo : (repo : Bytes) → start_of repo + length (drop (start_of repo) repo) ≡ length repo
end_of_repo repo = omega (arith, length-drop (start_of repo) repo, start_of-le repo)

split_tag-append :
    (a tag : Bytes) (k j : ℕ) → k + j ≡ length a → split_tag (a ++ b':' ∷ tag) k (some j) ≡ (a, tag)
unfolding split_tag
split_tag-append a tag k j e = rw (e, take-append, drop_past a tag b':')

-- "repo:tag" splits into its parts, for any repository without ':' and '@' and any tag without
-- '/' and '@'.
pub split_reference-tag :
    (repo tag : Bytes)
    → Lacks b':' repo
    → Lacks b'@' repo
    → Lacks b'/' tag
    → Lacks b'@' tag
    → split_reference (repo ++ b':' ∷ tag) ≡ (repo, tag)
split_reference-tag repo tag rc ra ts ta =
    rw (split_reference-none _ (Lacks-append b'@' repo (b':' ∷ tag) ra (omega arith, ta))) (
      rw
        (
          start_of-append repo (b':' ∷ tag) (omega arith, ts),
          drop-append_le (start_of repo) repo (b':' ∷ tag) (start_of-le repo),
          index_byte-append (drop (start_of repo) repo) tag b':'
              (Lacks-drop (start_of repo) b':' repo rc),
        )
        (split_tag-append repo tag _ _ (end_of_repo repo)))

-- A bare repository has no reference.
pub split_reference-bare :
    (repo : Bytes) → Lacks b':' repo → Lacks b'@' repo → split_reference repo ≡ (repo, [])
unfolding split_tag
split_reference-bare repo rc ra = rw (split_reference-none repo ra) (
    rw
      (index_byte-Lacks (drop (start_of repo) repo) b':' (Lacks-drop (start_of repo) b':' repo rc)))
