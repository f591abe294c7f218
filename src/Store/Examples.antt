-- ===== src/Store/Examples.antt =====
-- A file of two chunks, read and skipped, and a directory that gets an entry.
use oci_amber.Prelude.{◌≡◌, refl, true, false, some, [], ◌∷◌, arith}
use oci_amber.Prelude.Int.{pos}
use oci_amber.Prelude.Text.{codes, contains_byte}
use oci_amber.Store.Reader.{new_reader, skip}
use oci_amber.Store.Reader.Content.{Left, new_reader-Left}
use oci_amber.Store.Reader.Content.Refines.{Reads, Skips, read-Reads, skip-Skips}
use oci_amber.Store.Dir.{
  Dir, new_dir, add_entry, content_entry, mode_dir, valid_name, valid_payload, valid_typed,
  valid_xattrs, file_type,
}
use oci_amber.Store.Dir.Ordered.{IsWellFormed, new_dir-IsWellFormed, add_entry-IsWellFormed}
use oci_amber.Samples.{sample_keys, sample_get, sample_decode, file_a, text_a, file_a-File}

file_a-Left : Left sample_keys sample_get sample_decode text_a 6 (new_reader file_a)
file_a-Left =
    new_reader-Left sample_keys sample_get sample_decode file_a text_a 4 6 file_a-File (omega arith)

read-Reads_example : Reads sample_keys sample_get sample_decode 6 2 (new_reader file_a) text_a 6
read-Reads_example =
    read-Reads sample_keys sample_get sample_decode 6 2 (new_reader file_a) text_a (omega arith)
      file_a-Left

skip-Skips_example :
    Skips sample_keys sample_get sample_decode
      (skip sample_keys sample_get sample_decode 6 (pos 1) (new_reader file_a))
      (codes "bc")
      6
skip-Skips_example =
    skip-Skips sample_keys sample_get sample_decode 6 1 (new_reader file_a) text_a file_a-Left

abbrev one_entry : Dir
one_entry = record {
  entries = content_entry sample_keys (codes "etc") mode_dir (4 ∷ []) ∷ [];
  last = codes "etc";
  count = 1;
  done = false;
}

one_entry-added :
    add_entry sample_keys
      (λ e. true)
      (content_entry sample_keys (codes "etc") mode_dir (4 ∷ []))
      new_dir
    ≡ some one_entry
unfolding add_entry valid_name valid_payload valid_typed valid_xattrs file_type contains_byte
one_entry-added = refl

add_entry-IsWellFormed_example : IsWellFormed sample_keys one_entry
add_entry-IsWellFormed_example =
    add_entry-IsWellFormed sample_keys (λ e. true)
      (content_entry sample_keys (codes "etc") mode_dir (4 ∷ [])) new_dir one_entry
      (new_dir-IsWellFormed sample_keys) one_entry-added
