-- ===== src/Store.antt =====
-- store/: the amber store that keeps every object and reference. key.Key is an array of bytes; what the
-- amber core knows of a key, its type, the length of what it names and the form of its bytes, is an
-- argument.
pub mod Reader
pub mod Refs
pub mod Dir
mod Examples
use oci_amber.Prelude.{ℕ, Option}
use oci_amber.Prelude.Text.{Bytes}

abbrev pub Key : Type 0
Key = Bytes

-- The types of keys that the program tells apart.
pub data KeyType : Type 0 where
  blob_key file_node dir_leaf dir_node xattr_set other_key : KeyType

pub record Keys : Type 0 where
  pub typ : Key → KeyType
  pub size : Key → ℕ
  pub parse : Bytes → Option Key
