-- ===== src/Store/Refs.antt =====
-- store/refs.go: references, over a refstore. What the refstore keeps under a name is the record that
-- reference.Encode makes. The lock of a name, which has no effect on the result, is left out.
pub mod Laws
use oci_amber.Prelude.{ℕ, Bool, true, false, not, Option, none, some, List, [], ◌∷◌, if◌then◌else◌}
use oci_amber.Prelude.Maybe.{◌>>=◌}
use oci_amber.Prelude.Text.{Bytes, has_prefix}
use oci_amber.Store.{Key}

pub record Ref : Type 0 where
  pub name : Bytes
  pub key : Key
  pub created_at : ℕ

-- The refstore, on a state of its own, with the checks and the records of the amber core.
pub record RefStore (S : Type 0) : Type 0 where
  pub get : Bytes → S → Option Bytes
  pub put : Bytes → Bytes → S → S
  pub delete : Bytes → S → S
  pub all : S → List (Bytes × Bytes)
  pub valid_name : Bytes → Bool
  pub encode : Bytes → Key → ℕ → Option Bytes
  pub decode : Bytes → Option (Bytes × ℕ)
  pub parse : Bytes → Option Key

-- What fails on the way, and the time. `complete` is false when PrepareRef finds an object missing.
pub record RefIo : Type 0 where
  pub get_fails : Bytes → Bool
  pub put_fails : Bytes → Bool
  pub delete_fails : Bytes → Bool
  pub list_fails : Bool
  pub complete : Key → Bool
  pub now : ℕ

pub data Resolved : Type 0 where
  found : Key → Resolved
  not_found : Resolved
  unresolved : Resolved

pub data Deleted : Type 0 where
  deleted missing not_deleted : Deleted

-- A decoded record, or the error of decodeRef.
abbrev pub resolved : Option Ref → Resolved
resolved none = unresolved
resolved (some r) = found r.key

module _ {S : Type 0} (refs : RefStore S) where
  unfoldable pub decode_ref : Bytes → Bytes → Option Ref
  decode_ref name raw = do
    (k, at) ← refs.decode raw
    key ← refs.parse k
    some record { name = name; key = key; created_at = at }

  -- The record is written when every object below the root is there.
  publish_record : RefIo → Bytes → Key → S → Option Bytes → S × Bool
  publish_record io name root s none = (s, false)
  publish_record io name root s (some raw) =
      if not (io.complete root)
      then (s, false)
      else if io.put_fails name
      then (s, false)
      else (refs.put name raw s, true)

  unfoldable pub publish : RefIo → Bytes → Key → S → S × Bool
  unfolding publish_record
  publish io name root s =
      if not (refs.valid_name name)
      then (s, false)
      else publish_record io name root s (refs.encode name root io.now)

  unfoldable pub resolve : RefIo → Bytes → S → Resolved
  unfolding decode_ref
  resolve io name s =
      if io.get_fails name
      then unresolved
      else elim (refs.get name s) [ none ↦ not_found | some raw ↦ resolved (decode_ref name raw) ]

  unfoldable pub delete_ref : RefIo → Bytes → S → S × Deleted
  delete_ref io name s =
      if io.delete_fails name
      then (s, not_deleted)
      else elim (refs.get name s) [ none ↦ (s, missing) | some raw ↦ (refs.delete name s, deleted) ]

  -- The loop of ListRefs.
  unfoldable pub list_records : Bytes → List (Bytes × Bytes) → Option (List Ref)
  unfolding decode_ref
  list_records prefix [] = some []
  list_records prefix ((name, raw) ∷ rest) =
      if has_prefix name prefix
      then (do ref ← decode_ref name raw; others ← list_records prefix rest; some (ref ∷ others))
      else list_records prefix rest

  unfoldable pub list_refs : RefIo → Bytes → S → Option (List Ref)
  unfolding list_records
  list_refs io prefix s = if io.list_fails then none else list_records prefix (refs.all s)
