-- ===== src/Store/Reader.antt =====
-- store/read.go: the reader of a file. A loop that ends only when the tree of objects does recurs on
-- fuel; `none` means that the fuel ran out.
pub mod Content
use oci_amber.Prelude.{
  ℕ, zero, suc, ◌-◌, Bool, true, false, Option, none, some, List, [], ◌∷◌, leb, ◌==◌, length, take,
  drop, if◌then◌else◌,
}
use oci_amber.Prelude.Int.{ℤ, pos, negsuc}
use oci_amber.Prelude.Text.{Bytes}
use oci_amber.Oci.Digest.{is_empty}
use oci_amber.Store.{
  Key, KeyType, blob_key, file_node, dir_leaf, dir_node, xattr_set, other_key, Keys,
}

-- The error that a reader keeps: io.EOF, or another.
pub data Stop : Type 0 where
  eof failed : Stop

-- The deepest level stands first in `stack`.
pub record Reader : Type 0 where
  pub stack : List (List Key)
  pub cur : Bytes
  pub stop : Option Stop

abbrev pub new_reader : Key → Reader
new_reader k = record { stack = (k ∷ []) ∷ []; cur = []; stop = none }

-- The next key in content order, and the levels that are left.
unfoldable pub next : List (List Key) → Option (Key × List (List Key))
next [] = none
next ([] ∷ rest) = next rest
next ((k ∷ ks) ∷ rest) = some (k, ks ∷ rest)

-- What is left to pass over behind a fetched object: a chunk holds the new position.
abbrev pub left_in : KeyType → ℕ → ℕ
left_in blob_key n = 0
left_in _ n = n

-- What Skip answers to an error met before: io.EOF is none.
abbrev pub skip_stopped : Stop → Bool
skip_stopped eof = true
skip_stopped failed = false

-- `get` fetches an object, and `decode` is fstree.DecodeFileNode.
module _ (keys : Keys) (get : Key → Option Bytes) (decode : Bytes → Option (List Key)) where
  unfoldable pub descend : Key → Reader → Reader × Bool
  descend k r = elim (get k) [
    | none ↦ (r, false)
    | some raw ↦ elim (decode raw) [
      | none ↦ (r, false)
      | some children ↦ (record r { stack = children ∷ r.stack }, true)
    ]
  ]

  -- A chunk, of which the first `n` bytes are passed over.
  unfoldable pub fetch_chunk : ℕ → Key → Reader → Reader × Bool
  fetch_chunk n k r = elim (get k) [
    | none ↦ (r, false)
    | some d ↦ if length d == keys.size k then (record r { cur = drop n d }, true) else (r, false)
  ]

  -- The switch on the type of a key, and whether it did without an error.
  unfoldable pub fetch_typed : KeyType → ℕ → Key → Reader → Reader × Bool
  unfolding descend fetch_chunk
  fetch_typed blob_key n k r = fetch_chunk n k r
  fetch_typed file_node n k r = descend k r
  fetch_typed dir_leaf n k r = (r, false)
  fetch_typed dir_node n k r = (r, false)
  fetch_typed xattr_set n k r = (r, false)
  fetch_typed other_key n k r = (r, false)

  unfoldable pub fetch : ℕ → Key → Reader → Reader × Bool
  unfolding fetch_typed
  fetch n k r = fetch_typed (keys.typ k) n k r

  -- (*Reader).fill
  unfoldable pub fill : ℕ → Reader → Option (Reader × Option Stop)
  unfolding next fetch
  fill zero r = none
  fill (suc f) r = elim (is_empty r.cur) [
    | false ↦ some (r, none)
    | true ↦ elim (next r.stack) [
      | none ↦ some (record r { stack = [] }, some eof)
      | some (k, st) ↦
          let (r', done) = fetch 0 k (record r { stack = st }) in
          elim done [ false ↦ some (r', some failed) | true ↦ fill f r' ]
    ]
  ]

  abbrev pub read_filled : ℕ → Reader → Option Stop → Reader × Bytes × Option Stop
  read_filled n r none = (record r { cur = drop n r.cur }, take n r.cur, none)
  read_filled n r (some e) = (record r { stop = some e }, [], some e)

  -- (*Reader).Read into `n` bytes.
  unfoldable pub read : ℕ → ℕ → Reader → Option (Reader × Bytes × Option Stop)
  unfolding fill
  read f n r = elim r.stop [
    | some e ↦ some (r, [], some e)
    | none ↦
        if n == 0
        then some (r, [], none)
        else elim (fill f r) [ none ↦ none | some (r', e) ↦ some (read_filled n r' e) ]
  ]

  -- The loop of Skip, and whether it returned no error. Only a chunk that reaches past the new
  -- position is fetched.
  unfoldable pub skip_keys : ℕ → ℕ → Reader → Option (Reader × Bool)
  unfolding next fetch
  skip_keys zero n r = none
  skip_keys (suc f) n r = elim (n == 0) [
    | true ↦ some (r, true)
    | false ↦ elim (next r.stack) [
      | none ↦ some (record r { stack = [] }, true)
      | some (k, st) ↦ elim (leb (keys.size k) n) [
        | true ↦ skip_keys f (n - keys.size k) (record r { stack = st })
        | false ↦
            let (r', done) = fetch n k (record r { stack = st }) in
            elim done [
              | false ↦ some (record r' { stop = some failed }, false)
              | true ↦ skip_keys f (left_in (keys.typ k) n) r'
            ]
      ]
    ]
  ]

  -- Skip of a count that is not negative.
  skip_by : ℕ → ℕ → Reader → Option (Reader × Bool)
  unfolding skip_keys
  skip_by f n r = elim r.stop [
    | some e ↦ some (r, skip_stopped e)
    | none ↦
        if leb n (length r.cur)
        then some (record r { cur = drop n r.cur }, true)
        else skip_keys f (n - length r.cur) (record r { cur = [] })
  ]

  -- (*Reader).Skip
  unfoldable pub skip : ℕ → ℤ → Reader → Option (Reader × Bool)
  unfolding skip_by
  skip f (negsuc n) r = some (r, false)
  skip f (pos n) r = skip_by f n r
