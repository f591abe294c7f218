-- ===== src/Blob/Store.antt =====
-- blob/store.go: the published blobs and the uploads of late. The store below keeps a blob root under
-- the reference of its digest; a root is its meta.json and the keys of its content. What happens on
-- the way of a Put, in the request, in zrecipe and in the store below, is an argument.
pub mod Put
pub mod Recent
use oci_amber.Prelude.{
  ℕ, ◌-◌, Bool, true, false, not, Option, none, some, List, [], ◌∷◌, ltb, if◌then◌else◌,
}
use oci_amber.Prelude.Text.{Bytes, bytes_eq}
use oci_amber.Prelude.Assoc.{Assoc, lookup, insert, without}
use oci_amber.Oci.Digest.{Digest}
use oci_amber.Blob.Analyze.{Format, Reason, Probe, Decision, as_prism, as_raw, analyze, refuse_raw}

-- The accounting of store.Stats.
pub record Stats : Type 0 where
  pub logical_bytes : ℕ
  pub deduped_bytes : ℕ
  pub disk_bytes : ℕ

-- `raw_reason` is `none` for a prism.
pub record Meta : Type 0 where
  pub digest : Digest
  pub size : ℕ
  pub format : Format
  pub raw_reason : Option Reason
  pub diff_id : Digest
  pub uncompressed_size : ℕ
  pub entries : ℕ
  pub engine : Bytes
  pub engine_version : Bytes
  pub stats : Stats

-- The keys of a root: recipe.bin, recipe.json, comp.json and blobs/ of a prism, or "raw".
pub data Content : Type 0 where
  prism_content : Bytes → Bytes → Bytes → Bytes → Content
  raw_content : Bytes → Content

pub record Root : Type 0 where
  pub meta : Meta
  pub content : Content

pub record Store : Type 0 where
  pub published : Assoc Root
  pub recent : Assoc (Stats × ℕ)
  pub allow_raw : Bool
  pub recent_ttl : ℕ
  pub read_only : Bool

pub data Opened : Type 0 where
  opened : Meta → Opened
  not_found : Opened
  unreadable : Opened

-- `read_ok` is false when the reference or meta.json cannot be read.
unfoldable pub open_blob : Bool → Digest → Store → Opened
open_blob read_ok d b = if not read_ok then unreadable else elim (lookup d b.published) [
  | none ↦ not_found
  | some r ↦ if bytes_eq r.meta.digest d then opened r.meta else unreadable
]

-- purgeRecentLocked
unfoldable pub purge_recent : ℕ → ℕ → Assoc (Stats × ℕ) → Assoc (Stats × ℕ)
purge_recent now ttl [] = []
purge_recent now ttl ((d, (s, at)) ∷ rest) =
    let others = purge_recent now ttl rest in
    if ltb ttl (now - at) then others else (d, (s, at)) ∷ others

unfoldable pub record_recent : ℕ → Digest → Stats → Store → Store
record_recent now d s b = record b {
  recent = insert d (s, now) (purge_recent now b.recent_ttl b.recent);
}

unfoldable pub take_recent : ℕ → Digest → Store → Store × Option Stats
take_recent now d b =
    let left = purge_recent now b.recent_ttl b.recent in
    elim (lookup d left) [
      | none ↦ (record b { recent = left }, none)
      | some (s, at) ↦ (record b { recent = without d left }, some s)
    ]

abbrev pub full_dedup : ℕ → Stats
full_dedup size = record { logical_bytes = size; deduped_bytes = size; disk_bytes = 0 }

unfoldable pub dedup_hit : ℕ → Meta → Store → Store × Meta
dedup_hit now m b =
    (record_recent now m.digest (full_dedup m.size) b, record m { stats = full_dedup m.size })

-- finalizePrism: the parts of a prism, a fallback with its reason, or a failure of the upload.
pub record PrismParts : Type 0 where
  pub diff_id : Digest
  pub uncompressed_size : ℕ
  pub entries : ℕ
  pub engine : Bytes
  pub engine_version : Bytes
  pub stats : Stats
  pub content : Bytes × Bytes × Bytes × Bytes

pub data Prism : Type 0 where
  prism_done : PrismParts → Prism
  fell_back : Reason → Prism
  prism_failed : Prism

-- What one Put meets on its way: `raw` is the ingest of the verbatim bytes, and `root_ok` and
-- `publish_ok` are the writes of the root and of its reference.
pub record PutIo : Type 0 where
  pub over : Bool
  pub read_ok : Bool
  pub slot : Bool
  pub probe : Probe
  pub prism : Prism
  pub raw : Option (Bytes × Stats)
  pub root_ok : Bool
  pub publish_ok : Bool
  pub now : ℕ

pub data PutResult : Type 0 where
  put_done : Meta → PutResult
  put_refused : Reason → PutResult
  put_failed : PutResult

abbrev pub empty_stats : Stats
empty_stats = record { logical_bytes = 0; deduped_bytes = 0; disk_bytes = 0 }

abbrev pub new_meta : Digest → ℕ → Format → Meta
new_meta d size f = record {
  digest = d;
  size = size;
  format = f;
  raw_reason = none;
  diff_id = [];
  uncompressed_size = 0;
  entries = 0;
  engine = [];
  engine_version = [];
  stats = empty_stats;
}

-- Step 9: publish and record.
publish_root : PutIo → Digest → Root → Store → Store × PutResult
publish_root io d r b = if not io.publish_ok then (b, put_failed) else (
  record_recent io.now d r.meta.stats (record b { published = insert d r b.published }),
  put_done r.meta,
)

-- writeRoot and what follows it.
write_root : PutIo → Digest → Root → Store → Store × PutResult
unfolding publish_root
write_root io d r b = if not io.root_ok then (b, put_failed) else publish_root io d r b

finalize_raw : PutIo → Meta → Reason → Store → Store × PutResult
unfolding write_root
finalize_raw io m reason b = elim io.raw [
  | none ↦ (b, put_failed)
  | some (k, s) ↦
      write_root io m.digest
        (record {
          meta = record m { raw_reason = some reason; stats = s };
          content = raw_content k;
        })
        b
]

-- refuseRaw, and the raw path behind it.
keep_raw : PutIo → Meta → Reason → Store → Store × PutResult
unfolding finalize_raw
keep_raw io m reason b =
    if refuse_raw b.allow_raw reason then (b, put_refused reason) else finalize_raw io m reason b

abbrev pub prism_root : Meta → PrismParts → Root
prism_root m p = record {
  meta = record m {
    diff_id = p.diff_id;
    uncompressed_size = p.uncompressed_size;
    entries = p.entries;
    engine = p.engine;
    engine_version = p.engine_version;
    stats = p.stats;
  };
  content = prism_content p.content.0 p.content.1 p.content.2 p.content.3;
}

keep_prism : PutIo → Meta → Prism → Store → Store × PutResult
unfolding write_root keep_raw
keep_prism io m (prism_done p) b = write_root io m.digest (prism_root m p) b
keep_prism io m (fell_back reason) b = keep_raw io m reason b
keep_prism io m prism_failed b = (b, put_failed)

finalize_blob : PutIo → Digest → ℕ → Option Decision → Store → Store × PutResult
unfolding keep_prism keep_raw
finalize_blob io d size none b = (b, put_failed)
finalize_blob io d size (some (as_prism f)) b = keep_prism io (new_meta d size f) io.prism b
finalize_blob io d size (some (as_raw reason f)) b = keep_raw io (new_meta d size f) reason b

put_opened : PutIo → Digest → ℕ → Store → Opened → Store × PutResult
unfolding finalize_blob
put_opened io d size b (opened m) = ((dedup_hit io.now m b).0, put_done (dedup_hit io.now m b).1)
put_opened io d size b unreadable = (b, put_failed)
put_opened io d size b not_found =
    if not io.slot then (b, put_failed) else finalize_blob io d size (analyze io.probe) b

-- (*Store).Put of a spool with this digest and size, without the removal of the spool.
unfoldable pub put_blob : PutIo → Digest → ℕ → Store → Store × PutResult
unfolding put_opened
put_blob io d size b =
    if b.read_only
    then (b, put_failed)
    else if io.over
    then (b, put_failed)
    else put_opened io d size b (open_blob io.read_ok d b)

unfoldable pub reuse_blob : Bool → ℕ → Digest → Store → Store × Opened
reuse_blob read_ok now d b = elim (open_blob read_ok d b) [
  | opened m ↦ ((dedup_hit now m b).0, opened (dedup_hit now m b).1)
  | not_found ↦ (b, not_found)
  | unreadable ↦ (b, unreadable)
]

abbrev pub exists_blob : Digest → Store → Bool
exists_blob d b = elim (lookup d b.published) [ none ↦ false | some r ↦ true ]

-- The store, and whether the blob was there.
unfoldable pub delete_blob : Digest → Store → Store × Bool
delete_blob d b = if b.read_only then (b, false) else elim (lookup d b.published) [
  | none ↦ (b, false)
  | some r ↦ (record b { published = without d b.published }, true)
]
