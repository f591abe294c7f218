-- ===== src/Blob/Store/Recent.antt =====
-- The uploads of late: what the manifest store reads back after a push.
use oci_amber.Prelude.{ℕ, ◌≡◌, ◌-◌, ◌≤◌, refl, none, some, [], ◌∷◌, arith}
use oci_amber.Prelude.Text.Laws.{bytes_eq_iff}
use oci_amber.Prelude.Assoc.{Assoc, lookup, insert, without, lookup-without}
use oci_amber.Oci.Digest.{Digest}
use oci_amber.Blob.Store.{Stats, Store, purge_recent, record_recent, take_recent}

purge_recent-absent :
    (now ttl : ℕ) (d : Digest) (m : Assoc (Stats × ℕ))
    → lookup d m ≡ none
    → lookup d (purge_recent now ttl m) ≡ none
unfolding purge_recent lookup
purge_recent-absent now ttl d [] h = refl
purge_recent-absent now ttl d ((k, (s, at)) ∷ m) h = ground (arith, purge_recent-absent now ttl d m)

purge_recent-first :
    (later ttl now : ℕ) (d : Digest) (s : Stats) (m : Assoc (Stats × ℕ))
    → later - now ≤ ttl
    → lookup d (purge_recent later ttl (insert d (s, now) m)) ≡ some (s, now)
unfolding purge_recent insert lookup
purge_recent-first later ttl now d s m h = ground (arith, bytes_eq_iff d d)

-- The stats of an upload can be taken once, while they are not older than the time to live.
pub take_recent-record_recent :
    (now later last : ℕ) (d : Digest) (s : Stats) (b : Store)
    → later - now ≤ b.recent_ttl
    → ((take_recent later d (record_recent now d s b)).1 ≡ some s)
      × ((take_recent last d (take_recent later d (record_recent now d s b)).0).1 ≡ none)
unfolding take_recent record_recent
take_recent-record_recent now later last d s b h =
    let left =
      purge_recent later b.recent_ttl
        (insert d (s, now) (purge_recent now b.recent_ttl b.recent)) in
    let here =
      purge_recent-first later b.recent_ttl now d s (purge_recent now b.recent_ttl b.recent) h in
    let gone : lookup d (without d left) ≡ none =
      ground (arith, lookup-without d d left, bytes_eq_iff d d) in
    let after = purge_recent-absent last b.recent_ttl d (without d left) gone in
    (ground (arith, here), ground (arith, here, after))
