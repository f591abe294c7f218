-- ===== src/KeyedMutex/Sound.antt =====
-- keyedmutex/keyedmutex.go: the references of an entry are counted, step by step.
use oci_amber.Prelude.{
  ℕ, suc, ◌+◌, ◌≡◌, ◌≢◌, ◌⊎◌, refl, sym, ap, ◌∙◌, subst, Bool, true, false, inl, inr, Bool-cases,
  Option, none, some, List, ◌==◌, arith, get_elem?, get_elem?-update, get_elem?-lt, update,
  if◌then◌else◌,
}
use oci_amber.Prelude.Maybe.{some_injective}
use oci_amber.Prelude.Text.{Bytes}
use oci_amber.Prelude.Assoc.{lookup}
use oci_amber.KeyedMutex.{
  KeyEntry, Thread, outside, waiting, holding, leaving, Mutex, lock_acquire, unlock_entry,
}
use oci_amber.KeyedMutex.Count.{refers, holds, total, total-update, total-le}

-- The key and the entry of a thread in a call of Lock or of its unlock function.
abbrev pub user : Thread → Option (Bytes × ℕ)
user outside = none
user (waiting k p) = some (k, p)
user (holding k p) = some (k, p)
user (leaving k p) = some (k, p)

abbrev pub flag : Bool → ℕ
flag true = 1
flag false = 0

-- The references of an entry are the threads that refer to it, one at least, of which one holds it
-- if it is locked, and none otherwise.
pub record Counts (ts : List Thread) (p : ℕ) (e : KeyEntry) : Type 0 where
  pub refs : e.refs ≡ total (refers p) ts
  pub used : total (refers p) ts ≢ 0
  pub held : total (holds p) ts ≡ flag e.locked

pub record IsSound (m : Mutex) : Type 0 where
  pub registered :
      (i : ℕ) (t : Thread) (k : Bytes) (p : ℕ)
      → get_elem? m.threads i ≡ some t
      → user t ≡ some (k, p)
      → lookup k m.locks ≡ some p
  pub entry :
      (k : Bytes) (p : ℕ)
      → lookup k m.locks ≡ some p
      → (e : KeyEntry) × (get_elem? m.entries p ≡ some e) × Counts m.threads p e
  pub distinct :
      (j k : Bytes) (p : ℕ) → lookup j m.locks ≡ some p → lookup k m.locks ≡ some p → j ≡ k

pub refers-user : (p : ℕ) (t : Thread) → refers p t ≢ 0 → (k : Bytes) × (user t ≡ some (k, p))
refers-user p outside n = absurd (n refl)
refers-user p (waiting k q) n = (k, ground arith)
refers-user p (holding k q) n = (k, ground arith)
refers-user p (leaving k q) n = (k, ground arith)

pub holds-user : (p : ℕ) (t : Thread) → holds p t ≢ 0 → (k : Bytes) × (t ≡ holding k p)
holds-user p outside n = absurd (n refl)
holds-user p (waiting k q) n = absurd (n refl)
holds-user p (holding k q) n = (k, ground arith)
holds-user p (leaving k q) n = absurd (n refl)

pub user-refers :
    (p q : ℕ) (k : Bytes) (t : Thread)
    → user t ≡ some (k, p)
    → refers q t ≡ (if p == q then 1 else 0)
user-refers p q k outside e = cc
user-refers p q k (waiting j r) e = ground (arith, some_injective e)
user-refers p q k (holding j r) e = ground (arith, some_injective e)
user-refers p q k (leaving j r) e = ground (arith, some_injective e)

-- A thread of a list with one thread changed.
pub thread-cases :
    (ts : List Thread) (i j : ℕ) (t u : Thread)
    → get_elem? (update ts i t) j ≡ some u
    → ((i ≡ j) × (u ≡ t)) ⊎ (get_elem? ts j ≡ some u)
thread-cases ts i j t u h = elim (get_elem?-update ts i j t) [
  | inl (e, l, g) ↦ inl (e, cc (g, h))
  | inr (inl (g, n)) ↦ inr (cc (g, h))
  | inr (inr (g, l)) ↦ inr (cc (g, h))
]

-- A step of one thread at the entry that it refers to already.
module _ (m : Mutex) (i p : ℕ) (k : Bytes) (s t : Thread) (e f : KeyEntry) where
  moved : Mutex
  moved = record m { entries = update m.entries p f; threads = update m.threads i t }

  moved-IsSound :
      IsSound m
      → get_elem? m.threads i ≡ some s
      → get_elem? m.entries p ≡ some e
      → user s ≡ some (k, p)
      → user t ≡ some (k, p)
      → f.refs ≡ e.refs
      → flag f.locked + holds p s ≡ flag e.locked + holds p t
      → ((q : ℕ) → p ≢ q → holds q s ≡ holds q t)
      → IsSound moved
  unfolding moved
  moved-IsSound v gs ge us ut fr fl others = record {
    registered = λ j u k' q g uu. elim (thread-cases m.threads i j t u g) [
      | inl (x, y) ↦
          ground (arith, v.registered i s k p gs us, some_injective (sym ut ∙ ap user (sym y) ∙ uu))
      | inr g' ↦ v.registered j u k' q g' uu
    ];
    entry = λ j q l.
        let (a, ga, c) = v.entry j q l in
        let same = refers-moved q in
        elim (get_elem?-update m.entries p q f) [
          | inl (x, y, z) ↦ (
            f,
            z,
            record {
              refs =
                  let ae = entry_eq j q a x ga in
                  omega (arith, same, c.refs, fr, ap (λ b. b.refs) ae);
              used = λ n. c.used (omega (arith, same));
              held =
                  let ae = entry_eq j q a x ga in
                  omega (
                    arith,
                    total-update (holds q) m.threads i s t gs,
                    c.held,
                    ap (λ b. flag b.locked) ae,
                    subst (λ r. flag f.locked + holds r s ≡ flag e.locked + holds r t) x fl,
                  );
            },
          )
          | inr (inl (x, y)) ↦ (
            a,
            x ∙ ga,
            record {
              refs = omega (arith, same, c.refs);
              used = λ n. c.used (omega (arith, same));
              held = omega (arith, total-update (holds q) m.threads i s t gs, c.held, others q y);
            },
          )
          | inr (inr (x, y)) ↦ absurd (omega (arith, get_elem?-lt m.entries p ge))
        ];
    distinct = v.distinct;
  }
    where
      refers-moved : (q : ℕ) → total (refers q) (update m.threads i t) ≡ total (refers q) m.threads
      refers-moved q = omega (
        arith,
        total-update (refers q) m.threads i s t gs,
        user-refers p q k s us,
        user-refers p q k t ut,
      )

      entry_eq : (j : Bytes) (q : ℕ) (a : KeyEntry) → p ≡ q → get_elem? m.entries q ≡ some a → a ≡ e
      entry_eq j q a x ga = some_injective (sym ga ∙ ap (get_elem? m.entries) (sym x) ∙ ge)

pub acquires-IsSound :
    (m : Mutex) (i : ℕ) (k : Bytes) (p : ℕ) (e : KeyEntry)
    → IsSound m
    → get_elem? m.threads i ≡ some (waiting k p)
    → get_elem? m.entries p ≡ some e
    → e.locked ≡ false
    → IsSound (lock_acquire i k p e m)
unfolding lock_acquire moved
acquires-IsSound m i k p e v gs ge l =
    moved-IsSound m i p k (waiting k p) (holding k p) e (record e { locked = true }) v gs ge refl
      refl refl (ground arith) (λ q n. ground arith)

pub unlocks-IsSound :
    (m : Mutex) (i : ℕ) (k : Bytes) (p : ℕ) (e : KeyEntry)
    → IsSound m
    → get_elem? m.threads i ≡ some (holding k p)
    → get_elem? m.entries p ≡ some e
    → IsSound (unlock_entry i k p e m)
unfolding unlock_entry moved
unlocks-IsSound m i k p e v gs ge =
    moved-IsSound m i p k (holding k p) (leaving k p) e (record e { locked = false }) v gs ge refl
      refl refl (ground (arith, locked)) (λ q n. ground arith)
  where
    locked : e.locked ≡ true
    locked =
        let (a, ga, c) = v.entry k p (v.registered i (holding k p) k p gs refl) in
        let ae = some_injective (sym ga ∙ ge) in
        elim (Bool-cases e.locked) [
          | inl t ↦ t
          | inr f ↦ absurd (
              ground (
                arith,
                total-le (holds p) m.threads i (holding k p) gs,
                c.held,
                ap (λ b. flag b.locked) ae,
              ))
        ]

-- A step that brings in a thread at an entry registered already.
module _ (m : Mutex) (i p : ℕ) (k : Bytes) (e : KeyEntry) where
  unfoldable pub joined : Mutex
  joined = record m {
    entries = update m.entries p (record e { refs = suc e.refs });
    threads = update m.threads i (waiting k p);
  }

  pub joined-IsSound :
      IsSound m
      → get_elem? m.threads i ≡ some outside
      → lookup k m.locks ≡ some p
      → get_elem? m.entries p ≡ some e
      → IsSound joined
  unfolding joined
  joined-IsSound v gs lk ge = record {
    registered = λ j u k' q g uu. elim (thread-cases m.threads i j (waiting k p) u g) [
      | inl (x, y) ↦ ground (arith, lk, some_injective (ap user (sym y) ∙ uu))
      | inr g' ↦ v.registered j u k' q g' uu
    ];
    entry = λ j q l.
        let (a, ga, c) = v.entry j q l in
        elim (get_elem?-update m.entries p q (record e { refs = suc e.refs })) [
          | inl (x, y, z) ↦
              let ae = some_injective (sym ga ∙ ap (get_elem? m.entries) (sym x) ∙ ge) in
              (
                record e { refs = suc e.refs },
                z,
                record {
                  refs = ground (arith, more q, c.refs, ap (λ b. b.refs) ae);
                  used = λ n. c.used (omega (arith, more q));
                  held = omega (arith, same q, c.held, ap (λ b. flag b.locked) ae);
                },
              )
          | inr (inl (x, y)) ↦ (
            a,
            x ∙ ga,
            record {
              refs = ground (arith, more q, c.refs);
              used = λ n. c.used (omega (arith, more q));
              held = omega (arith, same q, c.held);
            },
          )
          | inr (inr (x, y)) ↦ absurd (omega (arith, get_elem?-lt m.entries p ge))
        ];
    distinct = v.distinct;
  }
    where
      more :
          (q : ℕ)
          → total (refers q) (update m.threads i (waiting k p))
            ≡ total (refers q) m.threads + (if p == q then 1 else 0)
      more q = omega (arith, total-update (refers q) m.threads i outside (waiting k p) gs)

      same :
          (q : ℕ) → total (holds q) (update m.threads i (waiting k p)) ≡ total (holds q) m.threads
      same q = omega (arith, total-update (holds q) m.threads i outside (waiting k p) gs)
