-- ===== src/KeyedMutex/Exclusion.antt =====
-- keyedmutex/keyedmutex.go: mutual exclusion for each key, and no entry without a reference.
use oci_amber.Prelude.{
  ℕ, zero, suc, ◌<◌, ◌≡◌, ◌⊎◌, refl, sym, ap, ◌∙◌, Bool, true, false, inl, inr, Bool-cases, none,
  some, ◌==◌, arith, get_elem?,
}
use oci_amber.Prelude.Maybe.{some_injective}
use oci_amber.Prelude.Text.{Bytes}
use oci_amber.Prelude.Assoc.{lookup}
use oci_amber.KeyedMutex.{
  KeyEntry, Thread, waiting, holding, Mutex, lock_acquire, Step, begins, acquires, unlocks, ends,
  Reach, here, next, new_mutex, idle_threads,
}
use oci_amber.KeyedMutex.Count.{refers, holds, total-two, total-some}
use oci_amber.KeyedMutex.Sound.{
  user, flag, IsSound, refers-user, holds-user, acquires-IsSound, unlocks-IsSound,
}
use oci_amber.KeyedMutex.Entries.{begins-IsSound, ends-IsSound}

Step-IsSound : (m o : Mutex) → IsSound m → Step m o → IsSound o
Step-IsSound m o v (begins i k g) = begins-IsSound m i k v g
Step-IsSound m o v (acquires i k p e g ge l) = acquires-IsSound m i k p e v g ge l
Step-IsSound m o v (unlocks i k p e g ge) = unlocks-IsSound m i k p e v g ge
Step-IsSound m o v (ends i k p e g ge) = ends-IsSound m i p k e v g ge

idle_only : (n j : ℕ) (t : Thread) → get_elem? (idle_threads n) j ≡ some t → user t ≡ none
unfolding idle_threads
idle_only zero j t g = cc
idle_only (suc n) zero t g = ap user (some_injective (sym g))
idle_only (suc n) (suc j) t g = idle_only n j t g

new_mutex-IsSound : (n : ℕ) → IsSound (new_mutex n)
unfolding new_mutex idle_threads lookup
new_mutex-IsSound n = record {
  registered = λ i t k p g u. cc (idle_only n i t g);
  entry = λ k p l. absurd cc;
  distinct = λ j k p l m. absurd cc;
}

Reach-IsSound : (n : ℕ) (m : Mutex) → Reach (new_mutex n) m → IsSound m
Reach-IsSound n m here = new_mutex-IsSound n
Reach-IsSound n m (next r s) = Step-IsSound _ m (Reach-IsSound n _ r) s

flag_le : (b : Bool) → flag b < 2
flag_le true = omega arith
flag_le false = omega arith

-- In every state that a new mutex and `n` goroutines get to by any steps: two goroutines that hold
-- the lock of the same key are the same one.
pub holding_unique :
    (n : ℕ) (m : Mutex) (i j : ℕ) (k : Bytes) (p q : ℕ)
    → Reach (new_mutex n) m
    → get_elem? m.threads i ≡ some (holding k p)
    → get_elem? m.threads j ≡ some (holding k q)
    → i ≡ j
holding_unique n m i j k p q r gi gj =
    let v = Reach-IsSound n m r in
    let lp = v.registered i (holding k p) k p gi refl in
    let qp = some_injective (sym (v.registered j (holding k q) k q gj refl) ∙ lp) in
    let (e, ge, c) = v.entry k p lp in
    elim (Bool-cases (i == j)) [
      | inl t ↦ ground arith
      | inr f ↦ absurd (
          ground (
            arith,
            total-two (holds p) m.threads i j (holding k p) (holding k q) (ground arith) gi gj,
            c.held,
            flag_le e.locked,
          ))
    ]

-- In every state that a new mutex and `n` goroutines get to by any steps: when a goroutine waits for
-- the lock of a key, either its call of Lock can return, or another goroutine holds the key's lock.
pub waiting-free_or_held :
    (n : ℕ) (m : Mutex) (i : ℕ) (k : Bytes) (p : ℕ)
    → Reach (new_mutex n) m
    → get_elem? m.threads i ≡ some (waiting k p)
    → ((e : KeyEntry) × Step m (lock_acquire i k p e m))
      ⊎ ((j : ℕ) × (get_elem? m.threads j ≡ some (holding k p)))
waiting-free_or_held n m i k p r g =
    let v = Reach-IsSound n m r in
    let (e, ge, c) = v.entry k p (v.registered i (waiting k p) k p g refl) in
    elim (Bool-cases e.locked) [
      | inl t ↦
          let (j, u, gu, h) = total-some (holds p) m.threads (ground arith) in
          let (k', hu) = holds-user p u h in
          let same =
            v.distinct k' k p (v.registered j u k' p gu (ap user hu))
              (v.registered i (waiting k p) k p g refl) in
          inr (j, gu ∙ ap some hu ∙ ap (λ x. some (holding x p)) same)
      | inr f ↦ inl (e, acquires i k p e g ge f)
    ]

-- In every state that a new mutex and `n` goroutines get to by any steps: when a key has an entry,
-- some goroutine waits for the key's lock, holds it, or is about to drop its reference.
pub entry-used :
    (n : ℕ) (m : Mutex) (k : Bytes) (p : ℕ)
    → Reach (new_mutex n) m
    → lookup k m.locks ≡ some p
    → (i : ℕ) × (t : Thread) × (get_elem? m.threads i ≡ some t) × (user t ≡ some (k, p))
entry-used n m k p r l =
    let v = Reach-IsSound n m r in
    let (e, ge, c) = v.entry k p l in
    let (i, t, g, h) = total-some (refers p) m.threads c.used in
    let (k', u) = refers-user p t h in
    let same = v.distinct k' k p (v.registered i t k' p g u) l in
    (i, t, g, u ∙ ap (λ j. some (j, p)) same)
