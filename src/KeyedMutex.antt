-- ===== src/KeyedMutex.antt =====
-- keyedmutex/keyedmutex.go: a mutex for each key. An *entry is a number in `entries`, which holds
-- the KeyEntry; each call of Lock is a thread that is outside of it, waits for e.mu, holds it, or
-- has unlocked it and is about to drop its reference. Each definition is one step that no other
-- goroutine comes between: a section under m.mu, or an operation on e.mu. A second call of the unlock
-- function panics before it touches anything, so it is no step.
pub mod Count
pub mod Sound
pub mod Entries
pub mod Exclusion
mod Examples
use oci_amber.Prelude.{
  ℕ, suc, ◌+◌, ◌-◌, ◌≡◌, Bool, true, false, Option, none, some, List, [], ◌∷◌, ◌++◌, ◌==◌, length,
  get_elem?, update, replicate, if◌then◌else◌,
}
use oci_amber.Prelude.Text.{Bytes}
use oci_amber.Prelude.Assoc.{Assoc, lookup, insert, without}

pub record KeyEntry : Type 0 where
  pub refs : ℕ
  pub locked : Bool

pub data Thread : Type 0 where
  outside : Thread
  waiting : Bytes → ℕ → Thread
  holding : Bytes → ℕ → Thread
  leaving : Bytes → ℕ → Thread

pub record Mutex : Type 0 where
  pub entries : List KeyEntry
  pub locks : Assoc ℕ
  pub threads : List Thread

abbrev pub set_thread : ℕ → Thread → Mutex → Mutex
set_thread i t m = record m { threads = update m.threads i t }

-- The section of Lock under m.mu.
unfoldable pub lock_begin : ℕ → Bytes → Mutex → Mutex
lock_begin i k m = elim (lookup k m.locks) [
  | none ↦ record m {
    entries = m.entries ++ record { refs = 1; locked = false } ∷ [];
    locks = insert k (length m.entries) m.locks;
    threads = update m.threads i (waiting k (length m.entries));
  }
  | some p ↦ elim (get_elem? m.entries p) [
    | none ↦ m
    | some e ↦ record m {
      entries = update m.entries p (record e { refs = suc e.refs });
      threads = update m.threads i (waiting k p);
    }
  ]
]

-- e.mu.Lock returns.
unfoldable pub lock_acquire : ℕ → Bytes → ℕ → KeyEntry → Mutex → Mutex
lock_acquire i k p e m = record m {
  entries = update m.entries p (record e { locked = true });
  threads = update m.threads i (holding k p);
}

-- e.mu.Unlock
unfoldable pub unlock_entry : ℕ → Bytes → ℕ → KeyEntry → Mutex → Mutex
unlock_entry i k p e m = record m {
  entries = update m.entries p (record e { locked = false });
  threads = update m.threads i (leaving k p);
}

-- The section of the unlock function under m.mu.
unfoldable pub unlock_end : ℕ → Bytes → ℕ → KeyEntry → Mutex → Mutex
unlock_end i k p e m = record m {
  entries = update m.entries p (record e { refs = e.refs - 1 });
  locks = if e.refs - 1 == 0 then without k m.locks else m.locks;
  threads = update m.threads i outside;
}

-- (*Mutex).Len
abbrev pub len : Mutex → ℕ
len m = length m.locks

-- One goroutine goes on by a step. e.mu.Lock returns only when the entry is not locked.
pub data Step (m : Mutex) : Mutex → Type 0 where
  begins : (i : ℕ) (k : Bytes) → get_elem? m.threads i ≡ some outside → Step m (lock_begin i k m)
  acquires :
      (i : ℕ) (k : Bytes) (p : ℕ) (e : KeyEntry)
      → get_elem? m.threads i ≡ some (waiting k p)
      → get_elem? m.entries p ≡ some e
      → e.locked ≡ false
      → Step m (lock_acquire i k p e m)
  unlocks :
      (i : ℕ) (k : Bytes) (p : ℕ) (e : KeyEntry)
      → get_elem? m.threads i ≡ some (holding k p)
      → get_elem? m.entries p ≡ some e
      → Step m (unlock_entry i k p e m)
  ends :
      (i : ℕ) (k : Bytes) (p : ℕ) (e : KeyEntry)
      → get_elem? m.threads i ≡ some (leaving k p)
      → get_elem? m.entries p ≡ some e
      → Step m (unlock_end i k p e m)

pub data Reach (m : Mutex) : Mutex → Type 0 where
  here : Reach m m
  next : {n o : Mutex} → Reach m n → Step n o → Reach m o

idle_threads : ℕ → List Thread
idle_threads n = replicate n outside

-- The zero value, and `n` goroutines.
unfoldable pub new_mutex : ℕ → Mutex
unfolding idle_threads
new_mutex n = record { entries = []; locks = []; threads = idle_threads n }
