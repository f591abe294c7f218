-- ===== src/KeyedMutex/Examples.antt =====
-- Runs of the keyed mutex with two goroutines and one key.
use oci_amber.Prelude.{ℕ, ◌≡◌, ◌⊎◌, refl, some, false, true, get_elem?, [], ◌∷◌}
use oci_amber.Prelude.Text.{Bytes}
use oci_amber.Prelude.Assoc.{lookup, insert, without}
use oci_amber.KeyedMutex.{
  KeyEntry, waiting, holding, Mutex, lock_begin, lock_acquire, unlock_entry, unlock_end, len, Step,
  begins, acquires, Reach, here, next, new_mutex, idle_threads,
}
use oci_amber.KeyedMutex.Exclusion.{holding_unique, waiting-free_or_held}

abbrev key_a : Bytes
key_a = b'a' ∷ []

abbrev fresh_entry : KeyEntry
fresh_entry = record { refs = 1; locked = false }

abbrev locked_entry : KeyEntry
locked_entry = record { refs = 1; locked = true }

abbrev first_waits : Mutex
first_waits = lock_begin 0 key_a (new_mutex 2)

abbrev first_holds : Mutex
first_holds = lock_acquire 0 key_a 0 fresh_entry first_waits

abbrev second_waits : Mutex
second_waits = lock_begin 1 key_a first_holds

first_holds-Reach : Reach (new_mutex 2) first_holds
unfolding new_mutex idle_threads lock_begin lock_acquire lookup insert without
first_holds-Reach =
    next (next here (begins 0 key_a refl)) (acquires 0 key_a 0 fresh_entry refl refl refl)

second_waits-Reach : Reach (new_mutex 2) second_waits
unfolding new_mutex idle_threads lock_begin lock_acquire lookup insert without
second_waits-Reach = next first_holds-Reach (begins 1 key_a refl)

first_in : get_elem? first_holds.threads 0 ≡ some (holding key_a 0)
unfolding new_mutex idle_threads lock_begin lock_acquire lookup insert without
first_in = refl

second_in : get_elem? second_waits.threads 1 ≡ some (waiting key_a 0)
unfolding new_mutex idle_threads lock_begin lock_acquire lookup insert without
second_in = refl

key_in : lookup key_a second_waits.locks ≡ some 0
unfolding new_mutex idle_threads lock_begin lock_acquire lookup insert without
key_in = refl

-- The last unlock drops the key.
last_unlock :
    len (unlock_end 0 key_a 0 fresh_entry (unlock_entry 0 key_a 0 locked_entry first_holds)) ≡ 0
unfolding new_mutex idle_threads lock_begin lock_acquire unlock_entry unlock_end lookup insert
    without
last_unlock = refl

abbrev thread_a : ℕ
thread_a = 0

holding_unique_example : thread_a ≡ thread_a
holding_unique_example =
    holding_unique 2 first_holds thread_a thread_a key_a 0 0 first_holds-Reach first_in first_in

waiting-free_or_held_example :
    ((e : KeyEntry) × Step second_waits (lock_acquire 1 key_a 0 e second_waits))
    ⊎ ((j : ℕ) × (get_elem? second_waits.threads j ≡ some (holding key_a 0)))
waiting-free_or_held_example =
    waiting-free_or_held 2 second_waits 1 key_a 0 second_waits-Reach second_in
