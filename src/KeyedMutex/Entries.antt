-- ===== src/KeyedMutex/Entries.antt =====
-- keyedmutex/keyedmutex.go: the first and the last step of a thread, which bring in and drop an entry.
use oci_amber.Prelude.{
  ℕ, zero, suc, ◌+◌, ◌-◌, ◌<◌, ◌≡◌, ◌≢◌, ◌⊎◌, refl, sym, ap, ◌∙◌, subst, true, false, inl, inr,
  Bool-cases, none, some, [], ◌∷◌, ◌++◌, ◌==◌, arith, length, get_elem?, get_elem?-update,
  get_elem?-lt, get_elem?-append_lt, get_elem?-append_end, update, if◌then◌else◌,
}
use oci_amber.Prelude.Maybe.{Option-cases, some_injective}
use oci_amber.Prelude.Text.{Bytes, bytes_eq}
use oci_amber.Prelude.Text.Laws.{bytes_eq_iff}
use oci_amber.Prelude.Assoc.{Assoc, lookup, insert, without, lookup-insert, lookup-without}
use oci_amber.KeyedMutex.{
  KeyEntry, Thread, outside, waiting, leaving, Mutex, lock_begin, unlock_end,
}
use oci_amber.KeyedMutex.Count.{
  refers, holds, total, total-update, total-le, total-some, total-holds_le,
}
use oci_amber.KeyedMutex.Sound.{
  user, flag, IsSound, refers-user, user-refers, thread-cases, joined, joined-IsSound,
}

fresh_entry : KeyEntry
fresh_entry = record { refs = 1; locked = false }

-- A key that is not registered gets an entry at the end.
module _ (m : Mutex) (i : ℕ) (k : Bytes) (v : IsSound m) (gs : get_elem? m.threads i ≡ some outside)
    (lk : lookup k m.locks ≡ none) where
  abbrev at_end : ℕ
  at_end = length m.entries

  begun : Mutex
  unfolding fresh_entry
  begun = record m {
    entries = m.entries ++ fresh_entry ∷ [];
    locks = insert k at_end m.locks;
    threads = update m.threads i (waiting k at_end);
  }

  unused : total (refers at_end) m.threads ≡ 0
  unused =
      elim (total (refers at_end) m.threads)
          as (λ n. total (refers at_end) m.threads ≡ n → total (refers at_end) m.threads ≡ 0) [
            | zero ↦ λ e. e
            | suc n ↦ λ e.
                let (j, t, g, r) = total-some (refers at_end) m.threads (omega arith) in
                let (k', u) = refers-user at_end t r in
                let (a, ga, c) = v.entry k' at_end (v.registered j t k' at_end g u) in
                absurd (omega (arith, get_elem?-lt m.entries at_end ga))
          ]
        refl

  begun_key :
      (j : Bytes) (q : ℕ)
      → lookup j (insert k at_end m.locks) ≡ some q
      → ((j ≡ k) × (q ≡ at_end)) ⊎ (lookup j m.locks ≡ some q)
  begun_key j q l = elim (Bool-cases (bytes_eq k j)) [
    | inl t ↦
        inl (ground (arith, bytes_eq_iff k j), ground (arith, lookup-insert k j at_end m.locks))
    | inr f ↦ inr (ground (arith, lookup-insert k j at_end m.locks))
  ]

  old_lt : (j : Bytes) (q : ℕ) → lookup j m.locks ≡ some q → q < at_end
  old_lt j q l = let (a, ga, c) = v.entry j q l in get_elem?-lt m.entries q ga

  begun-IsSound : IsSound begun
  unfolding begun fresh_entry
  begun-IsSound = record {
    registered = λ j u k' q g uu. elim (thread-cases m.threads i j (waiting k at_end) u g) [
      | inl (x, y) ↦ ground (
        arith,
        lookup-insert k k' at_end m.locks,
        bytes_eq_iff k k',
        some_injective (ap user (sym y) ∙ uu),
      )
      | inr g' ↦
          ground (
            arith,
            lookup-insert k k' at_end m.locks,
            bytes_eq_iff k k',
            v.registered j u k' q g' uu,
          )
    ];
    entry = λ j q l. elim (begun_key j q l) [
      | inl (x, y) ↦ (
        fresh_entry,
        subst (λ r. get_elem? (m.entries ++ fresh_entry ∷ []) r ≡ some fresh_entry) (sym y)
            (get_elem?-append_end m.entries fresh_entry),
        record {
          refs = only_new q y;
          used = λ n. absurd (omega (arith, only_new q y));
          held = none_held q y;
        },
      )
      | inr l' ↦
          let (a, ga, c) = v.entry j q l' in
          (
            a,
            get_elem?-append_lt m.entries (fresh_entry ∷ []) q (old_lt j q l') ∙ ga,
            record {
              refs = ground (arith, more q, c.refs, old_lt j q l');
              used = λ n. c.used (omega (arith, more q));
              held = omega (arith, same q, c.held);
            },
          )
    ];
    distinct = λ j k' q l n. elim (begun_key j q l) [
      | inl (x, y) ↦ elim (begun_key k' q n) [
        | inl (z, w) ↦ x ∙ sym z
        | inr n' ↦ absurd (omega (arith, old_lt k' q n'))
      ]
      | inr l' ↦ elim (begun_key k' q n) [
        | inl (z, w) ↦ absurd (omega (arith, old_lt j q l'))
        | inr n' ↦ v.distinct j k' q l' n'
      ]
    ];
  }
    where
      more :
          (q : ℕ)
          → total (refers q) (update m.threads i (waiting k at_end))
            ≡ total (refers q) m.threads + (if at_end == q then 1 else 0)
      more q = omega (arith, total-update (refers q) m.threads i outside (waiting k at_end) gs)

      same :
          (q : ℕ)
          → total (holds q) (update m.threads i (waiting k at_end)) ≡ total (holds q) m.threads
      same q = omega (arith, total-update (holds q) m.threads i outside (waiting k at_end) gs)

      only_new : (q : ℕ) → q ≡ at_end → 1 ≡ total (refers q) (update m.threads i (waiting k at_end))
      only_new q y =
          subst (λ r. 1 ≡ total (refers r) (update m.threads i (waiting k at_end))) (sym y)
            (ground (arith, more at_end, unused))

      none_held : (q : ℕ) → q ≡ at_end → total (holds q) (update m.threads i (waiting k at_end)) ≡ 0
      none_held q y =
          subst (λ r. total (holds r) (update m.threads i (waiting k at_end)) ≡ 0) (sym y)
            (omega (arith, same at_end, unused, total-holds_le at_end m.threads))

pub begins-IsSound :
    (m : Mutex) (i : ℕ) (k : Bytes)
    → IsSound m
    → get_elem? m.threads i ≡ some outside
    → IsSound (lock_begin i k m)
unfolding lock_begin joined begun fresh_entry
begins-IsSound m i k v gs = elim (Option-cases (lookup k m.locks)) [
  | inl n ↦ rw (lock_begin, n) (begun-IsSound m i k v gs n)
  | inr (p, l) ↦
      let (e, ge, c) = v.entry k p l in rw (lock_begin, l, ge) (joined-IsSound m i p k e v gs l ge)
]

-- The last step of a thread.
module _ (m : Mutex) (i p : ℕ) (k : Bytes) (e : KeyEntry) (v : IsSound m)
    (gs : get_elem? m.threads i ≡ some (leaving k p)) (ge : get_elem? m.entries p ≡ some e) where
  abbrev ended_locks : Assoc ℕ
  ended_locks = if e.refs - 1 == 0 then without k m.locks else m.locks

  at_key : lookup k m.locks ≡ some p
  at_key = v.registered i (leaving k p) k p gs refl

  counted : e.refs ≡ total (refers p) m.threads
  counted =
      let (a, ga, c) = v.entry k p at_key in
      omega (arith, c.refs, ap (λ b. b.refs) (some_injective (sym ga ∙ ge)))

  less :
      (q : ℕ)
      → total (refers q) (update m.threads i outside) + (if p == q then 1 else 0)
        ≡ total (refers q) m.threads
  less q = omega (arith, total-update (refers q) m.threads i (leaving k p) outside gs)

  same_held : (q : ℕ) → total (holds q) (update m.threads i outside) ≡ total (holds q) m.threads
  same_held q = omega (arith, total-update (holds q) m.threads i (leaving k p) outside gs)

  dropped :
      (j : Bytes) (q : ℕ)
      → lookup j ended_locks ≡ some q
      → (e.refs - 1 == 0) ≡ true
      → (k ≢ j) × (lookup j m.locks ≡ some q)
  dropped j q l t = elim (Bool-cases (bytes_eq k j)) [
    | inl b ↦ absurd (ground (arith, lookup-without k j m.locks))
    | inr b ↦ (ground (arith, bytes_eq_iff k j), ground (arith, lookup-without k j m.locks))
  ]

  at_ended : (q : ℕ) → p ≡ q → e.refs - 1 ≡ total (refers q) (update m.threads i outside)
  at_ended q x =
      subst (λ r. e.refs - 1 ≡ total (refers r) (update m.threads i outside)) x
        (ground (arith, less p, counted))

  kept :
      (j : Bytes) (q : ℕ)
      → lookup j ended_locks ≡ some q
      → (lookup j m.locks ≡ some q) × (p ≡ q → e.refs - 1 ≢ 0)
  kept j q l = elim (Bool-cases (e.refs - 1 == 0)) [
    | inl t ↦
        let (n, l') = dropped j q l t in
        (
          l',
          λ x.
              absurd
                (n (v.distinct k j p at_key (subst (λ r. lookup j m.locks ≡ some r) (sym x) l'))),
        )
    | inr f ↦ (ground arith, λ x. ground arith)
  ]

  key_eq : (j : Bytes) → bytes_eq k j ≡ true → k ≡ j
  key_eq j b = ground (arith, bytes_eq_iff k j)

  still :
      (j : ℕ) (u : Thread) (k' : Bytes) (q : ℕ)
      → get_elem? (update m.threads i outside) j ≡ some u
      → user u ≡ some (k', q)
      → lookup k' m.locks ≡ some q
      → lookup k' ended_locks ≡ some q
  still j u k' q g uu l = elim (Bool-cases (e.refs - 1 == 0)) [
    | inl t ↦ elim (Bool-cases (bytes_eq k k')) [
      | inl b ↦
          let qp =
            some_injective (sym l ∙ ap (λ r. lookup r m.locks) (sym (key_eq k' b)) ∙ at_key) in
          absurd (
            ground (
              arith,
              user-refers q p k' u uu,
              total-le (refers p) (update m.threads i outside) j u g,
              less p,
              counted,
            ))
      | inr b ↦ ground (arith, lookup-without k k' m.locks)
    ]
    | inr f ↦ ground arith
  ]

  pub ends-IsSound : IsSound (unlock_end i k p e m)
  unfolding unlock_end
  ends-IsSound = record {
    registered = λ j u k' q g uu. elim (thread-cases m.threads i j outside u g) [
      | inl (x, y) ↦ cc (uu, ap user y)
      | inr g' ↦ still j u k' q g uu (v.registered j u k' q g' uu)
    ];
    entry = λ j q l.
        let (l', d) = kept j q l in
        let (a, ga, c) = v.entry j q l' in
        elim (get_elem?-update m.entries p q (record e { refs = e.refs - 1 })) [
          | inl (x, y, z) ↦ (
            record e { refs = e.refs - 1 },
            z,
            record {
              refs = at_ended q x;
              used = λ n. d x (omega (arith, at_ended q x));
              held = omega (
                arith,
                same_held q,
                c.held,
                ap (λ b. flag b.locked)
                    (some_injective (sym ga ∙ ap (get_elem? m.entries) (sym x) ∙ ge)),
              );
            },
          )
          | inr (inl (x, y)) ↦ (
            a,
            x ∙ ga,
            record {
              refs = ground (arith, less q, c.refs);
              used = λ n. c.used (ground (arith, less q));
              held = omega (arith, same_held q, c.held);
            },
          )
          | inr (inr (x, y)) ↦ absurd (omega (arith, get_elem?-lt m.entries p ge))
        ];
    distinct = λ j k' q l n.
        let (l', d) = kept j q l in let (n', d') = kept k' q n in v.distinct j k' q l' n';
  }
