-- ===== src/Proxy/Locks/Exclusion.antt =====
-- What the locks of proxylab_code/cache.c keep apart.
use csapp_lab_code.Base.{
  total, le-total, ℕ, zero, suc, ◌+◌, ◌≤◌, ◌<◌, ◌≡◌, ◌≢◌, refl, ap, some, List, [], ◌∷◌, get_elem?,
  ◌==◌, inl, inr, Bool, true, false, Bool-cases, arith,
}
use csapp_lab_code.Proxy.Locks.{Place, scanning, refreshing, storing, Threads, Reached}
use csapp_lab_code.Proxy.Locks.Invariant.{at_reader, at_queue, at_writer, Reached-IsLocked}

-- Whether a thread uses the lists of the cache there.
abbrev pub in_cache : Place → Bool
in_cache scanning = true
in_cache refreshing = true
in_cache storing = true
in_cache _ = false

two-total :
    (w : Place → ℕ) (ps : List Place) (i j : ℕ) (p q : Place)
    → get_elem? ps i ≡ some p
    → get_elem? ps j ≡ some q
    → i ≢ j
    → w p + w q ≤ total w ps
two-total w [] i j p q e f ne = absurd (cc)
two-total w (x ∷ xs) zero zero p q e f ne = absurd (ne refl)
two-total w (x ∷ xs) zero (suc j) p q e f ne =
    let here : x ≡ p = cc in rw here (omega (arith, le-total w xs j q f))
two-total w (x ∷ xs) (suc i) zero p q e f ne =
    let here : x ≡ q = cc in rw here (omega (arith, le-total w xs i p e))
two-total w (x ∷ xs) (suc i) (suc j) p q e f ne =
    omega (arith, two-total w xs i j p q e f (λ h. ne (ap suc h)))

module _ {n : ℕ} {s : Threads} (r : Reached n s) (i j : ℕ) where
  no_reader :
      {p : Place}
      → get_elem? s.places i ≡ some storing
      → get_elem? s.places j ≡ some p
      → 0 < at_reader p
      → i ≡ j
  no_reader {p} e f h =
      let v = Reached-IsLocked r in
      let writes = le-total at_writer s.places i storing e in
      let reads = le-total at_reader s.places j p f in absurd (ground (arith, writes, reads))

  one_writer : get_elem? s.places i ≡ some storing → get_elem? s.places j ≡ some storing → i ≡ j
  one_writer e f = elim (Bool-cases (i == j)) [
    | inl same ↦ ground (arith)
    | inr other ↦
        let v = Reached-IsLocked r in
        let both = two-total at_writer s.places i j storing storing e f (ground (arith)) in
        absurd (ground (arith, both))
  ]

  -- In every state that threads reach between the semaphores, while a thread stores an object in
  -- the cache no other thread is in the index, in the queue or storing.
  pub writer_excludes :
      (p : Place)
      → get_elem? s.places i ≡ some storing
      → get_elem? s.places j ≡ some p
      → in_cache p ≡ true
      → i ≡ j
  writer_excludes scanning e f h = no_reader e f (omega arith)
  writer_excludes refreshing e f h = no_reader e f (omega arith)
  writer_excludes storing e f h = one_writer e f
  writer_excludes _ e f h = absurd (ground arith)

  -- No two threads move objects in the queue at the same time.
  pub refreshing-excludes :
      get_elem? s.places i ≡ some refreshing → get_elem? s.places j ≡ some refreshing → i ≡ j
  refreshing-excludes e f = elim (Bool-cases (i == j)) [
    | inl same ↦ ground (arith)
    | inr other ↦
        let v = Reached-IsLocked r in
        let both = two-total at_queue s.places i j refreshing refreshing e f (ground (arith)) in
        absurd (ground (arith, both))
  ]
