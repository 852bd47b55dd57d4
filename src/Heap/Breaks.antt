-- ===== src/Heap/Breaks.antt =====
-- `sbrk` and the sizes that `memory_manager` of libraries/eosiolib/malloc.cpp asks it for.
use taurus_cdt.Prelude.{
  ℕ, ◌+◌, ◌-◌, ◌*◌, ◌%◌, ◌^◌, ◌<◌, ◌≤◌, ◌≡◌, ◌⊎◌, refl, inl, inr, Bool, not, ◌&&◌, ltb, leb,
  if◌then◌else◌, add32, arith, Bool-cases, ltb-false→le, leb→le, leb-false→lt,
}
use taurus_cdt.Heap.Manager.{
  Manager, page, minus_one, started, rounded, desired_pages, heap_adjustment, sbrk,
}

-- The memory that the host has ends at or behind the break.
abbrev pub Backed : Manager → Type 0
Backed s = s.sbrk_bytes ≤ s.pages * page

rounded-lem : (n : ℕ) → n < 2 ^ 31 → (n ≤ rounded n) × (rounded n < n + 8) × (rounded n % 8 ≡ 0)
unfolding rounded
rounded-lem n h = (omega (arith, h), omega (arith, h), omega (arith, h))

desired_pages-lem :
    (bytes n : ℕ) → bytes + n + page < 2 ^ 32 → bytes + n ≤ desired_pages bytes n * page
unfolding desired_pages
desired_pages-lem bytes n h = omega (arith, h)

-- The break moved up by the size, rounded to whole 8 bytes, and the host has the memory.
pub record Moved (s t : Manager) (n : ℕ) : Type 0 where
  pub enough : s.sbrk_bytes + n ≤ t.sbrk_bytes
  pub close : t.sbrk_bytes < s.sbrk_bytes + n + 8
  pub whole : (t.sbrk_bytes - s.sbrk_bytes) % 8 ≡ 0
  pub backed : Backed t

abbrev wanted : Manager → ℕ → ℕ
wanted s n = desired_pages (started s).sbrk_bytes (rounded n)

abbrev grown : Manager → ℕ → Manager
grown s n = record (started s) {
  pages = if ltb (started s).pages (wanted s n) then wanted s n else (started s).pages;
  sbrk_bytes = add32 (started s).sbrk_bytes (rounded n);
}

enough_pages : (a b : ℕ) (x : ℕ) → x ≤ a * page → x ≤ (if ltb b a then a else b) * page
enough_pages a b x h = elim (Bool-cases (ltb b a)) [
  | inl e ↦ rw e h
  | inr e ↦ rw e (omega (arith, h, ltb-false→le b a e))
]

grown-Moved :
    (s : Manager) (n : ℕ)
    → Backed (started s)
    → n ≤ 2 ^ 31 - 1
    → (started s).sbrk_bytes + n + 8 + page ≤ 2 ^ 32
    → Moved (started s) (grown s n) n
grown-Moved s n b l h =
    let (x, y, z) = rounded-lem n (omega (arith, l)) in
    let bytes = (started s).sbrk_bytes in
    let e : add32 bytes (rounded n) ≡ bytes + rounded n = omega (arith, h, y) in
    let w = desired_pages-lem bytes (rounded n) (omega (arith, h, y)) in
    record {
      enough = omega (arith, e, x);
      close = omega (arith, e, y);
      whole = omega (arith, e, z);
      backed =
          enough_pages (wanted s n) (started s).pages (add32 bytes (rounded n))
            (omega (arith, e, w));
    }

module _ (can_grow : ℕ → ℕ → Bool) (keeps_sign : Bool) (initial_heap : ℕ) where
  -- `sbrk( n )`, where the break is backed and stays below 4 GB with a page more: it fails and changes nothing but that it
  -- is initialised, or it returns the old break, and the new one is `n` higher, rounded up to whole 8 bytes, and is
  -- backed.
  pub sbrk-Moved :
      (s : Manager) (n : ℕ)
      → Backed (started s)
      → (started s).sbrk_bytes + n + 8 + page ≤ 2 ^ 32
      → (sbrk can_grow keeps_sign initial_heap s n ≡ (minus_one, started s))
        ⊎ (((sbrk can_grow keeps_sign initial_heap s n).0 ≡ (started s).sbrk_bytes)
            × Moved (started s) (sbrk can_grow keeps_sign initial_heap s n).1 n)
  unfolding sbrk
  sbrk-Moved s n b h = elim (Bool-cases (ltb (2 ^ 31 - 1) n)) [
    | inl e ↦ inl (rw e refl)
    | inr e ↦
        elim (Bool-cases (
          ltb (started s).pages (wanted s n)
          && not (can_grow (started s).pages (wanted s n - (started s).pages)))) [
            | inl f ↦ inl (rw (e, f) refl)
            | inr f ↦ inr (rw (e, f) (refl, grown-Moved s n b (ltb-false→le (2 ^ 31 - 1) n e) h))
          ]
  ]

-- For a size that is below 4 GB by more than two pages, `heap_adj` reaches the end of a page, at most the second from the size on. It is at least 1 KB where as much is left of the
-- page; else it goes on to the next page's end where the page has an even number, and where it has an odd number
-- it is only the rest of the page.
pub heap_adjustment-lem :
    (size : ℕ)
    → size + 2 * page < 2 ^ 32
    → ((size + heap_adjustment size) % page ≡ 0)
      × (heap_adjustment size ≤ 2 * page)
      × (size % page ≤ page - 1024 → (1024 ≤ heap_adjustment size) × (heap_adjustment size ≤ page))
      × (page - 1024 < size % page → size % (2 * page) < page → page < heap_adjustment size)
      × (page - 1024 < size % page → page ≤ size % (2 * page) → heap_adjustment size < 1024)
unfolding heap_adjustment
heap_adjustment-lem size h = elim (Bool-cases (leb (size % page) (page - 1024))) [
  | inl e ↦
      (let f = leb→le (size % page) (page - 1024) e in
        rw e (
          omega (arith, h),
          omega (arith, h),
          λ g. (omega (arith, h, f), omega (arith, h, f)),
          λ g k. omega (arith, f, g),
          λ g k. omega (arith, f, g),
        ))
  | inr e ↦
      (let f = leb-false→lt (size % page) (page - 1024) e in
        rw e (
          omega (arith, h),
          omega (arith, h),
          λ g. absurd (omega (arith, f, g)),
          λ g k. omega (arith, h, f, k),
          λ g k. omega (arith, h, f, k),
        ))
]
