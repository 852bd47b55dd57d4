-- ===== src/Alloc/Store.antt =====
-- The linear memory, as far as the allocator reads and writes it: an `int` or a pointer at an
-- address. All its addresses are multiples of 4, so two words overlap only where they are one.
use taurus_cdt.Prelude.{ℕ, ◌≡◌, ◌≢◌, arith, ◌==◌, if◌then◌else◌}

abbrev pub Mem : Type 0
Mem = ℕ → ℕ

unfoldable pub store : Mem → ℕ → ℕ → Mem
store m a w = λ b. if a == b then w else m b

pub store_self : (m : Mem) (a w : ℕ) → store m a w a ≡ w
unfolding store
store_self m a w = ground arith

pub store_ne : (m : Mem) (a w b : ℕ) → a ≢ b → store m a w b ≡ m b
unfolding store
store_ne m a w b h = ground arith
