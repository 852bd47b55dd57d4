-- ===== src/Stream/Size.antt =====
-- `datastream<size_t>` of libraries/eosiolib/core/eosio/datastream.hpp, whose state is the size.
use taurus_cdt.Prelude.{ℕ, List, length, add32}

unfoldable pub skip : ℕ → ℕ → ℕ
skip size s = add32 size s

unfoldable pub write : ℕ → List ℕ → ℕ
write size d = add32 size (length d)

unfoldable pub put : ℕ → ℕ → ℕ
put size c = add32 size 1

unfoldable pub seekp : ℕ → ℕ → ℕ
seekp size p = p

unfoldable pub remaining : ℕ → ℕ
remaining size = 0
