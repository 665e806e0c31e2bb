-- ===== src/Prelude/Words.antt =====
-- `size_t` of a 64-bit platform, with its wrap-around.
use fimex.Prelude.{ℕ, ◌+◌, ◌-◌, ◌*◌, ◌%◌, ◌^◌, ◌<◌, ◌≡◌, arith}

abbrev pub size_mod : ℕ
size_mod = 2 ^ 64

abbrev pub wadd : ℕ → ℕ → ℕ
wadd a b = (a + b) % size_mod

abbrev pub wsub : ℕ → ℕ → ℕ
wsub a b = (a + size_mod - b) % size_mod

abbrev pub wmul : ℕ → ℕ → ℕ
wmul a b = (a * b) % size_mod

pub wadd_exact : (a b : ℕ) → a + b < size_mod → wadd a b ≡ a + b
wadd_exact a b h = omega arith
