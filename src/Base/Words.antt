-- ===== src/Base/Words.antt =====
-- `size_t` and the other 64-bit words, as native numbers with their wrap-around.
use Prim.Native.Nat.{ℕ, ◌+◌, ◌-◌, ◌*◌, ◌%◌, ◌^◌}

abbrev pub word : ℕ
word = 2 ^ 64

-- `SIZE_MAX`
abbrev pub size_max : ℕ
size_max = 2 ^ 64 - 1

abbrev pub add_word : ℕ → ℕ → ℕ
add_word a b = (a + b) % 2 ^ 64

-- for `a` and `b` below `word`
abbrev pub sub_word : ℕ → ℕ → ℕ
sub_word a b = (a + 2 ^ 64 - b) % 2 ^ 64

abbrev pub mul_word : ℕ → ℕ → ℕ
mul_word a b = (a * b) % 2 ^ 64
