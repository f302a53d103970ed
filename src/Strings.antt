-- ===== src/Strings.antt =====
-- The copies of strings in src/string_overrides.c. A string is given by the bytes, or the wide
-- characters, of the memory it stands in, its end among them.
pub mod Copies
use libc_override.Base.{
  ℕ, zero, suc, ◌+◌, List, [], ◌∷◌, ◌++◌, take, Option, none, some, ◌==◌, if◌then◌else◌, add_word,
  mul_word,
}

-- what `malloc` answers to a size
abbrev pub Malloc : Type 0
Malloc = ℕ → Option ℕ

-- the characters before the first zero
unfoldable pub strlen : List ℕ → ℕ
strlen [] = 0
strlen (c ∷ s) = let rest = strlen s in if c == 0 then 0 else suc rest

unfoldable pub strnlen : List ℕ → ℕ → ℕ
strnlen s zero = 0
strnlen [] (suc n) = 0
strnlen (c ∷ s) (suc n) = let rest = strnlen s n in if c == 0 then 0 else suc rest

-- a block and what was written to it
unfoldable pub filled : Option ℕ → List ℕ → Option (ℕ × List ℕ)
filled none s = none
filled (some dup) s = some (dup, s)

unfoldable pub strdup : Malloc → List ℕ → Option (ℕ × List ℕ)
strdup malloc s = let len = strlen s in filled (malloc (add_word len 1)) (take (len + 1) s)

unfoldable pub strndup : Malloc → List ℕ → ℕ → Option (ℕ × List ℕ)
strndup malloc s n =
    let len = strnlen s n in filled (malloc (add_word len 1)) (take len s ++ 0 ∷ [])

unfoldable pub wcsdup : Malloc → List ℕ → Option (ℕ × List ℕ)
wcsdup malloc s =
    let len = strlen s in filled (malloc (mul_word (add_word len 1) 4)) (take (len + 1) s)
