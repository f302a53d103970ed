-- ===== src/Examples/Inputs.antt =====
-- The theorem on `getdelim`, at the input "hi\n!" and a small buffer that `realloc` cannot enlarge much.
use libc_override.Base.{
  ℕ, ◌≡◌, false, Option, none, some, List, [], ◌∷◌, arith, ◌⊎◌, ltb, if◌then◌else◌,
}
use libc_override.Getdelim.Outcomes.{Reads, getdelim-Reads}
use libc_override.Getdelim.{Buffer, Realloc, Lineptr, refused, buffer_of, getdelim}

abbrev realloc : Realloc
realloc n = if ltb n 5 then some (λ i. 7) else none

abbrev input : List ℕ
input = 104 ∷ 105 ∷ 10 ∷ 33 ∷ []

abbrev lineptr : Lineptr
lineptr = some (some (λ i. 0))

getdelim-Reads_example :
    ((b : Buffer) × (buffer_of lineptr (some 2) ≡ some b)
      × Reads realloc false 10 0 b input (getdelim realloc false 10 input lineptr (some 2)))
    ⊎ (((lineptr ≡ none) ⊎ (◌≡◌ {A = Option ℕ} (some 2) none))
        × (getdelim realloc false 10 input lineptr (some 2) ≡ refused))
getdelim-Reads_example = getdelim-Reads realloc false 10 input lineptr (some 2) (omega arith)
