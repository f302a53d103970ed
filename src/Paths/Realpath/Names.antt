-- ===== src/Paths/Realpath/Names.antt =====
-- Paths as names behind a base, against the bytes of `output` in src/path_overrides.c.
use libc_override.Base.{
  ℕ, zero, suc, ◌+◌, ◌*◌, ◌≤◌, ◌<◌, ◌≡◌, refl, ap, ◌∙◌, true, false, List, [], ◌∷◌, length,
  length-reverse_onto, reverse_onto, arith, inl, inr, ◌==◌, if◌then◌else◌, Bool-cases,
}
use libc_override.Paths.{FilePath, slash, dot, is_empty, strchrnul}
use libc_override.Paths.Realpath.{wants_slash, back_to_slash, drop_slash, is_dot, is_dot_dot}

-- what a path starts with: a slash, the two slashes that are kept, or as many `..` that go up from
-- the current directory
pub data Start : Type 0 where
  root roots : Start
  ups : ℕ → Start

-- how many `..` of the start wait for the current directory
abbrev pub pending : Start → ℕ
pending root = 0
pending roots = 0
pending (ups n) = n

-- bytes, the last first, made ready for another name
abbrev pub sep : List ℕ → List ℕ
sep [] = []
sep (c ∷ out) = if c == slash then c ∷ out else slash ∷ c ∷ out

abbrev pub dots : ℕ → List ℕ
dots zero = []
dots (suc n) = let before = dots n in dot ∷ dot ∷ sep before

abbrev pub start_out : Start → List ℕ
start_out root = slash ∷ []
start_out roots = slash ∷ slash ∷ []
start_out (ups n) = dots n

-- names, the last first, behind bytes, the last first
abbrev pub render_on : List ℕ → List FilePath → List ℕ
render_on out [] = out
render_on out (name ∷ names) = let before = render_on out names in reverse_onto name (sep before)

-- the bytes of a path
abbrev pub render : Start → List FilePath → List ℕ
render b names = render_on (start_out b) names

pub data NoSlash : FilePath → Type 0 where
  empty : NoSlash []
  more : {c : ℕ} {s : FilePath} → (c == slash) ≡ false → NoSlash s → NoSlash (c ∷ s)

-- a name of a directory entry
pub record IsName (name : FilePath) : Type 0 where
  pub whole : NoSlash name
  pub filled : is_empty name ≡ false
  pub no_dot : is_dot name ≡ false
  pub no_dot_dot : is_dot_dot name ≡ false

pub strchrnul-NoSlash : (s : FilePath) → NoSlash (strchrnul slash s).0
unfolding strchrnul
strchrnul-NoSlash [] = empty
strchrnul-NoSlash (c ∷ s) = elim (Bool-cases (c == slash)) [
  | inl e ↦ rw e empty
  | inr e ↦ rw e (more e (strchrnul-NoSlash s))
]

pub length-strchrnul :
    (c : ℕ) (s : FilePath) → length (strchrnul c s).0 + length (strchrnul c s).1 ≡ length s
unfolding strchrnul
length-strchrnul c [] = refl
length-strchrnul c (d ∷ s) = ground (arith, length-strchrnul c s)

back_to_slash-name :
    (name out : FilePath) → NoSlash name → back_to_slash (reverse_onto name out) ≡ back_to_slash out
unfolding back_to_slash
back_to_slash-name [] out h = refl
back_to_slash-name (c ∷ s) out (more e h) = back_to_slash-name s (c ∷ out) h ∙ (rw e refl)

wants_slash-name :
    (name out : FilePath)
    → NoSlash name
    → wants_slash out ≡ true
    → wants_slash (reverse_onto name out) ≡ true
unfolding wants_slash
wants_slash-name [] out h k = k
wants_slash-name (c ∷ s) out (more e h) k = wants_slash-name s (c ∷ out) h (rw e refl)

pub length-dots : (n : ℕ) → length (sep (dots n)) ≡ 3 * n
length-dots zero = refl
length-dots (suc n) = omega (arith, length-dots n)

pub length-sep-le : (out : List ℕ) → length out ≤ length (sep out)
length-sep-le [] = omega arith
length-sep-le (c ∷ out) = ground arith

length-start : (b : Start) → 3 * pending b ≤ length (sep (start_out b))
length-start root = omega arith
length-start roots = omega arith
length-start (ups n) = omega (arith, length-dots n)

pub length-names :
    (b : Start) (names : List FilePath) → 3 * pending b ≤ length (sep (render b names))
length-names b [] = length-start b
length-names b (name ∷ names) = omega (
  arith,
  length-names b names,
  length-reverse_onto name (sep (render b names)),
  length-sep-le (render b (name ∷ names)),
)

-- a name stands behind the whole start
pub length-render :
    (b : Start) (name : FilePath) (names : List FilePath)
    → is_empty name ≡ false
    → 3 * pending b < length (render b (name ∷ names))
unfolding is_empty
length-render b [] names h = absurd (ground (arith, h))
length-render b (c ∷ s) names h =
    omega (arith, length-names b names, length-reverse_onto (c ∷ s) (sep (render b names)))

-- the bytes that a name can be cut from again
abbrev Cuts : List ℕ → Type 0
Cuts out = drop_slash (back_to_slash (sep out)) ≡ out

wants_slash-Cuts : (out : List ℕ) → wants_slash out ≡ true → Cuts out
unfolding wants_slash back_to_slash drop_slash
wants_slash-Cuts [] h = refl
wants_slash-Cuts (c ∷ []) h = elim (Bool-cases (c == slash)) [
  | inl e ↦ absurd (ground arith)
  | inr e ↦ ground arith
]
wants_slash-Cuts (c ∷ d ∷ out) h = elim (Bool-cases (c == slash)) [
  | inl e ↦ absurd (ground arith)
  | inr e ↦ ground arith
]

start-Cuts : (b : Start) → Cuts (start_out b)
unfolding wants_slash back_to_slash drop_slash
start-Cuts root = refl
start-Cuts roots = refl
start-Cuts (ups zero) = refl
start-Cuts (ups (suc n)) = wants_slash-Cuts (dots (suc n)) refl

pub render-wants :
    (out : List ℕ) (name : FilePath) (names : List FilePath)
    → IsName name
    → wants_slash (render_on out (name ∷ names)) ≡ true
unfolding wants_slash is_empty
render-wants out [] names h = absurd (ground (arith, h.filled))
render-wants out (c ∷ s) names h = elim h.whole [
  | more e rest ↦ wants_slash-name s (c ∷ sep (render_on out names)) rest (rw e refl)
]

pub data AllNames : List FilePath → Type 0 where
  none : AllNames []
  more :
      {name : FilePath} {names : List FilePath}
      → IsName name
      → AllNames names
      → AllNames (name ∷ names)

render-Cuts : (b : Start) (names : List FilePath) → AllNames names → Cuts (render b names)
render-Cuts b [] h = start-Cuts b
render-Cuts b (name ∷ names) (more is h) =
    wants_slash-Cuts (render b (name ∷ names)) (render-wants (start_out b) name names is)

-- `..` takes the last name away
pub cut-name :
    (b : Start) (name : FilePath) (names : List FilePath)
    → AllNames (name ∷ names)
    → drop_slash (back_to_slash (render b (name ∷ names))) ≡ render b names
cut-name b name names (more is h) =
    ap drop_slash (back_to_slash-name name (sep (render b names)) is.whole) ∙ render-Cuts b names h

-- the start has no name to take away
pub cut-start :
    (b : Start)
    → 3 * pending b < length (start_out b)
    → drop_slash (back_to_slash (start_out b)) ≡ start_out b
unfolding back_to_slash drop_slash
cut-start root h = refl
cut-start roots h = refl
cut-start (ups n) h = absurd (omega (arith, length-dots n, length-sep-le (dots n)))

-- bytes before which a slash was put on the stack when they need one
pub joined-sep :
    (out name : List ℕ)
    → reverse_onto (if wants_slash out then slash ∷ name else name) out
      ≡ reverse_onto name (sep out)
unfolding wants_slash
joined-sep [] name = refl
joined-sep (c ∷ out) name = elim (Bool-cases (c == slash)) [ inl e ↦ rw e refl | inr e ↦ rw e refl ]

-- where `..` waits, the start has no name behind it
pub waiting :
    (b : Start) (names : List FilePath)
    → AllNames names
    → length (render b names) ≤ 3 * pending b
    → (n : ℕ) × (names ≡ []) × (b ≡ ups n)
waiting root [] h near = absurd (omega arith)
waiting roots [] h near = absurd (omega arith)
waiting (ups n) [] h near = (n, refl, refl)
waiting b (name ∷ names) (more is h) near =
    absurd (omega (arith, length-render b name names is.filled))

pub sep-wants : (out : List ℕ) → wants_slash out ≡ true → sep out ≡ slash ∷ out
unfolding wants_slash
sep-wants [] h = absurd (ground (arith, h))
sep-wants (c ∷ out) h = ground (arith, h)
