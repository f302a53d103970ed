-- ===== src/Examples/Allocator.antt =====
-- An allocator to run the code on: it hands out ascending addresses and forgets contents.
use libc_override.Base.{
  ℕ, ◌+◌, ◌≡◌, ◌≢◌, refl, Bool, true, false, ◌&&◌, ◌||◌, not, arith, [], leb, ◌==◌, if◌then◌else◌,
}
use libc_override.Mock.World.{RealAllocator, IsAllocator, Env, also}

pub record Bump : Type 0 where
  pub next : ℕ
  pub alive : ℕ → Bool

abbrev pub is_live : Bump → ℕ → Bool
is_live h q = not (q == 0) && h.alive q

unfoldable pub take_next : Bump → ℕ × Bump
take_next h = if is_live h h.next || leb h.next 1 then (0, h) else (
  h.next,
  record { next = h.next + 16; alive = λ q. if q == h.next then true else h.alive q },
)

unfoldable pub give_back : ℕ → Bump → Bump
give_back p h = record h { alive = λ q. if q == p then false else h.alive q }

unfoldable pub move_block : ℕ → ℕ → Bump → ℕ × Bump
move_block p n h =
    if n == 0
    then (0, give_back p h)
    else let (new, h') = take_next (give_back p h) in if new == 0 then (0, h) else (new, h')

abbrev pub bump : RealAllocator
bump = record {
  Heap = Bump;
  live = is_live;
  malloc = λ n h. take_next h;
  calloc = λ m n h. take_next h;
  realloc = move_block;
  free = give_back;
}

take_next-live :
    (h : Bump) (q : ℕ) → is_live (take_next h).1 q ≡ also (take_next h).0 (is_live h q) q
unfolding take_next
take_next-live h q = ground arith

take_next-new : (h : Bump) → is_live h (take_next h).0 ≡ false
unfolding take_next
take_next-new h = ground arith

take_next-ne-one : (h : Bump) → (take_next h).0 ≢ 1
unfolding take_next
take_next-ne-one h e = ground arith

move_block-live :
    (p n : ℕ) (h : Bump) (q : ℕ)
    → is_live (move_block p n h).1 q ≡ (
        if ((move_block p n h).0 == 0) && not (n == 0)
        then is_live h q
        else also (move_block p n h).0 (if q == p then false else is_live h q) q)
unfolding move_block give_back
move_block-live p n h q = ground (arith, take_next-live (give_back p h) q)

move_block-new :
    (p n : ℕ) (h : Bump) → (move_block p n h).0 ≢ p → is_live h (move_block p n h).0 ≡ false
unfolding move_block give_back
move_block-new p n h ne = ground (arith, take_next-new (give_back p h))

move_block-ne-one : (p n : ℕ) (h : Bump) → (move_block p n h).0 ≢ 1
unfolding move_block
move_block-ne-one p n h e = ground (arith, take_next-ne-one (give_back p h))

give_back-live :
    (p : ℕ) (h : Bump) (q : ℕ) → is_live (give_back p h) q ≡ (if q == p then false else is_live h q)
unfolding give_back
give_back-live p h q = ground arith

pub bump-IsAllocator : IsAllocator bump
bump-IsAllocator = record {
  null_dead = λ h. refl;
  malloc-live = λ n h q. take_next-live h q;
  malloc-new = λ n h. take_next-new h;
  malloc-ne-one = λ n h. take_next-ne-one h;
  calloc-live = λ m n h q. take_next-live h q;
  calloc-new = λ m n h. take_next-new h;
  calloc-ne-one = λ m n h. take_next-ne-one h;
  realloc-live = move_block-live;
  realloc-new = move_block-new;
  realloc-ne-one = move_block-ne-one;
  free-live = give_back-live;
}

-- `dlsym` finds every symbol, and calls nothing
abbrev pub env : Env
env = record { real = bump; base = 1048576; requests = λ s. []; finds = λ s. true }
