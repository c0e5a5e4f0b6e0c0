-- ===== src/Ring/Counts.antt =====
-- How many threads of a ring (7.9/sem/RingQueue.hpp) stand before each statement.
use my_linux.Base.{ℕ, ◌+◌, ◌≡◌, List, [], ◌∷◌, arith, refl}
use my_linux.Base.Totals.{total}
use my_linux.Ring.{
  Pc, push_lock, push_store, push_wrap, push_unlock, push_post, pop_lock, pop_load, pop_wrap,
  pop_unlock, pop_post,
}

-- 1 at one statement, 0 elsewhere.
abbrev pub at_push_lock : Pc → ℕ
at_push_lock (push_lock x) = 1
at_push_lock _ = 0

abbrev pub at_push_store : Pc → ℕ
at_push_store (push_store x) = 1
at_push_store _ = 0

abbrev pub at_push_wrap : Pc → ℕ
at_push_wrap push_wrap = 1
at_push_wrap _ = 0

abbrev pub at_push_unlock : Pc → ℕ
at_push_unlock push_unlock = 1
at_push_unlock _ = 0

abbrev pub at_push_post : Pc → ℕ
at_push_post push_post = 1
at_push_post _ = 0

abbrev pub at_pop_lock : Pc → ℕ
at_pop_lock pop_lock = 1
at_pop_lock _ = 0

abbrev pub at_pop_load : Pc → ℕ
at_pop_load pop_load = 1
at_pop_load _ = 0

abbrev pub at_pop_wrap : Pc → ℕ
at_pop_wrap (pop_wrap x) = 1
at_pop_wrap _ = 0

abbrev pub at_pop_unlock : Pc → ℕ
at_pop_unlock (pop_unlock x) = 1
at_pop_unlock _ = 0

abbrev pub at_pop_post : Pc → ℕ
at_pop_post (pop_post x) = 1
at_pop_post _ = 0

-- 1 between the lock and the unlock of `push`, of `pop`.
abbrev pub in_push : Pc → ℕ
in_push pc = at_push_store pc + at_push_wrap pc + at_push_unlock pc

abbrev pub in_pop : Pc → ℕ
in_pop pc = at_pop_load pc + at_pop_wrap pc + at_pop_unlock pc

-- 1 where the next statement never waits.
abbrev pub ready : Pc → ℕ
ready pc = in_push pc + at_push_post pc + in_pop pc + at_pop_post pc

pub total-in_push :
    (ts : List Pc)
    → total in_push ts ≡ total at_push_store ts + total at_push_wrap ts + total at_push_unlock ts
total-in_push [] = refl
total-in_push (pc ∷ ts) = omega (arith, total-in_push ts)

pub total-in_pop :
    (ts : List Pc)
    → total in_pop ts ≡ total at_pop_load ts + total at_pop_wrap ts + total at_pop_unlock ts
total-in_pop [] = refl
total-in_pop (pc ∷ ts) = omega (arith, total-in_pop ts)

pub total-ready :
    (ts : List Pc)
    → total ready ts
      ≡ total at_push_store ts
        + total at_push_wrap ts
        + total at_push_unlock ts
        + total at_push_post ts
        + (total at_pop_load ts
            + total at_pop_wrap ts
            + total at_pop_unlock ts
            + total at_pop_post ts)
total-ready [] = refl
total-ready (pc ∷ ts) = omega (arith, total-ready ts)
