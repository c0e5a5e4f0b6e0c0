-- ===== src/Ring/Invariant/Consumers.antt =====
-- The statements of `pop` (7.9/sem/RingQueue.hpp) keep the invariant.
use native.Mathlib.Nat.{mod-lt, mod-eq_of_lt, mod-add-mod, mod-mod}
use my_linux.Base.{
  ℕ, suc, ◌+◌, ◌-◌, ◌%◌, ◌<◌, ◌≡◌, ap, sym, ◌∙◌, inl, inr, [], ◌∷◌, ◌++◌, get_elem?, get_or, some,
  ltb, ltb→lt, Bool-cases, arith, set, append_assoc,
}
use my_linux.Ring.{
  Ring, idle, pop_wait, pop_lock, pop_load, pop_wrap, pop_unlock, pop_post, statement, load_item,
}
use my_linux.Ring.Slots.{slots, slots-first, get_elem?-some}
use my_linux.Base.Totals.{total}
use my_linux.Ring.Counts.{at_pop_load}
use my_linux.Ring.Invariant.{bit, bit_le, IsSound, IsMove, set-IsMove, Keeps, waits, goes_on}

module _ (r : Ring) (n : ℕ) (h : IsSound r n) (i : ℕ) where
  -- Whoever owns the consumers' mutex finds the position inside the vector, at the first item.
  module _ (owner : 0 < total at_pop_load r.threads) where
    c_inside : r.c_pos < r.capacity
    c_inside = omega (arith, h, bit_le r.c_mtx)

    one_more : n ≡ suc (n - 1)
    one_more = omega (arith, h)

    loaded_turn : r.p_pos % r.capacity ≡ ((r.c_pos + 1) % r.capacity + (n - 1)) % r.capacity
    loaded_turn =
        h.turn
        ∙ mod-add-mod r.c_pos r.capacity n
        ∙ ap (λ p. p % r.capacity) (omega (arith, one_more))
        ∙ sym (mod-add-mod (r.c_pos + 1) r.capacity (n - 1))

    loaded_items :
        r.stored
        ≡ (r.loaded ++ (get_or r.queue r.c_pos 0 ∷ []))
          ++ slots r.queue r.capacity ((r.c_pos + 1) % r.capacity) (n - 1)
    loaded_items = h.items ∙ ap (λ l. r.loaded ++ l) first ∙ sym (append_assoc r.loaded _ _)
      where
        first :
            slots r.queue r.capacity (r.c_pos % r.capacity) n
            ≡ get_or r.queue r.c_pos 0
              ∷ slots r.queue r.capacity ((r.c_pos + 1) % r.capacity) (n - 1)
        first =
            ap (λ k. slots r.queue r.capacity k n) (mod-eq_of_lt c_inside)
            ∙ ap (slots r.queue r.capacity r.c_pos) one_more
            ∙ slots-first r.queue r.capacity r.c_pos (n - 1) c_inside

  pub pop_wait-Keeps : get_elem? r.threads i ≡ some pop_wait → Keeps (statement r i pop_wait)
  unfolding statement
  pop_wait-Keeps e = elim (Bool-cases (ltb 0 r.data_sem)) [
    | inl p ↦ rw p (
        goes_on _ n (record {
          positive = h.positive;
          buffer = h.buffer;
          free = omega (arith, m);
          filled = omega (arith, m, ltb→lt 0 r.data_sem p);
          p_lock = omega (arith, m);
          c_lock = omega (arith, m);
          p_range = omega (arith, m);
          c_range = omega (arith, m);
          turn = h.turn;
          items = h.items;
        }))
    | inr p ↦ rw p (waits)
  ]
    where
      m : IsMove pop_wait pop_lock r.threads (set r.threads i pop_lock)
      m = set-IsMove r.threads i _ _ e

  pub pop_lock-Keeps : get_elem? r.threads i ≡ some pop_lock → Keeps (statement r i pop_lock)
  unfolding statement
  pop_lock-Keeps e = elim (Bool-cases (r.c_mtx)) [
    | inl p ↦ rw p (waits)
    | inr p ↦ rw p (
        goes_on _ n (record {
          positive = h.positive;
          buffer = h.buffer;
          free = omega (arith, m);
          filled = omega (arith, m);
          p_lock = omega (arith, m);
          c_lock = omega (arith, m, ap bit p);
          p_range = omega (arith, m);
          c_range = omega (arith, m);
          turn = h.turn;
          items = h.items;
        }))
  ]
    where
      m : IsMove pop_lock pop_load r.threads (set r.threads i pop_load)
      m = set-IsMove r.threads i _ _ e

  pub pop_load-Keeps : get_elem? r.threads i ≡ some pop_load → Keeps (load_item r i)
  unfolding load_item
  pop_load-Keeps e =
      rw
        (
          load_item,
          get_elem?-some r.queue r.c_pos (omega (arith, h.buffer, c_inside (omega (arith, m)))),
        )
        (goes_on _ (n - 1) (record {
          positive = h.positive;
          buffer = h.buffer;
          free = omega (arith, m);
          filled = omega (arith, m);
          p_lock = omega (arith, m);
          c_lock = omega (arith, m);
          p_range = omega (arith, m);
          c_range = omega (arith, m);
          turn = loaded_turn (omega (arith, m));
          items = loaded_items (omega (arith, m));
        }))
    where
      m :
          IsMove pop_load
            (pop_wrap (get_or r.queue r.c_pos 0))
            r.threads
            (set r.threads i (pop_wrap (get_or r.queue r.c_pos 0)))
      m = set-IsMove r.threads i _ _ e

  pub pop_wrap-Keeps :
      (x : ℕ) → get_elem? r.threads i ≡ some (pop_wrap x) → Keeps (statement r i (pop_wrap x))
  unfolding statement
  pop_wrap-Keeps x e = goes_on _ n (record {
    positive = h.positive;
    buffer = h.buffer;
    free = omega (arith, m);
    filled = omega (arith, m);
    p_lock = omega (arith, m);
    c_lock = omega (arith, m);
    p_range = omega (arith, m);
    c_range = omega (arith, m, mod-lt r.c_pos {m = r.capacity} h.positive);
    turn = h.turn ∙ ap (λ c. (c + n) % r.capacity) (sym (mod-mod r.c_pos r.capacity));
    items =
        h.items
        ∙ ap (λ c. r.loaded ++ slots r.queue r.capacity c n) (sym (mod-mod r.c_pos r.capacity));
  })
    where
      m : IsMove (pop_wrap x) (pop_unlock x) r.threads (set r.threads i (pop_unlock x))
      m = set-IsMove r.threads i _ _ e

  pub pop_unlock-Keeps :
      (x : ℕ) → get_elem? r.threads i ≡ some (pop_unlock x) → Keeps (statement r i (pop_unlock x))
  unfolding statement
  pop_unlock-Keeps x e = goes_on _ n (record {
    positive = h.positive;
    buffer = h.buffer;
    free = omega (arith, m);
    filled = omega (arith, m);
    p_lock = omega (arith, m);
    c_lock = omega (arith, m, h.c_lock, bit_le r.c_mtx);
    p_range = omega (arith, m);
    c_range = omega (arith, m);
    turn = h.turn;
    items = h.items;
  })
    where
      m : IsMove (pop_unlock x) (pop_post x) r.threads (set r.threads i (pop_post x))
      m = set-IsMove r.threads i _ _ e

  pub pop_post-Keeps :
      (x : ℕ) → get_elem? r.threads i ≡ some (pop_post x) → Keeps (statement r i (pop_post x))
  unfolding statement
  pop_post-Keeps x e = goes_on _ n (record {
    positive = h.positive;
    buffer = h.buffer;
    free = omega (arith, m);
    filled = omega (arith, m);
    p_lock = omega (arith, m);
    c_lock = omega (arith, m);
    p_range = omega (arith, m);
    c_range = omega (arith, m);
    turn = h.turn;
    items = h.items;
  })
    where
      m : IsMove (pop_post x) idle r.threads (set r.threads i idle)
      m = set-IsMove r.threads i _ _ e
