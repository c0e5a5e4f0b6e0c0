-- ===== src/Ring/Invariant/Producers.antt =====
-- The statements of `push` (7.9/sem/RingQueue.hpp) keep the invariant.
use native.Mathlib.Nat.{mod-lt, mod-eq_of_lt, mod-add-mod, mod-mod}
use my_linux.Base.{
  ℕ, suc, ◌+◌, ◌%◌, ◌<◌, ◌≡◌, ap, sym, ◌∙◌, inl, inr, [], ◌∷◌, ◌++◌, get_elem?, some, ltb, ltb→lt,
  Bool-cases, arith, set, length-set, append_assoc,
}
use my_linux.Ring.{
  Ring, idle, push_wait, push_lock, push_store, push_wrap, push_unlock, push_post, statement,
  store_item,
}
use my_linux.Ring.Slots.{slots, slots-store, get_elem?-some}
use my_linux.Base.Totals.{total}
use my_linux.Ring.Counts.{at_push_store}
use my_linux.Ring.Invariant.{bit, bit_le, IsSound, IsMove, set-IsMove, Keeps, waits, goes_on}

module _ (r : Ring) (n : ℕ) (h : IsSound r n) (i : ℕ) where
  -- Whoever owns the producers' mutex finds the position inside the vector, and a free slot.
  module _ (owner : 0 < total at_push_store r.threads) where
    p_inside : r.p_pos < r.capacity
    p_inside = omega (arith, h, bit_le r.p_mtx)

    slot : r.p_pos ≡ (r.c_pos % r.capacity + n) % r.capacity
    slot = sym (mod-eq_of_lt p_inside) ∙ h.turn

    stored_turn : (r.p_pos + 1) % r.capacity ≡ (r.c_pos % r.capacity + (suc n)) % r.capacity
    stored_turn =
        ap (λ p. (p + 1) % r.capacity) slot
        ∙ mod-add-mod (r.c_pos % r.capacity + n) r.capacity 1
        ∙ ap (λ p. p % r.capacity) (omega arith)

    stored_items :
        (x : ℕ)
        → r.stored ++ (x ∷ [])
          ≡ r.loaded ++ slots (set r.queue r.p_pos x) r.capacity (r.c_pos % r.capacity) (suc n)
    stored_items x =
        ap (λ l. l ++ (x ∷ [])) h.items
        ∙ append_assoc r.loaded _ _
        ∙ ap (λ l. r.loaded ++ l) (sym added)
      where
        start : ℕ
        start = r.c_pos % r.capacity

        added :
            slots (set r.queue r.p_pos x) r.capacity start (suc n)
            ≡ slots r.queue r.capacity start n ++ (x ∷ [])
        added =
            ap (λ q. slots (set r.queue q x) r.capacity start (suc n)) slot
            ∙ slots-store r.queue r.capacity start n x (mod-lt r.c_pos {m = r.capacity} h.positive)
                (omega (arith, h)) h.buffer

  pub push_wait-Keeps :
      (x : ℕ) → get_elem? r.threads i ≡ some (push_wait x) → Keeps (statement r i (push_wait x))
  unfolding statement
  push_wait-Keeps x e = elim (Bool-cases (ltb 0 r.space_sem)) [
    | inl p ↦ rw p (
        goes_on _ n (record {
          positive = h.positive;
          buffer = h.buffer;
          free = omega (arith, m, ltb→lt 0 r.space_sem p);
          filled = omega (arith, m);
          p_lock = omega (arith, m);
          c_lock = omega (arith, m);
          p_range = omega (arith, m);
          c_range = omega (arith, m);
          turn = h.turn;
          items = h.items;
        }))
    | inr p ↦ rw p (waits)
  ]
    where
      m : IsMove (push_wait x) (push_lock x) r.threads (set r.threads i (push_lock x))
      m = set-IsMove r.threads i _ _ e

  pub push_lock-Keeps :
      (x : ℕ) → get_elem? r.threads i ≡ some (push_lock x) → Keeps (statement r i (push_lock x))
  unfolding statement
  push_lock-Keeps x e = elim (Bool-cases (r.p_mtx)) [
    | inl p ↦ rw p (waits)
    | inr p ↦ rw p (
        goes_on _ n (record {
          positive = h.positive;
          buffer = h.buffer;
          free = omega (arith, m);
          filled = omega (arith, m);
          p_lock = omega (arith, m, ap bit p);
          c_lock = omega (arith, m);
          p_range = omega (arith, m);
          c_range = omega (arith, m);
          turn = h.turn;
          items = h.items;
        }))
  ]
    where
      m : IsMove (push_lock x) (push_store x) r.threads (set r.threads i (push_store x))
      m = set-IsMove r.threads i _ _ e

  pub push_store-Keeps :
      (x : ℕ) → get_elem? r.threads i ≡ some (push_store x) → Keeps (store_item r i x)
  unfolding store_item
  push_store-Keeps x e =
      rw
        (
          store_item,
          get_elem?-some r.queue r.p_pos (omega (arith, h.buffer, p_inside (omega (arith, m)))),
        )
        (goes_on _ (suc n) (record {
          positive = h.positive;
          buffer = length-set r.queue r.p_pos x ∙ h.buffer;
          free = omega (arith, m);
          filled = omega (arith, m);
          p_lock = omega (arith, m);
          c_lock = omega (arith, m);
          p_range = omega (arith, m);
          c_range = omega (arith, m);
          turn = stored_turn (omega (arith, m));
          items = stored_items (omega (arith, m)) x;
        }))
    where
      m : IsMove (push_store x) push_wrap r.threads (set r.threads i push_wrap)
      m = set-IsMove r.threads i _ _ e

  pub push_wrap-Keeps : get_elem? r.threads i ≡ some push_wrap → Keeps (statement r i push_wrap)
  unfolding statement
  push_wrap-Keeps e = goes_on _ n (record {
    positive = h.positive;
    buffer = h.buffer;
    free = omega (arith, m);
    filled = omega (arith, m);
    p_lock = omega (arith, m);
    c_lock = omega (arith, m);
    p_range = omega (arith, m, mod-lt r.p_pos {m = r.capacity} h.positive);
    c_range = omega (arith, m);
    turn = mod-mod r.p_pos r.capacity ∙ h.turn;
    items = h.items;
  })
    where
      m : IsMove push_wrap push_unlock r.threads (set r.threads i push_unlock)
      m = set-IsMove r.threads i _ _ e

  pub push_unlock-Keeps :
      get_elem? r.threads i ≡ some push_unlock → Keeps (statement r i push_unlock)
  unfolding statement
  push_unlock-Keeps e = goes_on _ n (record {
    positive = h.positive;
    buffer = h.buffer;
    free = omega (arith, m);
    filled = omega (arith, m);
    p_lock = omega (arith, m, h.p_lock, bit_le r.p_mtx);
    c_lock = omega (arith, m);
    p_range = omega (arith, m);
    c_range = omega (arith, m);
    turn = h.turn;
    items = h.items;
  })
    where
      m : IsMove push_unlock push_post r.threads (set r.threads i push_post)
      m = set-IsMove r.threads i _ _ e

  pub push_post-Keeps : get_elem? r.threads i ≡ some push_post → Keeps (statement r i push_post)
  unfolding statement
  push_post-Keeps e = goes_on _ n (record {
    positive = h.positive;
    buffer = h.buffer;
    free = omega (arith, m);
    filled = omega (arith, m);
    p_lock = omega (arith, m);
    c_lock = omega (arith, m);
    p_range = omega (arith, m);
    c_range = omega (arith, m);
    turn = h.turn;
    items = h.items;
  })
    where
      m : IsMove push_post idle r.threads (set r.threads i idle)
      m = set-IsMove r.threads i _ _ e
