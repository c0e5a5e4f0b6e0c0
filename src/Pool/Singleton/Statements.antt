-- ===== src/Pool/Singleton/Statements.antt =====
-- Every statement of `get_instance` (7.10/threadPool/thread_pool.hpp) keeps what makes the pool the only one.
use mathlib.Core.Bool.{true≢false}
use my_linux.Base.{
  ℕ, ◌+◌, ◌≤◌, ◌≡◌, inl, inr, Bool, true, false, some, List, [], ◌∷◌, ◌++◌, if◌then◌else◌, ltb,
  length, get_elem?, set, arith, refl, ap, sym, ◌∙◌, subst, Bool-cases, Option-cases, set_cases,
  ltb→lt, ltb→ge,
}
use my_linux.Base.Totals.{total-set}
use my_linux.Pool.Singleton.{
  Workers, init_workers, Caller, away, first_check, static_lock, second_check, new_pool, init_pool,
  start_worker, static_unlock, return_instance, got, PoolClass, ClassOutcome, went, caller_goes,
  is_null, with_instance, start_thread, get_instance,
}
use my_linux.Pool.Singleton.Once.{
  bit, crew, init_workers_lem, length-crew, start_thread-crew, crew_all, Fits, holding, IsOnce,
  Keeps, waits, keeps, quiet-IsOnce, holder-IsOnce,
}

module _ (creates : ℕ → Bool) (s : PoolClass) (h : IsOnce creates s) (i : ℕ) where
  -- What `_instance` points to, when it is the only pool.
  with_only :
      (ths : Workers) (k : ℕ → Workers → ClassOutcome)
      → s.instance_ptr ≡ some 0
      → s.heap ≡ ths ∷ []
      → with_instance s k ≡ k 0 ths
  unfolding with_instance
  with_only ths k p q = rw (with_instance, p, q) refl

  first_check-Keeps :
      get_elem? s.callers i ≡ some first_check
      → Keeps creates (get_instance creates s i first_check)
  unfolding get_instance
  first_check-Keeps e = elim (Option-cases s.instance_ptr) [
    | inl p ↦
        rw (ap is_null p) (keeps _ (quiet-IsOnce creates s h i first_check static_lock e refl tt))
    | inr (a, p) ↦ rw (ap is_null p) (
        keeps _ (
          quiet-IsOnce creates s h i first_check return_instance e refl
            (p ∙ ap (λ (b : ℕ). some b) (h.only a p))))
  ]

  static_lock-Keeps :
      get_elem? s.callers i ≡ some static_lock
      → Keeps creates (get_instance creates s i static_lock)
  unfolding get_instance
  static_lock-Keeps e = elim (Bool-cases s.static_mtx) [
    | inl m ↦ rw m waits
    | inr m ↦ rw m (
        keeps _ (record {
          owner = omega (arith, h.owner, ap bit m, total-set holding s.callers i _ second_check e);
          fits = λ j c g. elim (set_cases s.callers i j second_check c g) [
            | inl p ↦ subst (Fits creates s.instance_ptr s.heap s.cap) (sym p.1) (h.settled m)
            | inr p ↦ h.fits j c p.1
          ];
          only = h.only;
          settled = λ z. absurd (true≢false z);
        }))
  ]

  second_check-Keeps :
      get_elem? s.callers i ≡ some second_check
      → Keeps creates (get_instance creates s i second_check)
  unfolding get_instance
  second_check-Keeps e = elim (h.fits i second_check e) [
    | inl (p, q) ↦
        rw (ap is_null p) (keeps _ (quiet-IsOnce creates s h i second_check new_pool e refl (p, q)))
    | inr (p, q) ↦
        rw (ap is_null p)
          (keeps _ (quiet-IsOnce creates s h i second_check static_unlock e refl (p, q)))
  ]

  new_pool-Keeps :
      get_elem? s.callers i ≡ some new_pool → Keeps creates (get_instance creates s i new_pool)
  unfolding get_instance
  new_pool-Keeps e =
      let (p, q) = h.fits i new_pool e in
      keeps _ (
        holder-IsOnce creates s h i new_pool init_pool (some (length s.heap)) (s.heap ++ ([] ∷ []))
          e refl refl (ap (λ (l : List Workers). some (length l)) q)
          (
            ap (λ (l : List Workers). some (length l)) q,
            ap (λ (l : List Workers). l ++ ([] ∷ [])) q,
          ))

  init_pool-Keeps :
      get_elem? s.callers i ≡ some init_pool → Keeps creates (get_instance creates s i init_pool)
  unfolding get_instance
  init_pool-Keeps e =
      let (p, q) = h.fits i init_pool e in
      rw
        (with_only []
          (λ a ths. went (record (caller_goes s i (start_worker 0)) {
            heap = set s.heap a (init_workers s.cap 0 ths);
          }))
          p q)
        (keeps _ (
          holder-IsOnce creates s h i init_pool (start_worker 0) s.instance_ptr
            (set s.heap 0 (init_workers s.cap 0 [])) e refl refl p
            (
              p,
              ap (λ (l : List Workers). set l 0 (init_workers s.cap 0 [])) q
                  ∙ ap (λ (ths : Workers). ths ∷ []) (init_workers_lem creates s.cap 0 []),
            )))

  start_worker-Keeps :
      (k : ℕ)
      → get_elem? s.callers i ≡ some (start_worker k)
      → Keeps creates (get_instance creates s i (start_worker k))
  unfolding get_instance
  start_worker-Keeps k e =
      let (p, q) = h.fits i (start_worker k) e in
      rw
        (with_only (crew creates k s.cap 0)
          (λ a ths. went (
            if ltb k (length ths)
            then record (caller_goes s i (start_worker (k + 1))) {
              heap = set s.heap a (start_thread creates ths k);
            }
            else caller_goes s i static_unlock))
          p q)
        (turn p q)
    where
      turn :
          s.instance_ptr ≡ some 0
          → s.heap ≡ crew creates k s.cap 0 ∷ []
          → Keeps creates (
              went (
                if ltb k (length (crew creates k s.cap 0))
                then record (caller_goes s i (start_worker (k + 1))) {
                  heap = set s.heap 0 (start_thread creates (crew creates k s.cap 0) k);
                }
                else caller_goes s i static_unlock))
      turn p q = elim (Bool-cases (ltb k (length (crew creates k s.cap 0)))) [
        | inl t ↦ rw t (
            keeps _ (
              holder-IsOnce creates s h i (start_worker k) (start_worker (k + 1)) s.instance_ptr
                (set s.heap 0 (start_thread creates (crew creates k s.cap 0) k)) e refl refl p
                (
                  p,
                  ap
                        (λ (l : List Workers).
                          set l 0 (start_thread creates (crew creates k s.cap 0) k))
                        q
                      ∙ ap (λ (ths : Workers). ths ∷ [])
                          (start_thread-crew creates k s.cap 0 (
                              omega (
                                arith,
                                ltb→lt k (length (crew creates k s.cap 0)) t,
                                length-crew creates k s.cap 0,
                              ))
                            ∙ ap (λ (m : ℕ). crew creates m s.cap 0) (omega arith)),
                )))
        | inr t ↦ rw t (
            keeps _ (
              quiet-IsOnce creates s h i (start_worker k) static_unlock e refl (
                p,
                q
                    ∙ ap (λ (ths : Workers). ths ∷ [])
                        (crew_all creates k s.cap 0 (
                          omega (
                            arith,
                            ltb→ge k (length (crew creates k s.cap 0)) t,
                            length-crew creates k s.cap 0,
                          ))),
              )))
      ]

  static_unlock-Keeps :
      get_elem? s.callers i ≡ some static_unlock
      → Keeps creates (get_instance creates s i static_unlock)
  unfolding get_instance
  static_unlock-Keeps e =
      let (p, q) = h.fits i static_unlock e in
      keeps _ (record {
        owner = omega (
          arith,
          h.owner,
          bit_le s.static_mtx,
          total-set holding s.callers i _ return_instance e,
        );
        fits = λ j c g. elim (set_cases s.callers i j return_instance c g) [
          | inl r ↦ subst (Fits creates s.instance_ptr s.heap s.cap) (sym r.1) p
          | inr r ↦ h.fits j c r.1
        ];
        only = h.only;
        settled = λ z. inr (p, q);
      })
    where
      bit_le : (b : Bool) → bit b ≤ 1
      bit_le true = omega arith
      bit_le false = omega arith

  return_instance-Keeps :
      get_elem? s.callers i ≡ some return_instance
      → Keeps creates (get_instance creates s i return_instance)
  unfolding get_instance
  return_instance-Keeps e =
      let p = h.fits i return_instance e in
      keeps _ (quiet-IsOnce creates s h i return_instance (got s.instance_ptr) e refl (p, p))

  pub get_instance-Keeps :
      (c : Caller) → get_elem? s.callers i ≡ some c → Keeps creates (get_instance creates s i c)
  unfolding get_instance
  get_instance-Keeps away e = waits
  get_instance-Keeps first_check e = first_check-Keeps e
  get_instance-Keeps static_lock e = static_lock-Keeps e
  get_instance-Keeps second_check e = second_check-Keeps e
  get_instance-Keeps new_pool e = new_pool-Keeps e
  get_instance-Keeps init_pool e = init_pool-Keeps e
  get_instance-Keeps (start_worker k) e = start_worker-Keeps k e
  get_instance-Keeps static_unlock e = static_unlock-Keeps e
  get_instance-Keeps return_instance e = return_instance-Keeps e
  get_instance-Keeps (got a) e = waits
