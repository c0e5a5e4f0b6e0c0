-- ===== src/Pool/Singleton/Once.antt =====
-- `get_instance` of 7.10/threadPool/thread_pool.hpp makes one pool, however its callers interleave.
use mathlib.Core.Option.{some-injective}
use my_linux.Base.{
  ℕ, zero, suc, ◌+◌, ◌≤◌, ◌<◌, ◌≡◌, ◌⊎◌, inl, inr, Bool, true, false, Option, none, some, List, [],
  ◌∷◌, ◌++◌, if◌then◌else◌, length, get_elem?, arith, refl, ap, sym, ◌∙◌, subst, Option-cases,
  set_cases, append-nil, append_assoc,
}
use my_linux.Base.Totals.{total, total-set, weights_le, weight_le}
use my_linux.Pool.Singleton.{
  Thread, thread, running, Workers, init_workers, Caller, away, first_check, static_lock,
  second_check, new_pool, init_pool, start_worker, static_unlock, return_instance, got, PoolClass,
  ClassOutcome, blocked, went, caller_goes, start_thread,
}

abbrev pub bit : Bool → ℕ
bit b = if b then 1 else 0

-- 1 while the caller holds the static mutex.
abbrev pub holding : Caller → ℕ
holding second_check = 1
holding new_pool = 1
holding init_pool = 1
holding (start_worker k) = 1
holding static_unlock = 1
holding _ = 0

module _ (creates : ℕ → Bool) where
  -- A worker that has been started: it has a thread of the system if that could be created, and is taken for one
  -- that runs in either case.
  abbrev pub begun : ℕ → Thread
  begun number = record { number = number; created = creates number; status = running }

  -- `n` threads with the numbers after `i`, of which the first `k` have been started.
  abbrev pub crew : ℕ → ℕ → ℕ → Workers
  crew k zero i = []
  crew zero (suc n) i = thread (i + 1) ∷ crew zero n (i + 1)
  crew (suc k) (suc n) i = begun (i + 1) ∷ crew k n (i + 1)

  pub init_workers_lem : (n i : ℕ) (ths : Workers) → init_workers n i ths ≡ ths ++ crew 0 n i
  unfolding init_workers
  init_workers_lem zero i ths = sym (append-nil ths)
  init_workers_lem (suc n) i ths =
      init_workers_lem n (i + 1) (ths ++ (thread (i + 1) ∷ []))
      ∙ append_assoc ths (thread (i + 1) ∷ []) (crew 0 n (i + 1))

  pub length-crew : (k n i : ℕ) → length (crew k n i) ≡ n
  length-crew k zero i = refl
  length-crew zero (suc n) i = ap suc (length-crew zero n (i + 1))
  length-crew (suc k) (suc n) i = ap suc (length-crew k n (i + 1))

  start_thread-cons :
      (th : Thread) (ths : Workers) (k : ℕ)
      → start_thread creates (th ∷ ths) (suc k) ≡ th ∷ start_thread creates ths k
  unfolding start_thread
  start_thread-cons th ths k = elim (Option-cases (get_elem? ths k)) [
    | inl e ↦ rw (start_thread, e) refl
    | inr (x, e) ↦ rw (start_thread, e) refl
  ]

  pub start_thread-crew :
      (k n i : ℕ) → k < n → start_thread creates (crew k n i) k ≡ crew (suc k) n i
  unfolding start_thread
  start_thread-crew k zero i l = absurd (omega (arith, l))
  start_thread-crew zero (suc n) i l = refl
  start_thread-crew (suc k) (suc n) i l =
      start_thread-cons (begun (i + 1)) (crew k n (i + 1)) k
      ∙ ap (λ (ths : Workers). begun (i + 1) ∷ ths)
          (start_thread-crew k n (i + 1) (omega (arith, l)))

  pub crew_all : (k n i : ℕ) → n ≤ k → crew k n i ≡ crew n n i
  crew_all k zero i l = refl
  crew_all zero (suc n) i l = absurd (omega (arith, l))
  crew_all (suc k) (suc n) i l =
      ap (λ (ths : Workers). begun (i + 1) ∷ ths) (crew_all k n (i + 1) (omega (arith, l)))

  -- No pool, or one whose workers have all been started, each with a thread of the system if that could be created.
  abbrev pub Settled : Option ℕ → List Workers → ℕ → Type 0
  Settled ptr heap cap =
      ((ptr ≡ none) × (heap ≡ [])) ⊎ ((ptr ≡ some 0) × (heap ≡ crew cap cap 0 ∷ []))

  -- What a caller relies on at its place.
  abbrev pub Fits : Option ℕ → List Workers → ℕ → Caller → Type 0
  Fits ptr heap cap second_check = Settled ptr heap cap
  Fits ptr heap cap new_pool = (ptr ≡ none) × (heap ≡ [])
  Fits ptr heap cap init_pool = (ptr ≡ some 0) × (heap ≡ [] ∷ [])
  Fits ptr heap cap (start_worker k) = (ptr ≡ some 0) × (heap ≡ crew k cap 0 ∷ [])
  Fits ptr heap cap static_unlock = (ptr ≡ some 0) × (heap ≡ crew cap cap 0 ∷ [])
  Fits ptr heap cap return_instance = ptr ≡ some 0
  Fits ptr heap cap (got a) = (a ≡ some 0) × (ptr ≡ some 0)
  Fits ptr heap cap _ = Unit {0}

  pub record IsOnce (s : PoolClass) : Type 0 where
    pub owner : total holding s.callers ≡ bit s.static_mtx
    pub fits :
        (i : ℕ) (c : Caller) → get_elem? s.callers i ≡ some c → Fits s.instance_ptr s.heap s.cap c
    pub only : (a : ℕ) → s.instance_ptr ≡ some a → a ≡ 0
    pub settled : s.static_mtx ≡ false → Settled s.instance_ptr s.heap s.cap

  -- A caller that does not hold the mutex relies on the pointer alone.
  unheld-Fits :
      (ptr qtr : Option ℕ) (heap heaq : List Workers) (cap : ℕ) (c : Caller)
      → holding c ≡ 0
      → (ptr ≡ some 0 → qtr ≡ some 0)
      → Fits ptr heap cap c
      → Fits qtr heaq cap c
  unheld-Fits ptr qtr heap heaq cap away z f h = h
  unheld-Fits ptr qtr heap heaq cap first_check z f h = h
  unheld-Fits ptr qtr heap heaq cap static_lock z f h = h
  unheld-Fits ptr qtr heap heaq cap return_instance z f h = f h
  unheld-Fits ptr qtr heap heaq cap (got a) z f h = (h.0, f h.1)
  unheld-Fits ptr qtr heap heaq cap _ z f h = absurd (omega (arith, z))

  pub held_le :
      (ptr : Option ℕ) (heap : List Workers) (cap : ℕ) (c : Caller)
      → 0 < holding c
      → Fits ptr heap cap c
      → length heap ≤ 1
  held_le ptr heap cap second_check l (inl h) = omega (arith, ap length h.1)
  held_le ptr heap cap second_check l (inr h) = omega (arith, ap length h.1)
  held_le ptr heap cap new_pool l h = omega (arith, ap length h.1)
  held_le ptr heap cap init_pool l h = omega (arith, ap length h.1)
  held_le ptr heap cap (start_worker k) l h = omega (arith, ap length h.1)
  held_le ptr heap cap static_unlock l h = omega (arith, ap length h.1)
  held_le ptr heap cap _ l h = elim l [ ]

  -- A statement that waits, or one that keeps the invariant.
  pub data Keeps : ClassOutcome → Type 0 where
    waits : Keeps blocked
    keeps : (s : PoolClass) → IsOnce s → Keeps (went s)

  module _ (s : PoolClass) (h : IsOnce s) (i : ℕ) where
    -- The caller goes to another place, and holds the mutex there if it held it before.
    pub quiet-IsOnce :
        (old new : Caller)
        → get_elem? s.callers i ≡ some old
        → holding new ≡ holding old
        → Fits s.instance_ptr s.heap s.cap new
        → IsOnce (caller_goes s i new)
    quiet-IsOnce old new e k f = record {
      owner = omega (arith, h.owner, k, total-set holding s.callers i old new e);
      fits = λ j c g. elim (set_cases s.callers i j new c g) [
        | inl p ↦ subst (Fits s.instance_ptr s.heap s.cap) (sym p.1) f
        | inr p ↦ h.fits j c p.1
      ];
      only = h.only;
      settled = h.settled;
    }

    -- The caller that holds the mutex changes the pointer and the heap.
    pub holder-IsOnce :
        (old new : Caller) (qtr : Option ℕ) (heaq : List Workers)
        → get_elem? s.callers i ≡ some old
        → holding old ≡ 1
        → holding new ≡ 1
        → qtr ≡ some 0
        → Fits qtr heaq s.cap new
        → IsOnce (record (caller_goes s i new) { instance_ptr = qtr; heap = heaq })
    holder-IsOnce old new qtr heaq e k l m f = record {
      owner = omega (arith, h.owner, k, l, total-set holding s.callers i old new e);
      fits = λ j c g. elim (set_cases s.callers i j new c g) [
        | inl p ↦ subst (Fits qtr heaq s.cap) (sym p.1) f
        | inr p ↦
            unheld-Fits s.instance_ptr qtr s.heap heaq s.cap c
              (omega (
                arith,
                k,
                h.owner,
                bit_le s.static_mtx,
                weights_le holding s.callers i j old c p.0 e p.1,
              ))
              (λ _. m) (h.fits j c p.1)
      ];
      only = λ a z. some-injective a 0 (sym z ∙ m);
      settled =
          λ z. absurd (omega (arith, k, h.owner, ap bit z, weight_le holding s.callers i old e));
    }
      where
        bit_le : (b : Bool) → bit b ≤ 1
        bit_le true = omega arith
        bit_le false = omega arith
