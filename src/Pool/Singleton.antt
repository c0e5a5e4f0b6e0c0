-- ===== src/Pool/Singleton.antt =====
-- 7.10/threadPool/thread_pool.hpp and Thread.hpp: the one pool of the program, which the first call of
-- `get_instance` makes and starts, while other threads call it too.
pub mod Once
pub mod Statements
pub mod Schedules
use mathlib.Core.Option
use my_linux.Base.{
  ℕ, zero, suc, ◌+◌, Bool, true, false, Option, none, some, List, [], ◌∷◌, ◌++◌, if◌then◌else◌, ltb,
  map, length, get_elem?, set, replicate,
}

-- `enum ThreadStatus`
pub data ThreadStatus : Type 0 where
  new_thread running exited : ThreadStatus

-- `class Thread`, by its number, and whether it has a thread of the system in `_tid`; the function and its
-- argument are the same for every worker.
pub record Thread : Type 0 where
  pub number : ℕ
  pub created : Bool
  pub status : ThreadStatus

-- `Thread(number, thread_func, this)`
abbrev pub thread : ℕ → Thread
thread number = record { number = number; created = false; status = new_thread }

-- `run`, where `pthread_create` succeeds or fails, with the same status, and `join`.
abbrev pub run_thread : Bool → Thread → Thread
run_thread ok th = record th { created = ok; status = running }

abbrev pub join_thread : Thread → Thread
join_thread th = record th { status = exited }

-- The threads of a pool object.
abbrev pub Workers : Type 0
Workers = List Thread

-- The loop of `init`, from `i` on.
unfoldable pub init_workers : ℕ → ℕ → Workers → Workers
init_workers zero i ths = ths
init_workers (suc n) i ths = init_workers n (i + 1) (ths ++ (thread (i + 1) ∷ []))

-- `~threadPool` joins every thread.
unfoldable pub join_workers : Workers → Workers
join_workers ths = map join_thread ths

-- Where a caller of `get_instance` stands: away, before the statement that the name says, or back with what
-- it returned. `start_worker k` is the k-th turn of the loop of `startRunning`.
pub data Caller : Type 0 where
  away first_check static_lock second_check new_pool init_pool : Caller
  start_worker : ℕ → Caller
  static_unlock return_instance : Caller
  got : Option ℕ → Caller

-- The static members, with the pool objects on the heap, `_thread_cap`, and the callers. A pointer is the
-- position of its object.
pub record PoolClass : Type 0 where
  pub instance_ptr : Option ℕ
  pub static_mtx : Bool
  pub heap : List Workers
  pub cap : ℕ
  pub callers : List Caller

unfoldable pub no_instance : ℕ → ℕ → PoolClass
no_instance cap n = record {
  instance_ptr = none;
  static_mtx = false;
  heap = [];
  cap = cap;
  callers = replicate n away;
}

-- A statement that waits, one that goes through a null pointer, and one that has run.
pub data ClassOutcome : Type 0 where
  blocked null_pointer : ClassOutcome
  went : PoolClass → ClassOutcome

abbrev pub caller_goes : PoolClass → ℕ → Caller → PoolClass
caller_goes s i c = record s { callers = set s.callers i c }

abbrev pub is_null : Option ℕ → Bool
is_null none = true
is_null (some a) = false

-- What is done with the object that `_instance` points to.
unfoldable pub with_instance : PoolClass → (ℕ → Workers → ClassOutcome) → ClassOutcome
with_instance s k = elim s.instance_ptr [
  | none ↦ null_pointer
  | some a ↦ elim (get_elem? s.heap a) [ none ↦ null_pointer | some ths ↦ k a ths ]
]

-- A caller enters `get_instance`, or runs its next statement there.
pub data ClassEvent : Type 0 where
  enters goes : ℕ → ClassEvent

abbrev pub class_actor : ClassEvent → ℕ
class_actor (enters i) = i
class_actor (goes i) = i

-- `creates` says for which threads, by their numbers, `pthread_create` succeeds.
module _ (creates : ℕ → Bool) where
  -- `th.run()` on the k-th thread.
  unfoldable pub start_thread : Workers → ℕ → Workers
  start_thread ths k = elim (get_elem? ths k) [
    | none ↦ ths
    | some th ↦ set ths k (run_thread (creates th.number) th)
  ]

  -- The next statement of caller `i` in `get_instance`.
  unfoldable pub get_instance : PoolClass → ℕ → Caller → ClassOutcome
  unfolding with_instance init_workers start_thread
  get_instance s i away = blocked
  get_instance s i first_check =
      went (caller_goes s i (if is_null s.instance_ptr then static_lock else return_instance))
  get_instance s i static_lock =
      if s.static_mtx
      then blocked
      else went (record (caller_goes s i second_check) { static_mtx = true })
  get_instance s i second_check =
      went (caller_goes s i (if is_null s.instance_ptr then new_pool else static_unlock))
  get_instance s i new_pool = went (record (caller_goes s i init_pool) {
    instance_ptr = some (length s.heap);
    heap = s.heap ++ ([] ∷ []);
  })
  get_instance s i init_pool = with_instance s (λ a ths.
      went (record (caller_goes s i (start_worker 0)) {
        heap = set s.heap a (init_workers s.cap 0 ths);
      }))
  get_instance s i (start_worker k) = with_instance s (λ a ths. went (
      if ltb k (length ths)
      then record (caller_goes s i (start_worker (k + 1))) {
        heap = set s.heap a (start_thread ths k);
      }
      else caller_goes s i static_unlock))
  get_instance s i static_unlock =
      went (record (caller_goes s i return_instance) { static_mtx = false })
  get_instance s i return_instance = went (caller_goes s i (got s.instance_ptr))
  get_instance s i (got a) = blocked

  abbrev pub class_act : PoolClass → ClassEvent → Caller → ClassOutcome
  class_act s (enters i) away = went (caller_goes s i first_check)
  class_act s (enters i) (got a) = went (caller_goes s i first_check)
  class_act s (enters i) _ = blocked
  class_act s (goes i) c = get_instance s i c

  unfoldable pub class_step : PoolClass → ClassEvent → ClassOutcome
  unfolding get_instance
  class_step s e = elim (get_elem? s.callers (class_actor e)) [
    | none ↦ blocked
    | some c ↦ class_act s e c
  ]

  -- A schedule: an event that cannot happen yet is passed over.
  unfoldable pub class_run : PoolClass → List ClassEvent → ClassOutcome
  unfolding class_step
  class_run s [] = went s
  class_run s (e ∷ es) =
      let skip = class_run s es in
      elim (class_step s e) [
        | blocked ↦ skip
        | null_pointer ↦ null_pointer
        | went t ↦ class_run t es
      ]
