-- ===== src/Ring.antt =====
-- 7.9/sem/RingQueue.hpp: a ring of fixed capacity between any number of producers and consumers, with
-- two semaphores and two mutexes. A thread runs one statement at a time, and the statements of
-- different threads come in any order.
pub mod Slots
pub mod Counts
pub mod Invariant
use my_linux.Base.{
  ℕ, zero, suc, ◌+◌, ◌-◌, ◌%◌, Bool, true, false, Option, none, some, List, [], ◌∷◌, ◌++◌, ltb,
  if◌then◌else◌, get_elem?, set, replicate,
}

-- Where a thread stands: outside, or before the statement of `push` or `pop` that the name says. Items are
-- only moved, so any number stands for one.
pub data Pc : Type 0 where
  idle : Pc
  push_wait push_lock push_store : ℕ → Pc
  push_wrap push_unlock push_post : Pc
  pop_wait pop_lock pop_load : Pc
  pop_wrap pop_unlock pop_post : ℕ → Pc

-- `class RingQueue` with its threads. The last two fields are for the proofs alone: all the items
-- stored and all those loaded, in order.
pub record Ring : Type 0 where
  pub queue : List ℕ
  pub capacity : ℕ
  pub data_sem : ℕ
  pub space_sem : ℕ
  pub c_pos : ℕ
  pub p_pos : ℕ
  pub c_mtx : Bool
  pub p_mtx : Bool
  pub threads : List Pc
  pub stored : List ℕ
  pub loaded : List ℕ

-- `RingQueue(num)`, and threads that have called nothing yet.
unfoldable pub create : ℕ → ℕ → Ring
create num n = record {
  queue = replicate num 0;
  capacity = num;
  data_sem = 0;
  space_sem = num;
  c_pos = 0;
  p_pos = 0;
  c_mtx = false;
  p_mtx = false;
  threads = replicate n idle;
  stored = [];
  loaded = [];
}

-- A statement that waits, one that reads or writes outside the vector, and one that has run.
pub data Stepped : Type 0 where
  blocked : Stepped
  out_of_range : Stepped
  ran : Ring → Stepped

abbrev pub goes : Ring → ℕ → Pc → Ring
goes r i pc = record r { threads = set r.threads i pc }

-- `sem_wait` on a counter, with what runs when it is above 0; `pthread_mutex_lock` likewise.
abbrev pub sem_wait : ℕ → Stepped → Stepped
sem_wait s on = if ltb 0 s then on else blocked

abbrev pub mutex_lock : Bool → Stepped → Stepped
mutex_lock held on = if held then blocked else on

-- `_Rqueue[_p_pos++] = data`
unfoldable pub store_item : Ring → ℕ → ℕ → Stepped
store_item r i x = elim (get_elem? r.queue r.p_pos) [
  | none ↦ out_of_range
  | some _ ↦ ran (record (goes r i push_wrap) {
    queue = set r.queue r.p_pos x;
    p_pos = r.p_pos + 1;
    stored = r.stored ++ (x ∷ []);
  })
]

-- `*pdata = _Rqueue[_c_pos++]`
unfoldable pub load_item : Ring → ℕ → Stepped
load_item r i = elim (get_elem? r.queue r.c_pos) [
  | none ↦ out_of_range
  | some x ↦
      ran (record (goes r i (pop_wrap x)) { c_pos = r.c_pos + 1; loaded = r.loaded ++ (x ∷ []) })
]

-- The next statement of thread `i`, which stands at `pc`.
unfoldable pub statement : Ring → ℕ → Pc → Stepped
unfolding store_item load_item
statement r i idle = blocked
statement r i (push_wait x) =
    sem_wait r.space_sem (ran (record (goes r i (push_lock x)) { space_sem = r.space_sem - 1 }))
statement r i (push_lock x) =
    mutex_lock r.p_mtx (ran (record (goes r i (push_store x)) { p_mtx = true }))
statement r i (push_store x) = store_item r i x
statement r i push_wrap = ran (record (goes r i push_unlock) { p_pos = r.p_pos % r.capacity })
statement r i push_unlock = ran (record (goes r i push_post) { p_mtx = false })
statement r i push_post = ran (record (goes r i idle) { data_sem = r.data_sem + 1 })
statement r i pop_wait =
    sem_wait r.data_sem (ran (record (goes r i pop_lock) { data_sem = r.data_sem - 1 }))
statement r i pop_lock = mutex_lock r.c_mtx (ran (record (goes r i pop_load) { c_mtx = true }))
statement r i pop_load = load_item r i
statement r i (pop_wrap x) = ran (record (goes r i (pop_unlock x)) { c_pos = r.c_pos % r.capacity })
statement r i (pop_unlock x) = ran (record (goes r i (pop_post x)) { c_mtx = false })
statement r i (pop_post x) = ran (record (goes r i idle) { space_sem = r.space_sem + 1 })

-- What happens next: a thread that is outside calls `push` or `pop`, or a thread runs a statement.
pub data Event : Type 0 where
  calls_push : ℕ → ℕ → Event
  calls_pop : ℕ → Event
  runs : ℕ → Event

abbrev pub enter : Ring → ℕ → Pc → Pc → Stepped
enter r i pc idle = ran (goes r i pc)
enter r i pc _ = blocked

unfoldable pub step : Ring → Event → Stepped
unfolding statement
step r (calls_push i x) = elim (get_elem? r.threads i) [
  | none ↦ blocked
  | some pc ↦ enter r i (push_wait x) pc
]
step r (calls_pop i) = elim (get_elem? r.threads i) [
  | none ↦ blocked
  | some pc ↦ enter r i pop_wait pc
]
step r (runs i) = elim (get_elem? r.threads i) [ none ↦ blocked | some pc ↦ statement r i pc ]

-- A schedule: an event that cannot happen yet is passed over.
unfoldable pub run : Ring → List Event → Stepped
unfolding step
run r [] = ran r
run r (e ∷ es) =
    let skip = run r es in
    elim (step r e) [ blocked ↦ skip | out_of_range ↦ out_of_range | ran s ↦ run s es ]
