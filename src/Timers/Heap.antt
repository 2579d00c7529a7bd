-- ===== src/Timers/Heap.antt =====
-- lotus_project/lotus/net/TimerQueue.cc: the binary heap of timers, which keeps each timer's own
-- position up to date. Positions stay far below 2^63, so `int64_t` does not overflow. The loops take
-- fuel; with the fuel given here they always end.
pub mod Swap
pub mod Order
pub mod Up
pub mod Down
use network_lib.Base.{
  ℕ, zero, suc, ◌+◌, ◌-◌, ◌*◌, ◌/◌, Bool, Option, none, some, List, [], ◌∷◌, ◌++◌, length,
  get_elem?, set, take, ltb, ◌==◌, ◌||◌, if◌then◌else◌, ◌>>=◌, update,
}
use network_lib.Timers.{Timer, HeapEntry, TimerQueue, load, deref, store_index}

pub swap_heap : TimerQueue → ℕ → ℕ → Option TimerQueue
swap_heap q index1 index2 = do
  tmp ← load q index1
  other ← load q index2
  let swapped = record q { heap = set (set q.heap index1 other) index2 tmp }
  first ← load swapped index1
  marked ← store_index swapped first.timer (some index1)
  second ← load marked index2
  store_index marked second.timer (some index2)

abbrev pub parent : ℕ → ℕ
parent index = (index - 1) / 2

pub up_loop : ℕ → TimerQueue → ℕ → Option TimerQueue
up_loop zero q index = none
up_loop (suc k) q index =
    let rise = swap_heap q index (parent index) >>= λ r. up_loop k r (parent index) in
    let test : Option TimerQueue = do
      below ← load q index
      above ← load q (parent index)
      if ltb below.expiration_time above.expiration_time then rise else some q
    in if ltb 0 index then test else some q

pub up_heap : TimerQueue → ℕ → Option TimerQueue
up_heap q index = up_loop (suc index) q index

-- `||` reads the right child only where there is one.
pub min_child : TimerQueue → ℕ → Option ℕ
min_child q child = if child + 1 == length q.heap then some child else (do
  left ← load q child
  right ← load q (child + 1)
  some (if ltb left.expiration_time right.expiration_time then child else child + 1))

pub down_loop : ℕ → TimerQueue → ℕ → Option TimerQueue
down_loop zero q index = none
down_loop (suc k) q index =
    let child = index * 2 + 1 in
    let sink : Option TimerQueue = do
      lower ← min_child q child
      here ← load q index
      least ← load q lower
      let swapped = swap_heap q index lower >>= λ r. down_loop k r lower
      if ltb here.expiration_time least.expiration_time then some q else swapped
    in if ltb child (length q.heap) then sink else some q

pub down_heap : TimerQueue → ℕ → Option TimerQueue
down_heap q index = down_loop (suc (length q.heap)) q index
