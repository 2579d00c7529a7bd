-- ===== src/Timers/Heap/Order.antt =====
-- TimerQueue.cc: the order of the heap by expiration.
use network_lib.Base.{ℕ, zero, suc, ◌<◌, ◌≤◌, ◌≡◌, Option, some, arith, length}
use network_lib.Timers.{TimerQueue}
use network_lib.Timers.Heap.{parent}
use network_lib.Timers.Heap.Swap.{key, Linked, Reordered, Reordered-trans}

-- No timer expires before its parent in the heap.
abbrev pub IsHeap : TimerQueue → Type 0
IsHeap q = (c : ℕ) → 0 < c → c < length q.heap → key q (parent c) ≤ key q c

-- The result `o` of a sift from `q`: it is there, in order and linked, and holds the same timers.
abbrev pub Sifts : Option ℕ → TimerQueue → Option TimerQueue → Type 0
Sifts removed q o = (r : TimerQueue) × (o ≡ some r) × IsHeap r × Linked removed r × Reordered q r

-- A sift that goes on after one exchange.
pub Sifts-trans :
    (removed : Option ℕ) {q r : TimerQueue} (o : Option TimerQueue)
    → Reordered q r
    → Sifts removed r o
    → Sifts removed q o
Sifts-trans removed o first (s, e, h, l, rest) = (s, e, h, l, Reordered-trans first rest)

key_root-le_below :
    (k : ℕ) (q : TimerQueue) (i : ℕ) → IsHeap q → i < k → i < length q.heap → key q 0 ≤ key q i
key_root-le_below zero q i h f p = absurd (omega arith)
key_root-le_below (suc k) q i h f p = ground (arith, h i, key_root-le_below k q (parent i) h)

-- The first entry expires first.
pub key_root-le : (q : TimerQueue) (i : ℕ) → IsHeap q → i < length q.heap → key q 0 ≤ key q i
key_root-le q i h p = key_root-le_below (suc i) q i h (omega arith) p
