-- ===== src/LoopPool.antt =====
-- lotus_project/lotus/net/EventLoopThreadPool.cc: the loops of the pool's threads, and the choice of
-- one for each new connection. A loop is a number; those of the new threads are an argument.
pub mod RoundRobin
mod Tests
use network_lib.Base.{
  ℕ, suc, ◌+◌, Bool, true, false, not, Option, none, some, List, [], ◌∷◌, ◌++◌, length, get_elem?,
  take, leb, if◌then◌else◌, assert, ◌>>=◌, ◌>>◌, ◌==◌, ◌&&◌,
}

pub record LoopPool : Type 0 where
  pub base_loop : ℕ
  pub started : Bool
  pub num_threads : ℕ
  pub next : ℕ
  pub loops : List ℕ

unfoldable pub make : ℕ → LoopPool
make base = record { base_loop = base; started = false; num_threads = 0; next = 0; loops = [] }

unfoldable pub set_thread_num : LoopPool → ℕ → LoopPool
set_thread_num p n = record p { num_threads = n }

-- `new_loops` are what startLoop returns, one for each thread, and `has_callback` says whether there is
-- a callback. The loops for which it is called here are returned; the threads call it for theirs.
unfoldable pub start : LoopPool → Bool → List ℕ → Option (List ℕ × LoopPool)
start p has_callback new_loops = do
  assert (not p.started)
  some (
    (if p.num_threads == 0 && has_callback then p.base_loop ∷ [] else []),
    record p { started = true; loops = p.loops ++ take p.num_threads new_loops },
  )

-- An index past the loops is a fault.
unfoldable pub get_next_loop : LoopPool → Option (ℕ × LoopPool)
get_next_loop p =
    let chosen : Option (ℕ × LoopPool) = do
      loop ← get_elem? p.loops p.next
      let after = if leb (length p.loops) (p.next + 1) then 0 else p.next + 1
      some (loop, record p { next = after })
    in if leb (length p.loops) 0 then some (p.base_loop, p) else chosen
