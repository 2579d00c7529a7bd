-- ===== src/LoopPool/Tests.antt =====
-- EventLoopThreadPool.cc: a pool of three loops.
use network_lib.Base.{◌≡◌, refl, true, some, [], ◌∷◌, arith}
use network_lib.LoopPool.{LoopPool}
use network_lib.LoopPool.RoundRobin.{choices, choices-in_turn}

abbrev three : LoopPool
three = record {
  base_loop = 1;
  started = true;
  num_threads = 3;
  next = 2;
  loops = 10 ∷ 20 ∷ 30 ∷ [];
}

choices-in_turn_example : choices 4 three ≡ some (30 ∷ 10 ∷ 20 ∷ 30 ∷ [])
choices-in_turn_example = choices-in_turn 4 three 2 refl (omega arith)
