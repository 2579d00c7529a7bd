-- ===== src/ThreadPool/Waiting.antt =====
-- Threadpool.cc: the queue and the two condition variables, over all interleavings of the threads.
use network_lib.Base.{
  ℕ, suc, ◌+◌, ◌≤◌, ◌<◌, ◌≡◌, ◌≢◌, refl, false, some, List, [], ◌∷◌, ◌++◌, arith, length,
  length-append, append_assoc, inl, inr, Bool-cases, ◌==◌,
}
use network_lib.ThreadPool.{
  ThreadPool, make, set_max_queue_size, notify_one, notify_all, wait, resume, is_full, start, stop,
  put, run, pop_front, take,
}

-- The steps of the threads: a caller enters `run`, or goes on there after its wait; a worker enters
-- `take`, or goes on there; a sleeping thread may wake by itself; and the pool is stopped. A worker
-- tests `running_` without the mutex, so that it may enter `take` after `stop`.
pub data Step : ThreadPool → ThreadPool → Type 0 where
  runs : {p : ThreadPool} (f : ℕ) → Step p (run p f)
  puts :
      {p : ThreadPool} (f : ℕ)
      → p.not_full.woken ≢ 0
      → Step p (put (record p { not_full = resume p.not_full }) f)
  enters : {p : ThreadPool} → Step p (take p)
  takes :
      {p : ThreadPool}
      → p.not_empty.woken ≢ 0
      → Step p (take (record p { not_empty = resume p.not_empty }))
  stirs : {p : ThreadPool} → Step p (record p { not_empty = notify_one p.not_empty })
  stirs_full : {p : ThreadPool} → Step p (record p { not_full = notify_one p.not_full })
  stops : {p : ThreadPool} → Step p (stop p)

pub data Reach (p : ThreadPool) : ThreadPool → Type 0 where
  here : Reach p p
  next : {q r : ThreadPool} → Reach p q → Step q r → Reach p r

pub record IsSound (p : ThreadPool) : Type 0 where
  pub fifo : p.added ≡ p.taken ++ p.queue
  pub bounded : 0 < p.max_queue_size → length p.queue ≤ p.max_queue_size
  pub fed : 0 < p.not_empty.sleeping → length p.queue ≤ p.not_empty.woken
  pub roomy : 0 < p.not_full.sleeping → p.max_queue_size ≤ length p.queue + p.not_full.woken
  pub over : p.running ≡ false → p.not_empty.sleeping ≡ 0

-- The state in which `put` starts: as in a sound one, but that one woken thread has left.
record IsNearly (p : ThreadPool) : Type 0 where
  fifo : p.added ≡ p.taken ++ p.queue
  bounded : 0 < p.max_queue_size → length p.queue ≤ p.max_queue_size
  fed : 0 < p.not_empty.sleeping → length p.queue ≤ suc p.not_empty.woken
  roomy : 0 < p.not_full.sleeping → p.max_queue_size ≤ suc (length p.queue + p.not_full.woken)
  over : p.running ≡ false → p.not_empty.sleeping ≡ 0

nearly : {p : ThreadPool} → IsSound p → IsNearly p
nearly s = record {
  fifo = s.fifo;
  bounded = s.bounded;
  fed = λ h. omega (arith, s.fed h);
  roomy = λ h. omega (arith, s.roomy h);
  over = s.over;
}

put-IsSound :
    (p : ThreadPool) (f : ℕ)
    → IsNearly p
    → (0 < p.not_empty.sleeping → length p.queue ≤ p.not_empty.woken)
    → IsSound (put p f)
unfolding put is_full wait notify_one
put-IsSound p f s fed = record {
  fifo = ground (arith, s.fifo, append_assoc p.taken p.queue (f ∷ []));
  bounded = ground (arith, s.bounded, length-append p.queue (f ∷ []));
  fed = ground (arith, fed, length-append p.queue (f ∷ []));
  roomy = ground (arith, s.roomy, length-append p.queue (f ∷ []));
  over = ground (arith, s.over);
}

taken-take :
    (p : ThreadPool) (xs : List ℕ)
    → p.queue ≡ xs
    → (take p).taken ++ (take p).queue ≡ p.taken ++ p.queue
unfolding take pop_front
taken-take p [] e = ground (arith, e)
taken-take p (x ∷ xs) e = ground (arith, e, append_assoc p.taken (x ∷ []) xs)

take-IsSound :
    (p : ThreadPool)
    → IsNearly p
    → (0 < p.not_full.sleeping → p.max_queue_size ≤ length p.queue + p.not_full.woken)
    → IsSound (take p)
unfolding take pop_front wait notify_one
take-IsSound p s roomy = record {
  fifo = ground (arith, s.fifo, taken-take p p.queue refl);
  bounded = ground (arith, s.bounded);
  fed = ground (arith, s.fed);
  roomy = ground (arith, roomy);
  over = ground (arith, s.over);
}

-- Waking a thread changes only who waits.
notify_one-IsSound :
    (p : ThreadPool)
    → IsSound p
    → IsSound (record p { not_empty = notify_one p.not_empty })
      × IsSound (record p { not_full = notify_one p.not_full })
unfolding notify_one
notify_one-IsSound p s = (
  record {
    fifo = s.fifo;
    bounded = s.bounded;
    fed = ground (arith, s.fed);
    roomy = s.roomy;
    over = ground (arith, s.over);
  },
  record {
    fifo = s.fifo;
    bounded = s.bounded;
    fed = s.fed;
    roomy = ground (arith, s.roomy);
    over = s.over;
  },
)

run-IsSound : (p : ThreadPool) (f : ℕ) → IsSound p → IsSound (run p f)
unfolding run
run-IsSound p f s = elim (Bool-cases (p.threads == 0)) [
  | inl alone ↦
      let at : run p f ≡ record p { called = p.called ++ f ∷ [] } = ground arith in
      rw at
        (record { fifo = s.fifo; bounded = s.bounded; fed = s.fed; roomy = s.roomy; over = s.over })
  | inr pooled ↦
      let at : run p f ≡ put p f = ground arith in rw at (put-IsSound p f (nearly s) s.fed)
]

stop-IsSound : (p : ThreadPool) → IsSound p → IsSound (stop p)
unfolding stop notify_all
stop-IsSound p s = record {
  fifo = s.fifo;
  bounded = s.bounded;
  fed = λ h. absurd (omega arith);
  roomy = s.roomy;
  over = λ h. refl;
}

Step-IsSound : {p q : ThreadPool} → Step p q → IsSound p → IsSound q
unfolding resume
Step-IsSound {p} (runs f) s = run-IsSound p f s
Step-IsSound {p} (puts f w) s =
    let left : ThreadPool = record p { not_full = resume p.not_full } in
    put-IsSound left f
      (record {
        fifo = s.fifo;
        bounded = s.bounded;
        fed = λ h. omega (arith, s.fed h);
        roomy = λ h. omega (arith, s.roomy h, w);
        over = s.over;
      })
      s.fed
Step-IsSound {p} enters s = take-IsSound p (nearly s) s.roomy
Step-IsSound {p} (takes w) s =
    let left : ThreadPool = record p { not_empty = resume p.not_empty } in
    take-IsSound left
      (record {
        fifo = s.fifo;
        bounded = s.bounded;
        fed = λ h. omega (arith, s.fed h, w);
        roomy = λ h. omega (arith, s.roomy h);
        over = s.over;
      })
      s.roomy
Step-IsSound {p} stirs s = (notify_one-IsSound p s).0
Step-IsSound {p} stirs_full s = (notify_one-IsSound p s).1
Step-IsSound {p} stops s = stop-IsSound p s

Reach-IsSound : {p q : ThreadPool} → IsSound p → Reach p q → IsSound q
Reach-IsSound s here = s
Reach-IsSound s (next r step) = Step-IsSound step (Reach-IsSound s r)

start-IsSound :
    (size num_threads : ℕ) (p : ThreadPool)
    → start (set_max_queue_size make size) num_threads ≡ some p
    → IsSound p
unfolding start make set_max_queue_size
start-IsSound size num_threads p e = record {
  fifo = ground arith;
  bounded = ground arith;
  fed = ground arith;
  roomy = ground arith;
  over = ground arith;
}

module _ (size num_threads : ℕ) (p : ThreadPool)
    (started : start (set_max_queue_size make size) num_threads ≡ some p) where
  -- However the threads of a started pool are interleaved, each task that was put into the queue
  -- was taken once or is still in it, in the order of the puts, and a bounded queue stays within its
  -- bound.
  pub Reach-taken :
      (q : ThreadPool)
      → Reach p q
      → (q.added ≡ q.taken ++ q.queue) × (0 < q.max_queue_size → length q.queue ≤ q.max_queue_size)
  Reach-taken q r =
      let s = Reach-IsSound (start-IsSound size num_threads p started) r in (s.fifo, s.bounded)

  -- No wakeup of a started pool is lost: while a worker sleeps, at least as many workers have been
  -- woken as there are tasks in the queue, and while a caller of `run` sleeps, at least as many
  -- callers have been woken as there are free places.
  pub Reach-woken :
      (q : ThreadPool)
      → Reach p q
      → (0 < q.not_empty.sleeping → length q.queue ≤ q.not_empty.woken)
        × (0 < q.not_full.sleeping → q.max_queue_size ≤ length q.queue + q.not_full.woken)
  Reach-woken q r =
      let s = Reach-IsSound (start-IsSound size num_threads p started) r in (s.fed, s.roomy)

  -- Once a started pool is stopped, no worker sleeps in `take`.
  Reach-stopped : (q : ThreadPool) → Reach p q → q.running ≡ false → q.not_empty.sleeping ≡ 0
  Reach-stopped q r = (Reach-IsSound (start-IsSound size num_threads p started) r).over
