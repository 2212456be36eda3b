-- ===== src/Admin/Pool/Left.antt =====
-- src/api/AdminServer.cpp: which connections are left when the server stops.
use lib_stereo_camera.Common.{
  ℕ, ◌≡◌, ◌≢◌, ◌<◌, refl, sym, ap, ◌∙◌, List, [], ◌∷◌, ◌++◌, append_assoc, append-nil, false,
  get_or, set, length, get_or-set_self, get_or-set_ne, ℕ_discrete,
}
use lib_stereo_camera.Admin.Pool.{
  Worker, at_head, in_loop, finished, Pool, worker_at, put_worker, Step, accept_next, accept_end,
  push_pending, accept_none, worker_next, worker_end, wait_stopped, wait_timeout, take_front,
  handled, stop_running, Reach, here, next,
}

-- Stopped, and no worker past the test of its loop: connections only join the queue.
record IsLeft (p q : Pool) : Type 0 where
  stopped : q.running ≡ false
  away : (i : ℕ) → worker_at i q ≢ in_loop
  waiting : (more : List ℕ) × (q.pending ≡ p.pending ++ more)
  same : q.taken ≡ p.taken

put-away :
    (q : Pool) (i : ℕ) (w : Worker)
    → i < length q.workers
    → ((j : ℕ) → worker_at j q ≢ in_loop)
    → w ≢ in_loop
    → (j : ℕ) → worker_at j (put_worker i w q) ≢ in_loop
put-away q i w lt away no_loop j e = elim (ℕ_discrete i j) [
  | yes same ↦ no_loop (
      sym (get_or-set_self q.workers i w finished lt)
      ∙ ap (λ k. get_or (set q.workers i w) k finished) same
      ∙ e)
  | no differ ↦ away j (sym (get_or-set_ne q.workers i j w finished differ) ∙ e)
]

Step-IsLeft : {p q r : Pool} → Step q r → IsLeft p q → IsLeft p r
Step-IsLeft (accept_next q a run) v = absurd (cc (run, v.stopped))
Step-IsLeft (accept_end q a run) v = record {
  stopped = v.stopped;
  away = v.away;
  waiting = v.waiting;
  same = v.same;
}
Step-IsLeft {p} (push_pending q c a) v =
    let (more, e) = v.waiting in
    record {
      stopped = v.stopped;
      away = v.away;
      waiting = (more ++ c ∷ [], ap (λ xs. xs ++ c ∷ []) e ∙ append_assoc p.pending more (c ∷ []));
      same = v.same;
    }
Step-IsLeft (accept_none q a) v = record {
  stopped = v.stopped;
  away = v.away;
  waiting = v.waiting;
  same = v.same;
}
Step-IsLeft (worker_next q i lt at_i run) v = absurd (cc (run, v.stopped))
Step-IsLeft (worker_end q i lt at_i run) v = record {
  stopped = v.stopped;
  away = put-away q i finished lt v.away (λ e. cc);
  waiting = v.waiting;
  same = v.same;
}
Step-IsLeft (wait_stopped q i lt at_i e run) v = absurd (v.away i at_i)
Step-IsLeft (wait_timeout q i lt at_i e run) v = absurd (v.away i at_i)
Step-IsLeft (take_front q i c rest lt at_i e) v = absurd (v.away i at_i)
Step-IsLeft (handled q i c lt at_i) v = record {
  stopped = v.stopped;
  away = put-away q i at_head lt v.away (λ e. cc);
  waiting = v.waiting;
  same = v.same;
}
Step-IsLeft (stop_running q) v = record {
  stopped = refl;
  away = v.away;
  waiting = v.waiting;
  same = v.same;
}

Reach-IsLeft : {p q r : Pool} → IsLeft p q → Reach q r → IsLeft p r
Reach-IsLeft v here = v
Reach-IsLeft v (next r st) = Step-IsLeft st (Reach-IsLeft v r)

-- Once the server has been stopped and no worker is past the test of its loop, the connections that wait
-- are never taken, however the threads go on.
pub stop_leaves_pending :
    (p : Pool) {q : Pool}
    → p.running ≡ false
    → ((i : ℕ) → worker_at i p ≢ in_loop)
    → Reach p q
    → (q.taken ≡ p.taken) × ((more : List ℕ) × (q.pending ≡ p.pending ++ more))
stop_leaves_pending p stopped away r =
    let v =
      Reach-IsLeft {p = p}
        (record {
          stopped = stopped;
          away = away;
          waiting = ([], sym (append-nil p.pending));
          same = refl;
        })
        r in
    (v.same, v.waiting)
