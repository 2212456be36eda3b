-- ===== src/Admin/Pool/Order.antt =====
-- src/api/AdminServer.cpp: which connections the workers take.
use lib_stereo_camera.Common.{
  ℕ, zero, suc, ◌+◌, ◌≡◌, ◌<◌, refl, sym, ap, ◌∙◌, arith, List, [], ◌∷◌, ◌++◌, append_assoc, get_or,
  set, length, if◌then◌else◌, ◌==◌, replicate,
}
use lib_stereo_camera.Admin.Pool.{
  Worker, at_head, in_loop, finished, handling, Pool, new_pool, worker_at, put_worker, Step,
  accept_next, accept_end, push_pending, accept_none, worker_next, worker_end, wait_stopped,
  wait_timeout, take_front, handled, stop_running, Reach, here, next,
}

-- How often a connection stands in a list, and how many workers hold it.
unfoldable pub count : ℕ → List ℕ → ℕ
count c [] = 0
count c (d ∷ ds) = (if c == d then 1 else 0) + count c ds

abbrev pub holds_one : ℕ → Worker → ℕ
holds_one c (handling d) = if c == d then 1 else 0
holds_one c _ = 0

unfoldable pub held : ℕ → List Worker → ℕ
held c [] = 0
held c (w ∷ ws) = holds_one c w + held c ws

count-append : (c : ℕ) (xs ys : List ℕ) → count c (xs ++ ys) ≡ count c xs + count c ys
unfolding count
count-append c [] ys = omega arith
count-append c (x ∷ xs) ys = omega (arith, count-append c xs ys)

-- A worker that is put in the place of another.
held-set :
    (c : ℕ) (ws : List Worker) (i : ℕ) (w : Worker)
    → i < length ws
    → held c (set ws i w) + holds_one c (get_or ws i finished) ≡ held c ws + holds_one c w
unfolding held
held-set c [] i w h = absurd (omega arith)
held-set c (v ∷ ws) zero w h = omega arith
held-set c (v ∷ ws) (suc i) w h = omega (arith, held-set c ws i w (omega arith))

-- The connections are taken in the order in which they were accepted, and each that was taken is
-- answered or held by a worker.
record InOrder (p : Pool) : Type 0 where
  fifo : p.taken ++ p.pending ≡ p.accepted
  once : (c : ℕ) → count c p.taken ≡ count c p.answered + held c p.workers

-- A worker that moves on without a connection.
moved-once :
    (p : Pool) (i : ℕ) (v w : Worker)
    → i < length p.workers
    → worker_at i p ≡ v
    → ((c : ℕ) → holds_one c v ≡ 0)
    → ((c : ℕ) → holds_one c w ≡ 0)
    → (c : ℕ) → held c (set p.workers i w) ≡ held c p.workers
moved-once p i v w lt at_i before after c =
    omega (arith, held-set c p.workers i w lt, ap (holds_one c) at_i, before c, after c)

moved-InOrder :
    (p : Pool) (i : ℕ) (v w : Worker)
    → i < length p.workers
    → worker_at i p ≡ v
    → ((c : ℕ) → holds_one c v ≡ 0)
    → ((c : ℕ) → holds_one c w ≡ 0)
    → InOrder p
    → InOrder (put_worker i w p)
moved-InOrder p i v w lt at_i before after inv = record {
  fifo = inv.fifo;
  once = λ c.
      inv.once c
      ∙ ap (λ n. count c p.answered + n) (sym (moved-once p i v w lt at_i before after c));
}

Step-InOrder : {p q : Pool} → Step p q → InOrder p → InOrder q
unfolding count
Step-InOrder (accept_next p a r) v = record { fifo = v.fifo; once = v.once }
Step-InOrder (accept_end p a r) v = record { fifo = v.fifo; once = v.once }
Step-InOrder (push_pending p c a) v = record {
  fifo = sym (append_assoc p.taken p.pending (c ∷ [])) ∙ ap (λ xs. xs ++ c ∷ []) v.fifo;
  once = v.once;
}
Step-InOrder (accept_none p a) v = record { fifo = v.fifo; once = v.once }
Step-InOrder (worker_next p i lt at_i r) v =
    moved-InOrder p i at_head in_loop lt at_i (λ c. refl) (λ c. refl) v
Step-InOrder (worker_end p i lt at_i r) v =
    moved-InOrder p i at_head finished lt at_i (λ c. refl) (λ c. refl) v
Step-InOrder (wait_stopped p i lt at_i e r) v =
    moved-InOrder p i in_loop finished lt at_i (λ c. refl) (λ c. refl) v
Step-InOrder (wait_timeout p i lt at_i e r) v =
    moved-InOrder p i in_loop at_head lt at_i (λ c. refl) (λ c. refl) v
Step-InOrder (take_front p i c rest lt at_i e) v = record {
  fifo = append_assoc p.taken (c ∷ []) rest ∙ ap (λ xs. p.taken ++ xs) (sym e) ∙ v.fifo;
  once = λ d. omega (
    arith,
    v.once d,
    count-append d p.taken (c ∷ []),
    held-set d p.workers i (handling c) lt,
    ap (holds_one d) at_i,
  );
}
Step-InOrder (handled p i c lt at_i) v = record {
  fifo = v.fifo;
  once = λ d. omega (
    arith,
    v.once d,
    count-append d p.answered (c ∷ []),
    held-set d p.workers i at_head lt,
    ap (holds_one d) at_i,
  );
}
Step-InOrder (stop_running p) v = record { fifo = v.fifo; once = v.once }

held-replicate : (c n : ℕ) → held c (replicate n at_head) ≡ 0
unfolding held
held-replicate c zero = refl
held-replicate c (suc n) = omega (arith, held-replicate c n)

Reach-InOrder : {p q : Pool} → InOrder p → Reach p q → InOrder q
Reach-InOrder v here = v
Reach-InOrder v (next r st) = Step-InOrder st (Reach-InOrder v r)

-- However the threads take turns, the workers take the connections in the order in which they were
-- accepted, those that wait come after those that were taken, and every connection was taken as often as
-- it was answered or is being handled.
pub taken_in_order :
    (worker_count : ℕ) {q : Pool}
    → Reach (new_pool worker_count) q
    → (q.taken ++ q.pending ≡ q.accepted)
      × ((c : ℕ) → count c q.taken ≡ count c q.answered + held c q.workers)
unfolding new_pool count
taken_in_order worker_count r =
    let v =
      Reach-InOrder
        (record { fifo = refl; once = λ c. omega (arith, held-replicate c worker_count) }) r in
    (v.fifo, v.once)
