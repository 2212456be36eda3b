-- ===== src/Admin/Pool.antt =====
-- src/api/AdminServer.cpp: the accept thread, the workers and the queue between them, in any order of
-- their steps. A connection is a number. The wait of a worker under the lock is one step.
pub mod Order
pub mod Left
use lib_stereo_camera.Common.{
  ℕ, zero, suc, ◌≡◌, List, [], ◌∷◌, ◌++◌, Bool, true, false, Option, none, some, get_or, set, ◌<◌,
  length, replicate,
}

-- Where a worker stands: at the head of its loop, in the loop, with a connection, or at its end.
pub data Worker : Type 0 where
  at_head in_loop finished : Worker
  handling : ℕ → Worker

-- The accept thread: at the head of its loop, past its test, or at its end.
pub data Acceptor : Type 0 where
  at_test accepting ended : Acceptor

-- The threads and what they share, with the connections that were accepted, taken and answered, each in
-- order.
pub record Pool : Type 0 where
  pub running : Bool
  pub pending : List ℕ
  pub workers : List Worker
  pub acceptor : Acceptor
  pub accepted : List ℕ
  pub taken : List ℕ
  pub answered : List ℕ

unfoldable pub new_pool : ℕ → Pool
new_pool worker_count = record {
  running = true;
  pending = [];
  workers = replicate worker_count at_head;
  acceptor = at_test;
  accepted = [];
  taken = [];
  answered = [];
}

abbrev pub worker_at : ℕ → Pool → Worker
worker_at i p = get_or p.workers i finished

abbrev pub put_worker : ℕ → Worker → Pool → Pool
put_worker i w p = record p { workers = set p.workers i w }

pub data Step : Pool → Pool → Type 0 where
  -- The accept thread's test of `running`, on either side.
  accept_next :
      (p : Pool)
      → p.acceptor ≡ at_test
      → p.running ≡ true
      → Step p (record p { acceptor = accepting })
  accept_end :
      (p : Pool) → p.acceptor ≡ at_test → p.running ≡ false → Step p (record p { acceptor = ended })
  -- A connection that was accepted and got through the handshake, or none.
  push_pending :
      (p : Pool) (c : ℕ)
      → p.acceptor ≡ accepting
      → Step p (record p {
        acceptor = at_test;
        pending = p.pending ++ c ∷ [];
        accepted = p.accepted ++ c ∷ [];
      })
  accept_none : (p : Pool) → p.acceptor ≡ accepting → Step p (record p { acceptor = at_test })
  -- A worker's test of `running`.
  worker_next :
      (p : Pool) (i : ℕ)
      → i < length p.workers
      → worker_at i p ≡ at_head
      → p.running ≡ true
      → Step p (put_worker i in_loop p)
  worker_end :
      (p : Pool) (i : ℕ)
      → i < length p.workers
      → worker_at i p ≡ at_head
      → p.running ≡ false
      → Step p (put_worker i finished p)
  -- What a worker does once its wait is over: the queue is empty, when the server has stopped or the wait
  -- timed out, or it takes the first connection.
  wait_stopped :
      (p : Pool) (i : ℕ)
      → i < length p.workers
      → worker_at i p ≡ in_loop
      → p.pending ≡ []
      → p.running ≡ false
      → Step p (put_worker i finished p)
  wait_timeout :
      (p : Pool) (i : ℕ)
      → i < length p.workers
      → worker_at i p ≡ in_loop
      → p.pending ≡ []
      → p.running ≡ true
      → Step p (put_worker i at_head p)
  take_front :
      (p : Pool) (i c : ℕ) (rest : List ℕ)
      → i < length p.workers
      → worker_at i p ≡ in_loop
      → p.pending ≡ c ∷ rest
      → Step p (record (put_worker i (handling c) p) { pending = rest; taken = p.taken ++ c ∷ [] })
  -- `handle_connection` comes to its end.
  handled :
      (p : Pool) (i c : ℕ)
      → i < length p.workers
      → worker_at i p ≡ handling c
      → Step p (record (put_worker i at_head p) { answered = p.answered ++ c ∷ [] })
  -- `stop` stores false.
  stop_running : (p : Pool) → Step p (record p { running = false })

pub data Reach (p : Pool) : Pool → Type 0 where
  here : Reach p p
  next : {q r : Pool} → Reach p q → Step q r → Reach p r
