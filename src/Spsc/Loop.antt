-- ===== src/Spsc/Loop.antt =====
-- include/stereo_camera/data/SPSCQueue.h: the loop `while (queue.pop(item))` of its users.
use lib_stereo_camera.Common.{
  ℕ, zero, suc, ◌≤◌, ◌≡◌, refl, sym, ap, ◌∙◌, arith, List, [], ◌∷◌, true, Option, none, some, inl,
  inr, ◌⊎◌, length, nil_of_length,
}
use lib_stereo_camera.Spsc.{SpscQueue, pop, empty}
use lib_stereo_camera.Spsc.Refine.{
  IsValid, fifo_pop, contents, length-contents, pop_refines, pop-IsValid, size_refines,
}

-- What `pop` gives: nothing from an empty queue, or the first item.
pub fifo_pop-cases :
    {A : Type 0} (xs : List A) (out : Option A) (ys : List A)
    → (out, ys) ≡ fifo_pop xs
    → ((out ≡ none) × (xs ≡ []) × (ys ≡ [])) ⊎ ((x : A) × (out ≡ some x) × (xs ≡ x ∷ ys))
unfolding fifo_pop
fifo_pop-cases [] out ys e = inl (ap (λ r. r.0) e, refl, ap (λ r. r.1) e)
fifo_pop-cases (x ∷ xs) out ys e =
    inr (x, ap (λ r. r.0) e, ap (λ zs. x ∷ zs) (sym (ap (λ r. r.1) e)))

module _ {A S : Type 0} (dflt : A) (body : A → S → S) where
  -- The loop on fuel; `body` is what is done with an item.
  unfoldable pub pop_all : ℕ → SpscQueue A → S → SpscQueue A × S
  pop_all zero q s = (q, s)
  pop_all (suc fuel) q s =
      let (out, rest) = pop dflt q in
      elim out [ none ↦ (rest, s) | some x ↦ pop_all fuel rest (body x s) ]

  unfoldable pub fold : List A → S → S
  fold [] s = s
  fold (x ∷ xs) s = fold xs (body x s)

  pop_all_lem :
      (fuel : ℕ) {q : SpscQueue A} (s : S)
      → IsValid q
      → length (contents dflt q) ≤ fuel
      → let r = pop_all fuel q s in
        (r.1 ≡ fold (contents dflt q) s) × IsValid r.0 × (contents dflt r.0 ≡ [])
  unfolding pop_all fold
  pop_all_lem zero {q} s v h =
      let none_left = nil_of_length (contents dflt q) (omega arith) in
      (sym (ap (λ xs. fold xs s) none_left), v, none_left)
  pop_all_lem (suc fuel) {q} s v h =
      elim (fifo_pop-cases (contents dflt q) (pop dflt q).0 (contents dflt (pop dflt q).1)
        (pop_refines dflt v)) [
          | inl (out, was, left) ↦
              rw (out, pop_all) (sym (ap (λ xs. fold xs s) was), pop-IsValid dflt v, left)
          | inr (x, out, was) ↦
              let shorter : length (contents dflt (pop dflt q).1) ≤ fuel =
                omega (arith, ap length was) in
              let (rest, valid, left) = pop_all_lem fuel (body x s) (pop-IsValid dflt v) shorter in
              rw (out, pop_all) (rest ∙ sym (ap (λ xs. fold xs s) was), valid, left)
        ]

  -- The capacity of a valid queue is fuel enough: the loop goes through what the queue holds, in
  -- order, and leaves it empty.
  pub pop_all-capacity :
      {q : SpscQueue A} (s : S)
      → IsValid q
      → let r = pop_all q.capacity q s in (r.1 ≡ fold (contents dflt q) s) × (empty r.0 ≡ true)
  pop_all-capacity {q} s v =
      let (same, valid, left) =
        pop_all_lem q.capacity s v (omega (arith, length-contents dflt q, v.held)) in
      (same, (size_refines dflt valid).1.1 left)
