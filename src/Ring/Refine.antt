-- ===== src/Ring/Refine.antt =====
-- A valid ring behaves as the list of its last `capacity` items, oldest first.
use native.Mathlib.Nat.{mod-lt}
use lib_stereo_camera.Common.{
  true, false, Bool-cases, ◌==◌, inl, inr, append-nil, append_assoc, take_last-append, ℕ, zero, suc,
  ◌+◌, ◌-◌, ◌%◌, ◌≤◌, ◌<◌, min, ◌≡◌, ◌≢◌, refl, sym, ap, ap₂, ◌∙◌, arith, List, [], ◌∷◌, ◌++◌,
  length, length-append, get_or, get_or-set_self, get_or-set_ne, drop, set, take_last, last_or, ltb,
  if◌then◌else◌, drop-append, take_last_all, dec_lt,
}
use lib_stereo_camera.Common.Size.{size_mod, sub_size, add_size}
use lib_stereo_camera.Common.Modular.{mod-wrap, mod-add-size_mod, mod-add-ne, step_back}
use lib_stereo_camera.Ring.{
  RingBuffer, make, push, clear, size, get_latest, get_latest_n, latest_loop, slot_back,
}
use lib_stereo_camera.Ring.Invariant.{
  IsValid, capacity_bounds, capacity-Divides, bit_and-mask, push-IsValid,
}

module _ {ℓ} {A : Type ℓ} (dflt : A) where
  -- The items that a ring holds, oldest first.
  unfoldable pub contents : RingBuffer A → List A
  contents r = latest_loop dflt r (size r)

  length-latest_loop : (r : RingBuffer A) (n : ℕ) → length (latest_loop dflt r n) ≡ n
  unfolding latest_loop
  length-latest_loop r zero = refl
  length-latest_loop r (suc n) = ap suc (length-latest_loop r n)

  drop-latest_loop :
      (r : RingBuffer A) (d n : ℕ) → drop d (latest_loop dflt r (d + n)) ≡ latest_loop dflt r n
  unfolding latest_loop
  drop-latest_loop r zero n = ap (latest_loop dflt r) (omega arith)
  drop-latest_loop r (suc d) n =
      ap (λ k. drop (suc d) (latest_loop dflt r k)) {y = suc (d + n)} (omega arith)
      ∙ drop-latest_loop r d n

  -- `size` is the number of items held.
  pub length-contents : (r : RingBuffer A) → length (contents r) ≡ size r
  unfolding contents
  length-contents r = length-latest_loop r (size r)

  pub size-le-capacity : {r : RingBuffer A} → IsValid r → size r ≤ r.capacity
  unfolding size
  size-le-capacity v = v.bounded

  module _ (x : A) {r : RingBuffer A} (v : IsValid r) where
    -- The item just pushed stands one step back.
    slot_back-push_new : slot_back dflt (push x r) 1 ≡ x
    unfolding push
    slot_back-push_new =
        ap₂ (λ a b. get_or (set r.ring a x) b dflt) (bit_and-mask v r.write_idx)
          (bit_and-mask v _ ∙ one_back)
        ∙ get_or-set_self r.ring (r.write_idx % r.capacity) x dflt
            (omega (arith, v.storage, mod-lt r.write_idx {m = r.capacity} (capacity_bounds v).0))
      where
        one_back : sub_size (add_size r.write_idx 1) 1 % r.capacity ≡ r.write_idx % r.capacity
        one_back =
            step_back (capacity-Divides v) r.write_idx 0 v.write_fits (omega arith)
            ∙ mod-wrap (capacity-Divides v) _
            ∙ ap (λ k. k % r.capacity) {y = r.write_idx + size_mod} (omega arith)
            ∙ mod-add-size_mod (capacity-Divides v) r.write_idx

    -- What stood `i` steps back stands one step further back.
    slot_back-push_old :
        (i : ℕ)
        → suc i < r.capacity
        → slot_back dflt (push x r) (suc (suc i)) ≡ slot_back dflt r (suc i)
    unfolding push
    slot_back-push_old i h =
        ap₂ (λ a b. get_or (set r.ring a x) b dflt) (bit_and-mask v r.write_idx)
          (bit_and-mask v _ ∙ further)
        ∙ get_or-set_ne r.ring _ _ x dflt apart
        ∙ ap (λ a. get_or r.ring a dflt) (sym (bit_and-mask v _))
      where
        apart : r.write_idx % r.capacity ≢ sub_size r.write_idx (suc i) % r.capacity
        apart e = mod-add-ne r.capacity (r.write_idx + size_mod - suc i) (suc i) (omega arith) h (
            ap (λ k. k % r.capacity) {y = r.write_idx + size_mod} (omega (arith, capacity_bounds v))
            ∙ mod-add-size_mod (capacity-Divides v) r.write_idx
            ∙ e
            ∙ mod-wrap (capacity-Divides v) _)

        further :
            sub_size (add_size r.write_idx 1) (suc (suc i)) % r.capacity
            ≡ sub_size r.write_idx (suc i) % r.capacity
        further =
            step_back (capacity-Divides v) r.write_idx (suc i) v.write_fits
              (omega (arith, capacity_bounds v))

    latest_loop-push :
        (n : ℕ)
        → n < r.capacity
        → latest_loop dflt (push x r) (suc n) ≡ latest_loop dflt r n ++ x ∷ []
    unfolding latest_loop
    latest_loop-push zero h = ap (λ y. y ∷ []) slot_back-push_new
    latest_loop-push (suc n) h = ap₂ ◌∷◌ (slot_back-push_old n h) (latest_loop-push n (omega arith))

    size-push : size (push x r) ≡ (if ltb (size r) r.capacity then size r + 1 else r.capacity)
    unfolding push size
    size-push = ground (arith, v.bounded, v.write_fits, v.read_fits, capacity_bounds v)

    -- `push` appends the item, and drops the oldest one when the ring is full.
    pub contents-push : contents (push x r) ≡ take_last r.capacity (contents r ++ x ∷ [])
    unfolding contents
    contents-push = elim (dec_lt (size r) r.capacity) [
      | yes room ↦
          ap (latest_loop dflt (push x r)) {y = suc (size r)} (ground (arith, size-push))
          ∙ latest_loop-push (size r) room
          ∙ sym (
              take_last_all r.capacity _ (
                omega (
                  arith,
                  length-append (latest_loop dflt r (size r)) (x ∷ []),
                  length-latest_loop r (size r),
                )))
      | no full ↦
          ap (latest_loop dflt (push x r)) {y = suc (r.capacity - 1)}
            (ground (arith, size-push, capacity_bounds v))
          ∙ latest_loop-push (r.capacity - 1) (omega (arith, capacity_bounds v))
          ∙ ap (λ ys. ys ++ x ∷ [])
              (sym (drop-latest_loop r 1 (r.capacity - 1))
                ∙ ap (λ k. drop 1 (latest_loop dflt r k)) {y = size r}
                    (omega (arith, at_most, capacity_bounds v)))
          ∙ sym (
              drop-append 1 (latest_loop dflt r (size r)) (x ∷ [])
                (omega (arith, length-latest_loop r (size r), at_most, capacity_bounds v)))
          ∙ ap (λ k. drop k (latest_loop dflt r (size r) ++ x ∷ [])) {x = 1}
              (omega (
                arith,
                length-append (latest_loop dflt r (size r)) (x ∷ []),
                length-latest_loop r (size r),
                at_most,
              ))
    ]
      where
        at_most : size r ≤ r.capacity
        at_most = size-le-capacity v

module _ {ℓ} {A : Type ℓ} (dflt : A) where
  last_or-latest_loop :
      (d : A) (r : RingBuffer A) (n : ℕ)
      → last_or d (latest_loop dflt r (suc n)) ≡ slot_back dflt r 1
  unfolding latest_loop
  last_or-latest_loop d r zero = refl
  last_or-latest_loop d r (suc n) = last_or-latest_loop (slot_back dflt r (suc (suc n))) r n

  -- `get_latest` returns the newest item held, and `T{}` when there is none.
  pub get_latest_refines :
      {r : RingBuffer A} → IsValid r → get_latest dflt r ≡ last_or dflt (contents dflt r)
  unfolding get_latest contents size latest_loop
  get_latest_refines {r} v = elim (Bool-cases (r.write_idx == r.read_idx)) [
    | inl same ↦ rw same (ap (λ k. last_or dflt (latest_loop dflt r k)) {x = 0} (drained same))
    | inr differ ↦ rw differ (
        sym (last_or-latest_loop dflt r (size r - 1))
        ∙ ap (λ k. last_or dflt (latest_loop dflt r k)) (more differ))
  ]
    where
      drained : (r.write_idx == r.read_idx) ≡ true → 0 ≡ size r
      drained e = ground (arith, v.write_fits)

      more : (r.write_idx == r.read_idx) ≡ false → suc (size r - 1) ≡ size r
      more e = ground (arith, v.write_fits, v.read_fits)

  -- `get_latest_n` returns the newest `count` items held, oldest first; all of them if there are fewer.
  pub get_latest_n_refines :
      (count : ℕ) (r : RingBuffer A) → get_latest_n dflt count r ≡ take_last count (contents dflt r)
  unfolding get_latest_n contents
  get_latest_n_refines count r =
      sym (drop-latest_loop dflt r (size r - count) (min count (size r)))
      ∙ ap₂ (λ a b. drop a (latest_loop dflt r b))
          {y = length (latest_loop dflt r (size r)) - count}
          (ap (λ k. k - count) (sym (length-latest_loop dflt r (size r)))) (omega arith)

  -- A new ring and a cleared ring hold nothing.
  pub contents-make : (wanted : ℕ) → contents dflt (make dflt wanted) ≡ []
  unfolding contents make size latest_loop
  contents-make wanted = refl

  pub contents-clear : (r : RingBuffer A) → contents dflt (clear dflt r) ≡ []
  unfolding contents clear size latest_loop
  contents-clear r = refl

  pub capacity-push : (x : A) (r : RingBuffer A) → (push x r).capacity ≡ r.capacity
  unfolding push
  capacity-push x r = refl

  -- A series of pushes.
  unfoldable pub push_all : List A → RingBuffer A → RingBuffer A
  push_all [] r = r
  push_all (x ∷ xs) r = push_all xs (push x r)

  -- After any series of pushes a valid ring holds the last `capacity` of its items and the new ones.
  pub contents-push_all :
      (xs : List A) {r : RingBuffer A}
      → IsValid r
      → contents dflt (push_all xs r) ≡ take_last r.capacity (contents dflt r ++ xs)
  unfolding push_all
  contents-push_all [] {r} v =
      sym
        (ap (take_last r.capacity) (append-nil (contents dflt r)) ∙ take_last_all r.capacity _ held)
    where
      held : length (contents dflt r) ≤ r.capacity
      held = omega (arith, length-contents dflt r, size-le-capacity dflt v)
  contents-push_all (x ∷ xs) {r} v =
      contents-push_all xs (push-IsValid x v)
      ∙ ap₂ (λ c ys. take_last c (ys ++ xs)) (capacity-push x r) (contents-push dflt x v)
      ∙ take_last-append r.capacity (contents dflt r ++ x ∷ []) xs
      ∙ ap (take_last r.capacity) (append_assoc (contents dflt r) (x ∷ []) xs)
