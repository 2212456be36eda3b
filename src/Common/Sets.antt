-- ===== src/Common/Sets.antt =====
-- Vectors used as sets: membership by `std::find`, insertion of what is missing, erase-remove.
use mathlib.Core.Path.{◌≡◌, refl, sym, ap, ◌∙◌}
use mathlib.Core.Bool.{Bool, true, false, not, ◌&&◌, ◌||◌}
use mathlib.Core.List.{List, [], ◌∷◌, ◌++◌}
use native.Mathlib.Omega.{arith}
use Prim.Native.Nat.{suc, ◌≤◌}
use lib_stereo_camera.Common.Lists.{length}
use lib_stereo_camera.Common.Tests.{is_yes, if◌then◌else◌}

module _ {ℓ} {A : Type ℓ} (dec : Discrete A) where
  -- `std::find(xs.begin(), xs.end(), x) != xs.end()`
  unfoldable pub contains : A → List A → Bool
  contains x [] = false
  contains x (y ∷ ys) = is_yes (dec y x) || contains x ys

  -- `for (x : xs) if (not found in acc) acc.push_back(x)`
  unfoldable pub add_missing : List A → List A → List A
  add_missing [] acc = acc
  add_missing (x ∷ xs) acc = add_missing xs (if contains x acc then acc else acc ++ x ∷ [])

  -- `acc.erase(std::remove(acc.begin(), acc.end(), x), acc.end())`
  unfoldable pub erase_value : A → List A → List A
  erase_value x [] = []
  erase_value x (y ∷ ys) =
      let rest = erase_value x ys in if is_yes (dec y x) then rest else y ∷ rest

  -- the same for each of `xs` in turn
  unfoldable pub erase_values : List A → List A → List A
  erase_values [] acc = acc
  erase_values (x ∷ xs) acc = erase_values xs (erase_value x acc)

  -- the items of `xs` that are not found in `ys`, in order
  unfoldable pub missing_from : List A → List A → List A
  missing_from ys [] = []
  missing_from ys (x ∷ xs) =
      let rest = missing_from ys xs in if contains x ys then rest else x ∷ rest

  -- No item stands twice.
  abbrev pub Unique : List A → Type 0
  Unique [] = Unit
  Unique (x ∷ xs) = (contains x xs ≡ false) × Unique xs

  pub contains_self : (x : A) (xs : List A) → contains x (x ∷ xs) ≡ true
  unfolding contains
  contains_self x xs = ground arith

  pub contains-append :
      (x : A) (xs ys : List A) → contains x (xs ++ ys) ≡ (contains x xs || contains x ys)
  unfolding contains
  contains-append x [] ys = refl
  contains-append x (y ∷ xs) ys = ground (arith, contains-append x xs ys)

  pub contains-erase_value :
      (x y : A) (xs : List A)
      → contains y (erase_value x xs) ≡ (contains y xs && not (is_yes (dec x y)))
  unfolding contains erase_value
  contains-erase_value x y [] = refl
  contains-erase_value x y (z ∷ xs) = ground (arith, contains-erase_value x y xs)

  pub contains-erase_values :
      (xs : List A) (y : A) (acc : List A)
      → contains y (erase_values xs acc) ≡ (contains y acc && not (contains y xs))
  unfolding contains erase_values
  contains-erase_values [] y acc = ground arith
  contains-erase_values (x ∷ xs) y acc =
      ground (arith, contains-erase_values xs y (erase_value x acc), contains-erase_value x y acc)

  pub contains-add_missing :
      (xs : List A) (y : A) (acc : List A)
      → contains y (add_missing xs acc) ≡ (contains y acc || contains y xs)
  unfolding contains add_missing
  contains-add_missing [] y acc = ground arith
  contains-add_missing (x ∷ xs) y acc = ground (
    arith,
    contains-add_missing xs y (if contains x acc then acc else acc ++ x ∷ []),
    contains-append y acc (x ∷ []),
  )

  pub contains-missing_from :
      (ys : List A) (y : A) (xs : List A)
      → contains y (missing_from ys xs) ≡ (contains y xs && not (contains y ys))
  unfolding contains missing_from
  contains-missing_from ys y [] = refl
  contains-missing_from ys y (x ∷ xs) = ground (arith, contains-missing_from ys y xs)

  pub Unique-append_one :
      (x : A) (xs : List A) → contains x xs ≡ false → Unique xs → Unique (xs ++ x ∷ [])
  unfolding contains
  Unique-append_one x [] h u = (refl, tt)
  Unique-append_one x (y ∷ xs) h u =
      (ground (arith, contains-append y xs (x ∷ [])), Unique-append_one x xs (ground arith) u.1)

  length-erase_value_le : (x : A) (xs : List A) → length (erase_value x xs) ≤ length xs
  unfolding erase_value
  length-erase_value_le x [] = omega arith
  length-erase_value_le x (y ∷ xs) = ground (arith, length-erase_value_le x xs)

  -- `erase_value` takes the one place of an item that stands in the list.
  pub length-erase_value :
      (x : A) (xs : List A) → contains x xs ≡ true → suc (length (erase_value x xs)) ≤ length xs
  unfolding contains erase_value
  length-erase_value x [] h = ground arith
  length-erase_value x (y ∷ xs) h =
      ground (arith, length-erase_value x xs, length-erase_value_le x xs)

  rest :
      (x : A) (xs ys : List A)
      → ((z : A) → contains z (x ∷ xs) ≡ true → contains z ys ≡ true)
      → contains x xs ≡ false
      → (z : A) → contains z xs ≡ true
      → contains z (erase_value x ys) ≡ true
  unfolding contains
  rest x xs ys h u z e = ground (arith, h z, contains-erase_value x z ys)

  -- A list without repetition, all of whose items stand in another, is no longer than that one.
  pub length-Unique :
      (xs ys : List A)
      → ((x : A) → contains x xs ≡ true → contains x ys ≡ true)
      → Unique xs
      → length xs ≤ length ys
  length-Unique [] ys h u = omega arith
  length-Unique (x ∷ xs) ys h u =
      let fewer = length-Unique xs (erase_value x ys) (rest x xs ys h u.0) u.1 in
      omega (arith, fewer, length-erase_value x ys (h x (contains_self x xs)))

  pub add_missing-Unique : (xs acc : List A) → Unique acc → Unique (add_missing xs acc)
  unfolding add_missing
  add_missing-Unique [] acc u = u
  add_missing-Unique (x ∷ xs) acc u =
      add_missing-Unique xs _ (ground (arith, Unique-append_one x acc))

  pub erase_value-Unique : (x : A) (xs : List A) → Unique xs → Unique (erase_value x xs)
  unfolding erase_value
  erase_value-Unique x [] u = tt
  erase_value-Unique x (y ∷ xs) u =
      ground (arith, erase_value-Unique x xs u.1, contains-erase_value x y xs)

  pub erase_values-Unique : (xs acc : List A) → Unique acc → Unique (erase_values xs acc)
  unfolding erase_values
  erase_values-Unique [] acc u = u
  erase_values-Unique (x ∷ xs) acc u = erase_values-Unique xs _ (erase_value-Unique x acc u)

  -- Erasing the values of `xs` keeps what `xs` lacks.
  missing_from-erase_value :
      (x : A) (xs acc : List A) → missing_from xs (erase_value x acc) ≡ missing_from (x ∷ xs) acc
  unfolding missing_from erase_value contains
  missing_from-erase_value x xs [] = refl
  missing_from-erase_value x xs (y ∷ acc) = ground (arith, missing_from-erase_value x xs acc)

  missing_from-nil : (acc : List A) → missing_from [] acc ≡ acc
  unfolding missing_from contains
  missing_from-nil [] = refl
  missing_from-nil (x ∷ acc) = ap (◌∷◌ x) (missing_from-nil acc)

  pub erase_values-missing_from : (xs acc : List A) → erase_values xs acc ≡ missing_from xs acc
  unfolding erase_values
  erase_values-missing_from [] acc = sym (missing_from-nil acc)
  erase_values-missing_from (x ∷ xs) acc =
      erase_values-missing_from xs (erase_value x acc) ∙ missing_from-erase_value x xs acc

  pub missing_from_all :
      (ys xs : List A)
      → ((x : A) → contains x xs ≡ true → contains x ys ≡ false)
      → missing_from ys xs ≡ xs
  unfolding missing_from contains
  missing_from_all ys [] h = refl
  missing_from_all ys (x ∷ xs) h =
      ground (arith, h x, missing_from_all ys xs (λ y in_xs. h y (ground arith)))

  missing_from-append_one :
      (ys acc : List A) (x : A)
      → contains x ys ≡ true
      → missing_from ys (acc ++ x ∷ []) ≡ missing_from ys acc
  unfolding missing_from
  missing_from-append_one ys [] x h = rw h
  missing_from-append_one ys (z ∷ acc) x h = ground (arith, missing_from-append_one ys acc x h)

  pub missing_from-add_missing :
      (ys xs acc : List A)
      → ((x : A) → contains x xs ≡ true → contains x ys ≡ true)
      → missing_from ys (add_missing xs acc) ≡ missing_from ys acc
  unfolding add_missing contains
  missing_from-add_missing ys [] acc h = refl
  missing_from-add_missing ys (x ∷ xs) acc h =
      missing_from-add_missing ys xs (if contains x acc then acc else acc ++ x ∷ [])
        (λ y in_xs. h y (ground arith))
      ∙ ground (arith, missing_from-append_one ys acc x (h x (ground arith)))
