-- ===== src/Spsc/Window.antt =====
-- The items at consecutive positions of a ring buffer.
use native.Mathlib.Nat.{mod-lt}
use lib_stereo_camera.Common.{
  ℕ, zero, suc, ◌+◌, ◌-◌, ◌%◌, ◌≤◌, ◌<◌, ◌≡◌, ◌≢◌, refl, sym, ap, ap₂, ◌∙◌, arith, List, [], ◌∷◌,
  ◌++◌, length, get_or, set, get_or-set_self, get_or-set_ne,
}
use lib_stereo_camera.Common.Modular.{mod-add-ne}

module _ {A : Type 0} (dflt : A) (cap : ℕ) where
  -- The items at positions `p`, `p + 1`, …, `n` of them; position `i` lies at index `i % cap`.
  unfoldable pub window : List A → ℕ → ℕ → List A
  window buf p zero = []
  window buf p (suc n) = get_or buf (p % cap) dflt ∷ window buf (p + 1) n

  pub length-window : (buf : List A) (p n : ℕ) → length (window buf p n) ≡ n
  unfolding window
  length-window buf p zero = refl
  length-window buf p (suc n) = ap suc (length-window buf (p + 1) n)

  pub window_of_pos :
      (buf : List A) (p n : ℕ)
      → 0 < n
      → window buf p n ≡ get_or buf (p % cap) dflt ∷ window buf (p + 1) (n - 1)
  unfolding window
  window_of_pos buf p zero h = elim h [ ]
  window_of_pos buf p (suc n) h =
      ap (λ k. get_or buf (p % cap) dflt ∷ window buf (p + 1) k) (omega arith)

  -- Positions less than a capacity apart have different indices.
  pub index_ne : (p q : ℕ) → p < q → q < p + cap → q % cap ≢ p % cap
  index_ne p q lt near e =
      mod-add-ne cap p (q - p) (omega arith) (omega arith)
        (ap (λ k. k % cap) {y = q} (omega arith) ∙ e)

  -- Writing past a window does not change it, and extends it by the item written.
  pub window-set :
      (buf : List A) (p n q : ℕ) (x : A)
      → p + n ≤ q
      → q < p + cap
      → window (set buf (q % cap) x) p n ≡ window buf p n
  unfolding window
  window-set buf p zero q x h near = refl
  window-set buf p (suc n) q x h near =
      ap₂ ◌∷◌ (get_or-set_ne buf (q % cap) (p % cap) x dflt (index_ne p q (omega arith) near))
        (window-set buf (p + 1) n q x (omega arith) (omega arith))

  pub window-suc :
      (buf : List A) (p n : ℕ)
      → window buf p (suc n) ≡ window buf p n ++ get_or buf ((p + n) % cap) dflt ∷ []
  unfolding window
  window-suc buf p zero = ap (λ k. get_or buf (k % cap) dflt ∷ []) (omega arith)
  window-suc buf p (suc n) = ap (◌∷◌ (get_or buf (p % cap) dflt)) (
      window-suc buf (p + 1) n
      ∙ ap (λ k. window buf (p + 1) n ++ get_or buf (k % cap) dflt ∷ []) (omega arith))

  pub window-push :
      (buf : List A) (p n q : ℕ) (x : A)
      → length buf ≡ cap
      → q ≡ p + n
      → n < cap
      → window (set buf (q % cap) x) p (suc n) ≡ window buf p n ++ x ∷ []
  window-push buf p n q x full e h =
      window-suc (set buf (q % cap) x) p n
      ∙ ap₂ (λ ys y. ys ++ y ∷ []) (window-set buf p n q x (omega arith) (omega arith))
          (ap (λ k. get_or (set buf (q % cap) x) (k % cap) dflt) (sym e)
            ∙ get_or-set_self buf (q % cap) x dflt
                (omega (arith, mod-lt q {m = cap} (omega arith))))
