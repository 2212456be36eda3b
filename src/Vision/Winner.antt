-- ===== src/Vision/Winner.antt =====
-- src/vision/DisparityMap.cpp: the search of `compute` over the disparities of one pixel.
use lib_stereo_camera.Common.{
  ℕ, suc, ◌+◌, ◌-◌, ◌^◌, ◌<◌, ◌≡◌, ◌⊎◌, inl, inr, refl, sym, ap, ◌∙◌, arith, Bool, true, false,
  Bool-cases, ◌&&◌, some, if◌then◌else◌, ltb, ℕ_discrete,
}
use lib_stereo_camera.Common.Loops.{for_up, for_up_lem}
use lib_stereo_camera.Floats.{FloatOps, IsFloat}
use lib_stereo_camera.Vision.{sub_u32, Search, new_search, search_round, denom, refined}

module _ {F : Type 0} (ops : FloatOps F) (cost : ℕ → F) (max_disp : ℕ) where
  -- A disparity below `n` whose cost is under 1e30, and not above that of any other below `n`.
  pub record IsBest (n b : ℕ) : Type 0 where
    pub below : b < n
    pub cheap : ops.less (cost b) (ops.literal "1e30f") ≡ true
    pub least : (d : ℕ) → d < n → ops.less (cost d) (cost b) ≡ false

  -- What the search holds of the best disparity so far: its cost, and its neighbours'.
  pub record Holds (b : ℕ) (s : Search F) : Type 0 where
    pub best : s.best_cost ≡ cost b
    pub disp : s.best_disp ≡ ops.of_nat b
    pub prev : 0 < b → s.prev_cost ≡ cost (b - 1)
    pub next : b + 1 < max_disp → s.next_cost ≡ cost (b + 1)

  abbrev NoneCheap : ℕ → Type 0
  NoneCheap n = (d : ℕ) → d < n → ops.less (cost d) (ops.literal "1e30f") ≡ false

  abbrev Found : ℕ → Search F → Type 0
  Found n s = (NoneCheap n × (s ≡ new_search ops)) ⊎ ((b : ℕ) × IsBest n b × Holds b s)

  -- The disparity of the pixel, independently of the search: 0 if every cost is 1e30 or more, and
  -- otherwise a disparity `b` of least cost, moved as the costs of its neighbours say if that is asked
  -- for, it has two neighbours, and their curve is not flat.
  unfoldable pub curve : ℕ → F
  curve b = ops.add (ops.sub (cost (b - 1)) (ops.mul (ops.literal "2.0f") (cost b))) (cost (b + 1))

  unfoldable pub moved : Bool → ℕ → F
  unfolding curve
  moved subpixel b =
      if subpixel
        && ltb 0 b
        && ltb (b + 1) max_disp
        && ops.less (ops.literal "1e-6f") (ops.abs (curve b))
      then ops.sub (ops.of_nat b)
          (ops.div (ops.sub (cost (b - 1)) (cost (b + 1))) (ops.mul (ops.literal "2.0f") (curve b)))
      else ops.of_nat b

  abbrev pub Chosen : Bool → F → Type 0
  Chosen subpixel v =
      (NoneCheap max_disp × (v ≡ ops.literal "0.0f"))
      ⊎ ((b : ℕ) × IsBest max_disp b × (v ≡ moved subpixel b))

-- The loops of `compute` at a pixel, where every cost is defined.
module _ {F : Type 0} (ops : FloatOps F) (float : IsFloat ops) (cost : ℕ → F) (max_disp : ℕ)
    (bounded : max_disp < 2 ^ 24) where
  -- What a better disparity leaves of the search.
  taken : ℕ → Search F → Search F
  taken d s = record {
    best_cost = cost d;
    best_disp = ops.of_nat d;
    prev_cost = if ltb 0 d then cost (d - 1) else s.prev_cost;
    next_cost = if ltb d (sub_u32 max_disp 1) then cost (d + 1) else s.next_cost;
  }

  taken-Holds : (d : ℕ) (s : Search F) → d < max_disp → Holds ops cost max_disp d (taken d s)
  unfolding taken
  taken-Holds d s lt = record {
    best = refl;
    disp = refl;
    prev = λ pos. ground arith;
    next = λ more. ground arith;
  }

  search_round_lem :
      (d : ℕ) (s : Search F)
      → search_round ops (λ e. some (cost e)) max_disp d s
        ≡ some (if ops.less (cost d) s.best_cost then taken d s else s)
  unfolding search_round taken
  search_round_lem d s = ground arith

  not_less : (a b c : F) → ops.less b c ≡ true → ops.less a c ≡ false → ops.less a b ≡ false
  not_less a b c lt nlt = elim (Bool-cases (ops.less a b)) [
    | inl yes_less ↦ cc (float.less_trans a b c yes_less lt)
    | inr e ↦ e
  ]

  -- A disparity that costs less than the best so far is the best.
  better-IsBest :
      (n : ℕ) {top : F}
      → ((d : ℕ) → d < n → ops.less (cost d) top ≡ false)
      → ops.less (cost n) top ≡ true
      → ops.less (cost n) (ops.literal "1e30f") ≡ true
      → IsBest ops cost max_disp (suc n) n
  better-IsBest n {top} least better cheap = record {
    below = omega arith;
    cheap = cheap;
    least = λ d le. elim (ℕ_discrete d n) [
      | yes same ↦ ap (λ k. ops.less (cost k) (cost n)) same ∙ float.less_irrefl (cost n)
      | no differ ↦ not_less (cost d) (cost n) top better (least d (omega arith))
    ];
  }

  -- One that does not leaves it the best.
  same-IsBest :
      (n b : ℕ)
      → IsBest ops cost max_disp n b
      → ops.less (cost n) (cost b) ≡ false
      → IsBest ops cost max_disp (suc n) b
  same-IsBest n b best worse = record {
    below = omega (arith, best.below);
    cheap = best.cheap;
    least = λ d le. elim (ℕ_discrete d n) [
      | yes same ↦ ap (λ k. ops.less (cost k) (cost b)) same ∙ worse
      | no differ ↦ best.least d (omega arith)
    ];
  }

  round-Found :
      (d : ℕ) (s : Search F)
      → d < max_disp
      → Found ops cost max_disp d s
      → (b : Bool) → ops.less (cost d) s.best_cost ≡ b
      → Found ops cost max_disp (suc d) (if b then taken d s else s)
  unfolding new_search
  round-Found d s lt (inl (dear, start)) true e =
      let cheap : ops.less (cost d) (ops.literal "1e30f") ≡ true =
        ap (λ r. ops.less (cost d) r.best_cost) (sym start) ∙ e in
      inr (d, better-IsBest d dear cheap cheap, taken-Holds d s lt)
  round-Found d s lt (inl (dear, start)) false e = inl (
    λ k le. elim (ℕ_discrete k d) [
      | yes same ↦
          ap (λ j. ops.less (cost j) (ops.literal "1e30f")) same
          ∙ ap (λ r. ops.less (cost d) r.best_cost) (sym start)
          ∙ e
      | no differ ↦ dear k (omega arith)
    ],
    start,
  )
  round-Found d s lt (inr (b, best, holds)) true e =
      let better : ops.less (cost d) (cost b) ≡ true =
        ap (ops.less (cost d)) (sym holds.best) ∙ e in
      inr (
        d,
        better-IsBest d best.least better
            (float.less_trans (cost d) (cost b) (ops.literal "1e30f") better best.cheap),
        taken-Holds d s lt,
      )
  round-Found d s lt (inr (b, best, holds)) false e =
      inr (b, same-IsBest d b best (ap (ops.less (cost d)) (sym holds.best) ∙ e), holds)

  searched :
      (s : Search F) × (for_up max_disp
          (search_round ops (λ e. some (cost e)) max_disp)
          (new_search ops)
        ≡ some s)
      × Found ops cost max_disp max_disp s
  searched =
      for_up_lem (Found ops cost max_disp) max_disp (search_round ops (λ e. some (cost e)) max_disp)
        (λ d s lt found.
          (_, search_round_lem d s, round-Found d s lt found (ops.less (cost d) s.best_cost) refl))
        (new_search ops) (inl (λ d lt. absurd (omega arith), refl))

  refined-moved :
      (subpixel : Bool) (b : ℕ) (s : Search F)
      → b < max_disp
      → Holds ops cost max_disp b s
      → refined ops subpixel max_disp s ≡ moved ops cost max_disp subpixel b
  unfolding refined moved denom curve
  refined-moved subpixel b s lt holds =
      let from_left : ops.less (ops.of_nat 0) (ops.of_nat b) ≡ ltb 0 b =
        float.less_of_nat 0 b (omega arith) (omega arith) in
      let to_right : ops.less (ops.of_nat b) (ops.of_nat (sub_u32 max_disp 1))
          ≡ ltb (b + 1) max_disp =
        float.less_of_nat b (sub_u32 max_disp 1) (omega arith) (omega arith) ∙ ground arith in
      elim (Bool-cases (ltb 0 b && ltb (b + 1) max_disp)) [
        | inl inner ↦
            let left : 0 < b = ground arith in
            let right : b + 1 < max_disp = ground arith in
            ground (
              arith,
              holds.disp,
              holds.best,
              holds.prev left,
              holds.next right,
              from_left,
              to_right,
            )
        | inr edge ↦ ground (arith, holds.disp, from_left, to_right)
      ]

  refined-new_search :
      (subpixel : Bool) → refined ops subpixel max_disp (new_search ops) ≡ ops.literal "0.0f"
  unfolding refined new_search
  refined-new_search subpixel =
      let none_left : ops.less (ops.of_nat 0) (ops.literal "0.0f") ≡ false =
        ap (ops.less (ops.of_nat 0)) float.literal_zero ∙ float.less_irrefl (ops.of_nat 0) in
      ground (arith, none_left)

  -- The search of a pixel whose costs are all defined gives its disparity.
  pub search_lem :
      (subpixel : Bool)
      → (s : Search F) × (for_up max_disp
            (search_round ops (λ e. some (cost e)) max_disp)
            (new_search ops)
          ≡ some s)
        × Chosen ops cost max_disp subpixel (refined ops subpixel max_disp s)
  search_lem subpixel =
      let (s, ran, found) = searched in
      (
        s,
        ran,
        elim found [
          | inl (dear, start) ↦
              inl (dear, ap (refined ops subpixel max_disp) start ∙ refined-new_search subpixel)
          | inr (b, best, holds) ↦ inr (b, best, refined-moved subpixel b s best.below holds)
        ],
      )
