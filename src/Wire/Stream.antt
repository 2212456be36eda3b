-- ===== src/Wire/Stream.antt =====
-- Reading from a TLS connection that delivers its bytes in pieces: `ssl_read_full` and the loop over
-- the payload in src/data/WSServer.cpp.
use lib_stereo_camera.Common.{
  ℕ, zero, suc, ◌-◌, ◌≤◌, ◌≡◌, refl, sym, ap, ap₂, ◌∙◌, arith, List, [], ◌∷◌, ◌++◌, Option, none,
  some, length, length-append, min, drop, get_or,
}
use lib_stereo_camera.Wire.{prepend, read_loop, ssl_read_full, read_payload}

-- What OpenSSL documents of a blocking `SSL_read`: while bytes are to come, it gives at least one and
-- at most as many as asked for, in order. `pending` are the bytes to come.
pub record Delivers {S : Type 0} (ssl_read : ℕ → S → Option (List ℕ) × S) (pending : S → List ℕ)
    : Type 0 where
  pub read :
      (n : ℕ) (s : S)
      → 1 ≤ n
      → 1 ≤ length (pending s)
      → (bs : List ℕ) × (s' : S) × (ssl_read n s ≡ (some bs, s'))
        × (1 ≤ length bs)
        × (length bs ≤ n)
        × (pending s ≡ bs ++ pending s')

-- A front part of no more than `xs` is a front part of `xs`.
split_front :
    (bs xs ps ys : List ℕ)
    → xs ++ ys ≡ bs ++ ps
    → length bs ≤ length xs
    → (zs : List ℕ) × (xs ≡ bs ++ zs) × (ps ≡ zs ++ ys)
split_front [] xs ps ys e h = (xs, refl, sym e)
split_front (b ∷ bs) [] ps ys e h = elim h [ ]
split_front (b ∷ bs) (x ∷ xs) ps ys e h =
    let (zs, front, back) = split_front bs xs ps ys (ap (drop 1) e) (omega arith) in
    (zs, ap₂ (λ c cs. c ∷ cs) (ap (λ cs. get_or cs 0 0) e) front, back)

read_loop-step :
    {S : Type 0} (ssl_read : ℕ → S → Option (List ℕ) × S) (chunk : ℕ → ℕ) (fuel n : ℕ) {s s1 s2 : S}
    {bs zs : List ℕ}
    → ssl_read (chunk (suc n)) s ≡ (some bs, s1)
    → read_loop ssl_read chunk fuel (suc n - length bs) s1 ≡ (some zs, s2)
    → read_loop ssl_read chunk (suc fuel) (suc n) s ≡ (some (bs ++ zs), s2)
unfolding read_loop
read_loop-step ssl_read chunk fuel n {bs = bs} e rest =
    ap
      (λ r. elim r.0 [
        | none ↦ (none, r.1)
        | some cs ↦
            let (more, s') = read_loop ssl_read chunk fuel (suc n - length cs) r.1 in
            (prepend cs more, s')
      ])
      e
    ∙ ap (λ r. (prepend bs r.0, r.1)) rest

module _ {S : Type 0} {ssl_read : ℕ → S → Option (List ℕ) × S} {pending : S → List ℕ}
    (d : Delivers ssl_read pending) where
  -- The loop reads exactly the next bytes, in whatever pieces they come.
  read_loop_lem :
      (chunk : ℕ → ℕ)
      → ((n : ℕ) → 1 ≤ n → (1 ≤ chunk n) × (chunk n ≤ n))
      → (fuel len : ℕ) (s : S) (xs ys : List ℕ) → len ≤ fuel
      → length xs ≡ len
      → pending s ≡ xs ++ ys
      → (s' : S) × (read_loop ssl_read chunk fuel len s ≡ (some xs, s')) × (pending s' ≡ ys)
  unfolding read_loop
  read_loop_lem chunk good fuel zero s [] ys h l p = (s, refl, p)
  read_loop_lem chunk good fuel zero s (x ∷ xs) ys h l p = absurd (omega arith)
  read_loop_lem chunk good zero (suc n) s xs ys h l p = elim h [ ]
  read_loop_lem chunk good (suc fuel) (suc n) s xs ys h l p =
      let (low, high) = good (suc n) (omega arith) in
      let (bs, s1, e, some_read, fits, split) =
        d.read (chunk (suc n)) s low (omega (arith, ap length p, length-append xs ys)) in
      let (zs, front, back) = split_front bs xs (pending s1) ys (sym p ∙ split) (omega arith) in
      let (s2, rest, left) =
        read_loop_lem chunk good fuel (suc n - length bs) s1 zs ys (omega arith)
          (omega (arith, ap length front, length-append bs zs)) back in
      (s2, read_loop-step ssl_read chunk fuel n e rest ∙ ap (λ ws. (some ws, s2)) (sym front), left)

  -- On a connection that delivers, `ssl_read_full` reads exactly the bytes that are next, in whatever pieces the connection delivers
  -- them, and leaves the others.
  pub ssl_read_full_lem :
      (s : S) (xs ys : List ℕ)
      → pending s ≡ xs ++ ys
      → (s' : S) × (ssl_read_full ssl_read (length xs) s ≡ (some xs, s')) × (pending s' ≡ ys)
  unfolding ssl_read_full
  ssl_read_full_lem s xs ys p =
      read_loop_lem (λ n. n) (λ n h. (h, omega arith)) (length xs) (length xs) s xs ys (omega arith)
        refl p

  -- The loop over the payload does, in pieces of at most 4096 bytes.
  pub read_payload_lem :
      (s : S) (xs ys : List ℕ)
      → pending s ≡ xs ++ ys
      → (s' : S) × (read_payload ssl_read (length xs) s ≡ (some xs, s')) × (pending s' ≡ ys)
  unfolding read_payload
  read_payload_lem s xs ys p =
      read_loop_lem (min 4096) (λ n h. (omega arith, omega arith)) (length xs) (length xs) s xs ys
        (omega arith) refl p
