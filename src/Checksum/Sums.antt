-- ===== src/Checksum/Sums.antt =====
-- The two sums of the Fletcher checksum, and the loop of fletcher16_ru of link_state.cpp.
use ospf_lite.Base.{
  ℕ, suc, ◌+◌, ◌*◌, ◌<◌, ◌≤◌, ◌≡◌, ◌∙◌, ap, List, [], ◌∷◌, ◌++◌, All, length, length-append, u32,
  arith,
}
use ospf_lite.Checksum.{fletcher_loop}

-- The two sums of the definition: of the octets, and of the octets weighted by their distance
-- from the end.
abbrev pub octet_sum : List ℕ → ℕ
octet_sum [] = 0
octet_sum (b ∷ rest) = b + octet_sum rest

abbrev pub weighted_sum : List ℕ → ℕ
weighted_sum [] = 0
weighted_sum (b ∷ rest) = suc (length rest) * b + weighted_sum rest

pub octet_sum-append : (xs ys : List ℕ) → octet_sum (xs ++ ys) ≡ octet_sum xs + octet_sum ys
octet_sum-append [] ys = omega arith
octet_sum-append (b ∷ xs) ys = omega (arith, octet_sum-append xs ys)

pub weighted_sum-append :
    (xs ys : List ℕ)
    → weighted_sum (xs ++ ys) ≡ weighted_sum xs + length ys * octet_sum xs + weighted_sum ys
weighted_sum-append [] ys = omega arith
weighted_sum-append (b ∷ xs) ys =
    omega (arith, weighted_sum-append xs ys, ap (λ (t : ℕ). t * b) (length-append xs ys))

octet_sum-le : (xs : List ℕ) → All (λ b. b < 256) xs → octet_sum xs ≤ 255 * length xs
octet_sum-le [] h = omega arith
octet_sum-le (b ∷ xs) h = omega (arith, octet_sum-le xs h.1)

-- The uint32_t sums of the loop do not wrap over an LSA of up to 2000 octets.
pub fletcher_loop-sums :
    (xs : List ℕ) (c0 c1 : ℕ)
    → All (λ b. b < 256) xs
    → c0 + 255 * length xs < 1000000
    → c1 + length xs * 1000000 < 4294967296
    → fletcher_loop c0 c1 xs ≡ (c0 + octet_sum xs, c1 + length xs * c0 + weighted_sum xs)
unfolding fletcher_loop
fletcher_loop-sums [] c0 c1 h k l = ground arith
fletcher_loop-sums (b ∷ xs) c0 c1 h k l =
    let e0 : u32 (c0 + b) ≡ c0 + b = omega arith in
    let e1 : u32 (c1 + (c0 + b)) ≡ c1 + (c0 + b) = omega arith in
    rw (e0, e1)
      (fletcher_loop-sums xs (c0 + b) (c1 + (c0 + b)) h.1 (omega arith) (omega arith)
        ∙ ground arith)
