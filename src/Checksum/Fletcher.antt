-- ===== src/Checksum/Fletcher.antt =====
-- fletcher16_ru of link_state.cpp against the definition of the Fletcher checksum.
use ospf_lite.Base.{
  ℕ, ◌+◌, ◌-◌, ◌*◌, ◌/◌, ◌%◌, ◌<◌, ◌≡◌, ◌∙◌, ap, ◌⊎◌, List, ◌∷◌, ◌++◌, All, length, length-append,
  All-append, u32, arith,
}
use ospf_lite.Checksum.{fletcher_loop, fletcher16_ru, x_byte, y_byte}
use ospf_lite.Checksum.Sums.{
  octet_sum, weighted_sum, octet_sum-append, weighted_sum-append, fletcher_loop-sums,
}

-- The one residue that is lost: a difference of 1 modulo 255 that is computed as a negative number.
abbrev pub Lost : ℕ → ℕ → Type 0
Lost minuend subtrahend = (minuend < subtrahend) × ((subtrahend - minuend) % 255 ≡ 254)

x_byte_right :
    (mul c0 c1 : ℕ)
    → mul < 1000000
    → c0 < 255
    → c1 < 255
    → ¬ Lost mul (c0 + c1)
    → (x_byte mul c0 c1 + c0 + c1) % 255 ≡ mul % 255
unfolding x_byte
x_byte_right mul c0 c1 m p q h = ground arith

y_byte_right :
    (mul c1 : ℕ) → mul < 1000000 → c1 < 255 → ¬ Lost c1 mul → (y_byte mul c1 + mul) % 255 ≡ c1
unfolding y_byte
y_byte_right mul c1 m q h = ground arith

-- With a lost residue the octet is congruent to 0 where 1 was needed.
y_byte-Lost :
    (mul c1 : ℕ)
    → mul < 1000000
    → c1 < 255
    → Lost c1 mul
    → (y_byte mul c1 % 255 ≡ 0) × ((1 + mul) % 255 ≡ c1)
unfolding y_byte
y_byte-Lost mul c1 m q h = ground arith

x_byte_near :
    (mul c0 c1 : ℕ)
    → mul < 1000000
    → c0 < 255
    → c1 < 255
    → ((x_byte mul c0 c1 + c0 + c1) % 255 ≡ mul % 255)
      ⊎ ((x_byte mul c0 c1 + 1 + c0 + c1) % 255 ≡ mul % 255)
unfolding x_byte
x_byte_near mul c0 c1 m p q = ground arith

x_byte-lt : (mul c0 c1 : ℕ) → mul < 1000000 → c0 < 255 → c1 < 255 → x_byte mul c0 c1 < 256
unfolding x_byte
x_byte-lt mul c0 c1 m p q = ground arith

y_byte-lt : (mul c1 : ℕ) → mul < 1000000 → c1 < 255 → y_byte mul c1 < 256
unfolding y_byte
y_byte-lt mul c1 m q = ground arith

-- The octets `x` and `y` in place of the two clear ones, `n` octets before the end.
octets_cancel :
    (s0 s1 x y n : ℕ)
    → (x + s0 % 255 + s1 % 255) % 255 ≡ (n + 2) * (s0 % 255) % 255
    → (y + (n + 2) * (s0 % 255)) % 255 ≡ s1 % 255
    → ((s0 + x + y) % 255 ≡ 0) × ((s1 + (n + 2) * x + (n + 1) * y) % 255 ≡ 0)
octets_cancel s0 s1 x y n hx hy =
    let k : ℕ = (s0 % 255 + x + y) / 255 in
    let zero_sum : s0 % 255 + x + y ≡ 255 * k = omega arith in
    let weighted = ap (λ (t : ℕ). n * t) zero_sum in (omega arith, omega arith)

-- A message with the checksum octets in its 15th and 16th place.
abbrev pub with_octets : List ℕ → ℕ → ℕ → List ℕ → List ℕ
with_octets before x y after = before ++ x ∷ y ∷ after

-- The intermediate values of `fletcher16_ru` on a message with clear checksum octets.
abbrev pub c0_of : List ℕ → List ℕ → ℕ
c0_of before after = octet_sum (with_octets before 0 0 after) % 255

abbrev pub c1_of : List ℕ → List ℕ → ℕ
c1_of before after = weighted_sum (with_octets before 0 0 after) % 255

abbrev pub mul_of : List ℕ → List ℕ → ℕ
mul_of before after = (length after + 2) * c0_of before after

mul_small : (n c : ℕ) → n < 1500 → c < 255 → (n + 2) * c < 400000
mul_small n c h k = grind arith

fletcher16_ru_of :
    (bytes : List ℕ) (s0 s1 n : ℕ)
    → fletcher_loop 0 0 bytes ≡ (s0, s1)
    → length bytes ≡ n + 16
    → n < 1500
    → let mul = (n + 2) * (s0 % 255) in
      fletcher16_ru bytes 14 ≡ x_byte mul (s0 % 255) (s1 % 255) * 256 + y_byte mul (s1 % 255)
unfolding fletcher16_ru
fletcher16_ru_of bytes s0 s1 n h l k =
    let e : u32 (length bytes + 4294967296 - 14) ≡ n + 2 = omega arith in
    let m : u32 ((n + 2) * (s0 % 255)) ≡ (n + 2) * (s0 % 255) =
      omega (arith, mul_small n (s0 % 255) k (omega arith)) in
    rw (h, e, m)

-- What a receiver that follows the standard asks of a message: both sums vanish modulo 255.
abbrev pub IsAccepted : List ℕ → Type 0
IsAccepted bytes = (octet_sum bytes % 255 ≡ 0) × (weighted_sum bytes % 255 ≡ 0)

module _ (before after : List ℕ) (offset : length before ≡ 14) (octets : All (λ b. b < 256) before)
    (octets' : All (λ b. b < 256) after) (size : length after < 1500) where
  bytes_fit : All (λ b. b < 256) (with_octets before 0 0 after)
  bytes_fit = All-append _ before (0 ∷ 0 ∷ after) octets (omega arith, (omega arith, octets'))

  octet_sum_with :
      (x y : ℕ)
      → octet_sum (with_octets before x y after) ≡ octet_sum (with_octets before 0 0 after) + x + y
  octet_sum_with x y =
      omega
        (arith, octet_sum-append before (x ∷ y ∷ after), octet_sum-append before (0 ∷ 0 ∷ after))

  weighted_sum_with :
      (x y : ℕ)
      → weighted_sum (with_octets before x y after)
        ≡ weighted_sum (with_octets before 0 0 after)
          + (length after + 2) * x
          + (length after + 1) * y
  weighted_sum_with x y = omega (
    arith,
    weighted_sum-append before (x ∷ y ∷ after),
    weighted_sum-append before (0 ∷ 0 ∷ after),
  )

  length_is : length (with_octets before 0 0 after) ≡ length after + 16
  length_is = omega (arith, length-append before (0 ∷ 0 ∷ after))

  mul_bound : mul_of before after < 1000000
  mul_bound = omega (arith, mul_small (length after) (c0_of before after) size (omega arith))

  fletcher16_ru-octets :
      fletcher16_ru (with_octets before 0 0 after) 14
      ≡ x_byte (mul_of before after) (c0_of before after) (c1_of before after) * 256
        + y_byte (mul_of before after) (c1_of before after)
  fletcher16_ru-octets =
      fletcher16_ru_of (with_octets before 0 0 after) _ _ (length after)
        (fletcher_loop-sums _ 0 0 bytes_fit (omega (arith, length_is)) (omega (arith, length_is))
          ∙ ground arith)
        length_is size

  x_is :
      fletcher16_ru (with_octets before 0 0 after) 14 / 256
      ≡ x_byte (mul_of before after) (c0_of before after) (c1_of before after)
  x_is = omega (
    arith,
    fletcher16_ru-octets,
    y_byte-lt (mul_of before after) (c1_of before after) mul_bound (omega arith),
  )

  y_is :
      fletcher16_ru (with_octets before 0 0 after) 14 % 256
      ≡ y_byte (mul_of before after) (c1_of before after)
  y_is = omega (
    arith,
    fletcher16_ru-octets,
    y_byte-lt (mul_of before after) (c1_of before after) mul_bound (omega arith),
  )

  -- Given 14 octets before a clear checksum field and fewer than 1500 after it, all octets below
  -- 256: if neither of the two differences that fletcher16_ru forms is negative and congruent to
  -- 1 modulo 255, then the message with the two octets of fletcher16_ru in the field is accepted:
  -- the sum of its octets and their sum weighted by the distance from the end both vanish modulo
  -- 255.
  pub fletcher16_ru-IsAccepted :
      ¬ Lost (mul_of before after) (c0_of before after + c1_of before after)
      → ¬ Lost (c1_of before after) (mul_of before after)
      → let c = fletcher16_ru (with_octets before 0 0 after) 14 in
        IsAccepted (with_octets before (c / 256) (c % 256) after)
  fletcher16_ru-IsAccepted hx hy =
      let x : ℕ = x_byte (mul_of before after) (c0_of before after) (c1_of before after) in
      let y : ℕ = y_byte (mul_of before after) (c1_of before after) in
      let cancelled =
        octets_cancel _ _ x y (length after)
          (x_byte_right _ _ _ mul_bound (omega arith) (omega arith) hx)
          (y_byte_right _ _ mul_bound (omega arith) hy) in
      rw (x_is, y_is)
        (
          omega (arith, cancelled.0, octet_sum_with x y),
          omega (arith, cancelled.1, weighted_sum_with x y),
        )

  -- Given 14 octets before a clear checksum field and fewer than 1500 after it, all octets below
  -- 256: if the difference from which fletcher16_ru takes the second octet is negative and
  -- congruent to 1 modulo 255, the message with the two octets of fletcher16_ru in the field is
  -- not accepted.
  pub fletcher16_ru-rejected :
      Lost (c1_of before after) (mul_of before after)
      → let c = fletcher16_ru (with_octets before 0 0 after) 14 in
        ¬ IsAccepted (with_octets before (c / 256) (c % 256) after)
  fletcher16_ru-rejected lost accepted =
      let x : ℕ = x_byte (mul_of before after) (c0_of before after) (c1_of before after) in
      let y : ℕ = y_byte (mul_of before after) (c1_of before after) in
      let vanishes : octet_sum (with_octets before x y after) % 255 ≡ 0 =
        rw (← x_is, ← y_is) accepted.0 in
      let one_short =
        y_byte-Lost (mul_of before after) (c1_of before after) mul_bound (omega arith) lost in
      omega (
        arith,
        octet_sum_with x y,
        x_byte_near (mul_of before after) (c0_of before after) (c1_of before after) mul_bound
            (omega arith) (omega arith),
      )
