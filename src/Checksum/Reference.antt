-- ===== src/Checksum/Reference.antt =====
-- fletcher16 and the loop of fletcher16_ru of link_state.cpp.
use ospf_lite.Base.{ℕ, ◌+◌, ◌*◌, ◌/◌, ◌%◌, ◌<◌, ◌≤◌, ◌≡◌, ap, List, [], ◌∷◌, All, length, arith}
use ospf_lite.Checksum.{fletcher16_loop, fletcher16, fletcher_loop}
use ospf_lite.Checksum.Sums.{octet_sum, weighted_sum, fletcher_loop-sums}

fletcher16_loop-sums :
    (xs : List ℕ) (s1 s2 : ℕ)
    → s1 < 255
    → s2 < 255
    → fletcher16_loop s1 s2 xs
      ≡ ((s1 + octet_sum xs) % 255, (s2 + length xs * s1 + weighted_sum xs) % 255)
unfolding fletcher16_loop
fletcher16_loop-sums [] s1 s2 h k = ground arith
fletcher16_loop-sums (b ∷ xs) s1 s2 h k =
    let q : ℕ = (s1 + b) / 255 in
    let split : s1 + b ≡ 255 * q + (s1 + b) % 255 = omega arith in
    let spread = ap (λ (t : ℕ). length xs * t) split in
    let later =
      fletcher16_loop-sums xs ((s1 + b) % 255) ((s2 + (s1 + b) % 255) % 255) (omega arith)
        (omega arith) in
    let first : ((s1 + b) % 255 + octet_sum xs) % 255 ≡ (s1 + octet_sum (b ∷ xs)) % 255 =
      omega arith in
    let second : ((s2 + (s1 + b) % 255) % 255 + length xs * ((s1 + b) % 255) + weighted_sum xs)
          % 255
        ≡ (s2 + length (b ∷ xs) * s1 + weighted_sum (b ∷ xs)) % 255 =
      omega (arith, spread) in
    rw (← first, ← second) later

-- For up to 2000 bytes, fletcher16, which reduces both sums modulo 255 at every byte, gives the
-- two sums of the loop of fletcher16_ru, which reduces neither, reduced at the end.
pub fletcher16-fletcher_loop :
    (bytes : List ℕ)
    → All (λ b. b < 256) bytes
    → length bytes ≤ 2000
    → fletcher16 bytes ≡ (fletcher_loop 0 0 bytes).1 % 255 * 256 + (fletcher_loop 0 0 bytes).0 % 255
unfolding fletcher16
fletcher16-fletcher_loop bytes h size =
    rw
      (
        fletcher16_loop-sums bytes 0 0 (omega arith) (omega arith),
        fletcher_loop-sums bytes 0 0 h (omega arith) (omega arith),
      )
      (ground arith)
