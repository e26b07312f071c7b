-- ===== src/Checksum/Internet.antt =====
-- ospf_checksum of ospf.cpp: its carry loop, and its checksum written into a packet.
use ospf_lite.Base.{
  ℕ, zero, suc, ◌+◌, ◌-◌, ◌*◌, ◌/◌, ◌%◌, ◌<◌, ◌≤◌, ◌≡◌, refl, ◌∙◌, List, [], ◌∷◌, ◌++◌, All, length,
  u32, arith,
}
use ospf_lite.Checksum.{word_sum, fold_carries, ospf_checksum}

fold_carries_small : (fuel sum : ℕ) → sum < 65536 → fold_carries fuel sum ≡ sum
unfolding fold_carries
fold_carries_small zero sum h = refl
fold_carries_small (suc fuel) sum h = ground arith

-- For any sum below 2 ^ 32 two rounds of the carry loop are enough: any larger fuel gives the
-- same number, which is below 2 ^ 16.
fold_carries_ends :
    (fuel sum : ℕ)
    → sum < 4294967296
    → (fold_carries (suc (suc fuel)) sum ≡ fold_carries 2 sum) × (fold_carries 2 sum < 65536)
unfolding fold_carries
fold_carries_ends fuel sum h = ground (
  arith,
  fold_carries_small fuel
      ((sum % 65536 + sum / 65536) % 65536 + (sum % 65536 + sum / 65536) / 65536),
)

-- The sum as a plain number.
abbrev pub plain_sum : List ℕ → ℕ
plain_sum [] = 0
plain_sum (a ∷ []) = a
plain_sum (a ∷ b ∷ rest) = a + b * 256 + plain_sum rest

plain_sum-append :
    (k : ℕ) (xs ys : List ℕ)
    → length xs ≡ 2 * k
    → plain_sum (xs ++ ys) ≡ plain_sum xs + plain_sum ys
plain_sum-append k [] ys h = omega arith
plain_sum-append k (a ∷ []) ys h = absurd (omega arith)
plain_sum-append k (a ∷ b ∷ xs) ys h = omega (arith, plain_sum-append (k - 1) xs ys (omega arith))

word_sum-plain_sum :
    (sum : ℕ) (xs : List ℕ) → sum + plain_sum xs < 4294967296 → word_sum sum xs ≡ sum + plain_sum xs
unfolding word_sum
word_sum-plain_sum sum [] h = omega arith
word_sum-plain_sum sum (a ∷ []) h = omega arith
word_sum-plain_sum sum (a ∷ b ∷ xs) h =
    let e : u32 (sum + (a + b * 256)) ≡ sum + (a + b * 256) = omega arith in
    rw e (omega (arith, word_sum-plain_sum (sum + (a + b * 256)) xs (omega arith)))

plain_sum-le : (xs : List ℕ) → All (λ b. b < 256) xs → plain_sum xs ≤ 65535 * length xs
plain_sum-le [] h = omega arith
plain_sum-le (a ∷ []) h = omega arith
plain_sum-le (a ∷ b ∷ xs) h = omega (arith, plain_sum-le xs h.1.1)

-- Folding keeps the residue modulo 65535, and only zero folds to zero.
fold_carries_mod : (sum : ℕ) → sum < 4294967296 → fold_carries 2 sum % 65535 ≡ sum % 65535
unfolding fold_carries
fold_carries_mod sum h = ground arith

fold_carries_pos : (sum : ℕ) → sum < 4294967296 → 0 < sum → 0 < fold_carries 2 sum
unfolding fold_carries
fold_carries_pos sum h p = ground arith

fold_carries-le : (sum : ℕ) → sum < 4294967296 → fold_carries 2 sum ≤ sum
unfolding fold_carries
fold_carries-le sum h = ground arith

fold_carries-lt : (sum : ℕ) → sum < 4294967296 → fold_carries 2 sum < 65536
fold_carries-lt sum h = (fold_carries_ends 0 sum h).1

complement_folds :
    (s : ℕ) → s < 2147483648 → fold_carries 2 (s + (65535 - fold_carries 2 s)) ≡ 65535
complement_folds s h =
    let small = fold_carries-lt s (omega arith) in
    let total : s + (65535 - fold_carries 2 s) < 4294967296 = omega arith in
    let positive : 0 < s + (65535 - fold_carries 2 s) =
      omega (arith, fold_carries-le s (omega arith), small) in
    omega (
      arith,
      fold_carries_mod s (omega arith),
      fold_carries-lt _ total,
      fold_carries_mod _ total,
      fold_carries_pos _ total positive,
    )

word_sum_around :
    (k : ℕ) (before after : List ℕ) (a b : ℕ)
    → length before ≡ 2 * k
    → All (λ b. b < 256) before
    → All (λ b. b < 256) after
    → length before + length after < 32000
    → a < 256
    → b < 256
    → (word_sum 0 (before ++ a ∷ b ∷ after) ≡ plain_sum before + plain_sum after + (a + b * 256))
      × (plain_sum before + plain_sum after < 2147400000)
word_sum_around k before after a b h hb ha bound ka kb =
    let total = plain_sum-append k before (a ∷ b ∷ after) h in
    let p = plain_sum-le before hb in
    let q = plain_sum-le after ha in
    let small : plain_sum (before ++ a ∷ b ∷ after) < 4294967296 = omega arith in
    (word_sum-plain_sum 0 (before ++ a ∷ b ∷ after) (omega arith) ∙ omega arith, omega arith)

checksum_of_sum :
    (bytes : List ℕ) (s : ℕ)
    → s < 2147483648
    → word_sum 0 bytes ≡ s
    → ospf_checksum bytes ≡ 65535 - fold_carries 2 s
unfolding ospf_checksum
checksum_of_sum bytes s h e = rw e (omega (arith, fold_carries-lt s (omega arith)))

-- For an even number of bytes before the checksum field and any bytes after it, fewer than 32000
-- in all: once the checksum of the packet with a clear field has been stored in the field, low
-- byte first, the checksum of the packet is 0.
pub ospf_checksum-filled :
    (k : ℕ) (before after : List ℕ)
    → length before ≡ 2 * k
    → All (λ b. b < 256) before
    → All (λ b. b < 256) after
    → length before + length after < 32000
    → let c = ospf_checksum (before ++ 0 ∷ 0 ∷ after) in
      ospf_checksum (before ++ c % 256 ∷ c / 256 ∷ after) ≡ 0
ospf_checksum-filled k before after h hb ha bound =
    let s : ℕ = plain_sum before + plain_sum after in
    let c : ℕ = ospf_checksum (before ++ 0 ∷ 0 ∷ after) in
    let cleared = word_sum_around k before after 0 0 h hb ha bound (omega arith) (omega arith) in
    let c_is : c ≡ 65535 - fold_carries 2 s =
      checksum_of_sum (before ++ 0 ∷ 0 ∷ after) s (omega arith) (omega arith) in
    let filled =
      word_sum_around k before after (c % 256) (c / 256) h hb ha bound (omega arith)
        (omega arith) in
    checksum_of_sum (before ++ c % 256 ∷ c / 256 ∷ after) (s + (65535 - fold_carries 2 s))
      (omega arith) (omega arith)
    ∙ omega (arith, complement_folds s (omega arith))
