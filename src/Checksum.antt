-- ===== src/Checksum.antt =====
-- The checksums: ospf_checksum of ospf.cpp, fletcher16, fletcher16_ru and lsa_checksum of
-- link_state.cpp. Data is the list of its bytes.
pub mod Internet
pub mod Sums
pub mod Fields
pub mod Reference
pub mod Fletcher
use ospf_lite.Base.{
  ℕ, zero, suc, ◌+◌, ◌-◌, ◌*◌, ◌/◌, ◌%◌, Bool, ◌||◌, List, [], ◌∷◌, ◌++◌, Option, none, some, ℤ,
  pos, negsuc, neg, is_neg, u16, u32, signed32, ltb, leb, ◌==◌, if◌then◌else◌, length, take, drop,
}

-- The sum of the little-endian 16-bit words in a uint32_t; an odd last byte counts as a word.
unfoldable pub word_sum : ℕ → List ℕ → ℕ
word_sum sum [] = sum
word_sum sum (a ∷ []) = u32 (sum + a)
word_sum sum (a ∷ b ∷ rest) = word_sum (u32 (sum + (a + b * 256))) rest

-- `while (sum >> 16) { … }` on fuel.
unfoldable pub fold_carries : ℕ → ℕ → ℕ
fold_carries zero sum = sum
fold_carries (suc fuel) sum =
    let rest = fold_carries fuel (sum % 65536 + sum / 65536) in
    if sum / 65536 == 0 then sum else rest

unfoldable pub ospf_checksum : List ℕ → ℕ
ospf_checksum bytes = 65535 - u16 (fold_carries 2 (word_sum 0 bytes))

-- The loop of `fletcher16`.
unfoldable pub fletcher16_loop : ℕ → ℕ → List ℕ → ℕ × ℕ
fletcher16_loop sum1 sum2 [] = (sum1, sum2)
fletcher16_loop sum1 sum2 (b ∷ rest) =
    fletcher16_loop ((sum1 + b) % 255) ((sum2 + (sum1 + b) % 255) % 255) rest

unfoldable pub fletcher16 : List ℕ → ℕ
unfolding fletcher16_loop
fletcher16 bytes = let (sum1, sum2) = fletcher16_loop 0 0 bytes in sum2 * 256 + sum1

-- The loop of `fletcher16_ru`, over two uint32_t with no reduction.
unfoldable pub fletcher_loop : ℕ → ℕ → List ℕ → ℕ × ℕ
fletcher_loop c0 c1 [] = (c0, c1)
fletcher_loop c0 c1 (b ∷ rest) = fletcher_loop (u32 (c0 + b)) (u32 (c1 + u32 (c0 + b))) rest

-- `y++`, `x--`, `z %= 255` and the low byte, on an int32_t.
abbrev pub increment : ℤ → ℤ
increment (pos n) = pos (suc n)
increment (negsuc zero) = pos 0
increment (negsuc (suc n)) = negsuc n

abbrev pub decrement : ℤ → ℤ
decrement (pos zero) = negsuc 0
decrement (pos (suc n)) = pos n
decrement (negsuc n) = negsuc (suc n)

abbrev pub rem255 : ℤ → ℤ
rem255 (pos n) = pos (n % 255)
rem255 (negsuc n) = neg (pos (suc n % 255))

abbrev pub or_255 : ℤ → ℤ
or_255 (pos zero) = pos 255
or_255 z = z

abbrev pub low_byte : ℤ → ℕ
low_byte (pos n) = n % 256
low_byte (negsuc n) = 255 - n % 256

-- `x` and `y` of `fletcher16_ru`, from the reduced sums and `mul`, as bytes of the result.
unfoldable pub x_byte : ℕ → ℕ → ℕ → ℕ
x_byte mul c0 c1 =
    let x = signed32 (u32 (mul + 8589934592 - c0 - c1)) in
    low_byte (or_255 (rem255 (if is_neg x then decrement x else x)))

unfoldable pub y_byte : ℕ → ℕ → ℕ
y_byte mul c1 =
    let y = signed32 (u32 (c1 + 8589934592 - mul - 1)) in
    low_byte (or_255 (rem255 (if is_neg y then y else increment y)))

unfoldable pub fletcher16_ru : List ℕ → ℕ → ℕ
fletcher16_ru bytes checksum_offset =
    let (sum0, sum1) = fletcher_loop 0 0 bytes in
    let c0 = sum0 % 255 in
    let c1 = sum1 % 255 in
    let mul = u32 (u32 (length bytes + 4294967296 - checksum_offset) * c0) in
    x_byte mul c0 c1 * 256 + y_byte mul c1

-- `lsa_checksum` of the `len` bytes of an LSA: the checksum field is cleared in a copy, and the age
-- is left out. `none` where the copy would read or write past an end.
unfoldable pub lsa_checksum : List ℕ → ℕ → Option ℕ
unfolding fletcher16_ru
lsa_checksum bytes len =
    if ltb len 18 || ltb (length bytes) len
    then none
    else some (fletcher16_ru (drop 2 (take 16 bytes) ++ (0 ∷ 0 ∷ drop 18 (take len bytes))) 14)
