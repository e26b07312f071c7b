-- ===== src/Checksum/Fields.antt =====
-- lsa_checksum of link_state.cpp: the bytes that it does not depend on.
use ospf_lite.Base.{
  ℕ, zero, suc, ◌-◌, ◌≤◌, ◌≡◌, refl, ap, sym, List, [], ◌∷◌, ◌++◌, none, some, length,
  length-append, take, drop, ltb, ◌||◌, Bool-cases, inl, inr, arith, true, false, ℤ, pos, negsuc,
  ◌<◌,
}
use ospf_lite.LinkState.{LsaHeader}
use ospf_lite.LinkState.Wire.{store_header}
use ospf_lite.Checksum.{lsa_checksum, fletcher16_ru, x_byte, y_byte, low_byte}

take-none : (n : ℕ) → take {A = ℕ} n [] ≡ []
take-none zero = refl
take-none (suc n) = refl

drop-take : (n m : ℕ) (xs : List ℕ) → drop n (take m xs) ≡ take (m - n) (drop n xs)
drop-take zero m xs = ap (λ (k : ℕ). take k xs) (omega arith)
drop-take (suc n) zero xs = let none_left : 0 - suc n ≡ 0 = omega arith in rw none_left refl
drop-take (suc n) (suc m) [] = sym (take-none (suc m - suc n))
drop-take (suc n) (suc m) (x ∷ xs) =
    let fewer : suc m - suc n ≡ m - n = omega arith in rw fewer (drop-take n m xs)

take-append : (n : ℕ) (xs ys : List ℕ) → n ≤ length xs → take n (xs ++ ys) ≡ take n xs
take-append zero xs ys h = refl
take-append (suc n) [] ys h = ground arith
take-append (suc n) (x ∷ xs) ys h = ap (◌∷◌ x) (take-append n xs ys (omega arith))

-- Neither the age nor the checksum field has a part in the checksum.
pub lsa_checksum-fields :
    (net : LsaHeader) (age checksum : ℕ) (body : List ℕ) (len : ℕ)
    → lsa_checksum (store_header (record net { ls_age = age; ls_checksum = checksum }) ++ body) len
      ≡ lsa_checksum (store_header net ++ body) len
unfolding lsa_checksum store_header
lsa_checksum-fields net age checksum body len =
    let later =
      drop-take 18 len
        (store_header (record net { ls_age = age; ls_checksum = checksum }) ++ body) in
    let now = drop-take 18 len (store_header net ++ body) in rw (later, now) refl

test_false : (len size : ℕ) → (ltb len 18 || ltb size len) ≡ false → (18 ≤ len) × (len ≤ size)
test_false len size h = ground arith

test_longer :
    (len size more : ℕ)
    → (ltb len 18 || ltb size len) ≡ false
    → size ≤ more
    → (ltb len 18 || ltb more len) ≡ false
test_longer len size more h k = ground arith

-- Nor has what lies behind the LSA.
pub lsa_checksum-append :
    (bytes rest : List ℕ) (len : ℕ) {c : ℕ}
    → lsa_checksum bytes len ≡ some c
    → lsa_checksum (bytes ++ rest) len ≡ some c
unfolding lsa_checksum
lsa_checksum-append bytes rest len e = elim (Bool-cases (ltb len 18 || ltb (length bytes) len)) [
  | inl short ↦ cc (rw short at e)
  | inr enough ↦
      let size = length-append bytes rest in
      let still : (ltb len 18 || ltb (length (bytes ++ rest)) len) ≡ false =
        test_longer len (length bytes) (length (bytes ++ rest)) enough (omega arith) in
      let (long, held) = test_false len (length bytes) enough in
      let front = take-append 16 bytes rest (omega arith) in
      let whole = take-append len bytes rest held in rw (still, front, whole) (rw enough at e)
]

low_byte-lt : (z : ℤ) → low_byte z < 256
low_byte-lt (pos n) = omega arith
low_byte-lt (negsuc n) = omega arith

fletcher16_ru-lt : (bytes : List ℕ) (offset : ℕ) → fletcher16_ru bytes offset < 65536
unfolding fletcher16_ru x_byte y_byte
fletcher16_ru-lt bytes offset = omega (arith, low_byte-lt _, low_byte-lt _)

-- A checksum has 16 bits, and the LSA lies within the bytes.
pub lsa_checksum-bounds :
    (bytes : List ℕ) (len : ℕ) {c : ℕ}
    → lsa_checksum bytes len ≡ some c
    → (c < 65536) × (18 ≤ len) × (len ≤ length bytes)
unfolding lsa_checksum
lsa_checksum-bounds bytes len {c} e = elim (Bool-cases (ltb len 18 || ltb (length bytes) len)) [
  | inl short ↦ cc (rw short at e)
  | inr enough ↦
      let value : fletcher16_ru (drop 2 (take 16 bytes) ++ (0 ∷ 0 ∷ drop 18 (take len bytes))) 14
          ≡ c =
        ground (arith, rw enough at e) in
      (
        rw (← value)
            (fletcher16_ru-lt (drop 2 (take 16 bytes) ++ (0 ∷ 0 ∷ drop 18 (take len bytes))) 14),
        (test_false len (length bytes) enough).0,
        (test_false len (length bytes) enough).1,
      )
]

-- With an LSA of at least 18 bytes within the buffer there is a checksum.
pub lsa_checksum-some :
    (bytes : List ℕ) (len : ℕ)
    → 18 ≤ len
    → len ≤ length bytes
    → (c : ℕ) × (lsa_checksum bytes len ≡ some c)
unfolding lsa_checksum
lsa_checksum-some bytes len long held =
    let test : (ltb len 18 || ltb (length bytes) len) ≡ false = ground arith in rw test (_, refl)

pub lsa_checksum-none :
    (bytes : List ℕ) (len : ℕ) → length bytes < len → lsa_checksum bytes len ≡ none
unfolding lsa_checksum
lsa_checksum-none bytes len short =
    let test : (ltb len 18 || ltb (length bytes) len) ≡ true = ground arith in rw test refl
