-- ===== src/Examples/Checksums.antt =====
-- Checksums of short messages.
use ospf_lite.Base.{ℕ, ◌+◌, ◌*◌, ◌%◌, ◌/◌, ◌≡◌, refl, List, [], ◌∷◌, ◌++◌, arith}
use ospf_lite.Checksum.{fletcher16, fletcher_loop, fletcher16_ru}
use ospf_lite.Checksum.Reference.{fletcher16-fletcher_loop}
use ospf_lite.Checksum.Fletcher.{IsAccepted, fletcher16_ru-IsAccepted, fletcher16_ru-rejected}

abbrev front : ℕ → List ℕ
front last = 0 ∷ 1 ∷ 0 ∷ 0 ∷ 0 ∷ 0 ∷ 0 ∷ 0 ∷ 0 ∷ 0 ∷ 0 ∷ 0 ∷ 0 ∷ last ∷ []

abbrev back : List ℕ
back = 1 ∷ 2 ∷ 9 ∷ 0 ∷ []

fletcher16_ru-IsAccepted_example :
    let c = fletcher16_ru (front 3 ++ 0 ∷ 0 ∷ back) 14 in
    IsAccepted (front 3 ++ c / 256 ∷ c % 256 ∷ back)
fletcher16_ru-IsAccepted_example =
    fletcher16_ru-IsAccepted (front 3) back refl (ground arith) (ground arith) (ground arith)
      (ground arith) (ground arith)

-- The sums are 45 and 16 and the product is 270: the difference is -254.
fletcher16_ru-rejected_example :
    let c = fletcher16_ru (front 32 ++ 0 ∷ 0 ∷ back) 14 in
    ¬ IsAccepted (front 32 ++ c / 256 ∷ c % 256 ∷ back)
fletcher16_ru-rejected_example =
    fletcher16_ru-rejected (front 32) back refl (ground arith) (ground arith) (ground arith)
      (ground arith)

fletcher16-fletcher_loop_example :
    fletcher16 (front 3)
    ≡ (fletcher_loop 0 0 (front 3)).1 % 255 * 256 + (fletcher_loop 0 0 (front 3)).0 % 255
fletcher16-fletcher_loop_example = fletcher16-fletcher_loop (front 3) (ground arith) (omega arith)
