-- ===== src/Acknowledge/Acked.antt =====
-- The LSAck handler of ospf.cpp: its loop over the headers.
use ospf_lite.Base.{
  ◌≤◌, ◌≡◌, ◌∙◌, refl, sym, ap, Bool, false, ◌||◌, List, [], ◌∷◌, any, erase_first, remove_if,
  count_if, arith,
}
use ospf_lite.LinkState.{LsaHeader}
use ospf_lite.Acknowledge.{acknowledges, acknowledge_all}

-- No header names two entries.
abbrev pub IsSingle : List LsaHeader → Type 0
IsSingle list = (net : LsaHeader) → count_if (acknowledges net) list ≤ 1

count_none :
    (p : LsaHeader → Bool) (list : List LsaHeader) → count_if p list ≤ 0 → remove_if p list ≡ list
count_none p [] h = refl
count_none p (x ∷ xs) h = ground (arith, count_none p xs)

erase_first-remove_if :
    (p : LsaHeader → Bool) (list : List LsaHeader)
    → count_if p list ≤ 1
    → erase_first p list ≡ remove_if p list
erase_first-remove_if p [] h = refl
erase_first-remove_if p (x ∷ xs) h = ground (arith, count_none p xs, erase_first-remove_if p xs)

remove_if-count_if :
    (p q : LsaHeader → Bool) (list : List LsaHeader)
    → count_if q (remove_if p list) ≤ count_if q list
remove_if-count_if p q [] = ground arith
remove_if-count_if p q (x ∷ xs) = ground (arith, remove_if-count_if p q xs)

remove_if-twice :
    (p q : LsaHeader → Bool) (list : List LsaHeader)
    → remove_if q (remove_if p list) ≡ remove_if (λ x. p x || q x) list
remove_if-twice p q [] = refl
remove_if-twice p q (x ∷ xs) = ground (arith, remove_if-twice p q xs)

remove_if-never : (list : List LsaHeader) → remove_if (λ x. false) list ≡ list
remove_if-never [] = refl
remove_if-never (x ∷ xs) = ground (arith, remove_if-never xs)

-- If no header names two entries of a retransmission list, then the loop of the LSAck handler,
-- which takes the first entry of each name off the list, leaves exactly the entries that no
-- header of the packet names, in their order.
pub acknowledge_all-remove_if :
    (nets list : List LsaHeader)
    → IsSingle list
    → acknowledge_all nets list ≡ remove_if (λ lsa. any (λ net. acknowledges net lsa) nets) list
unfolding acknowledge_all
acknowledge_all-remove_if [] list s = sym (remove_if-never list)
acknowledge_all-remove_if (net ∷ nets) list s =
    let p : LsaHeader → Bool = acknowledges net in
    let still : IsSingle (remove_if p list) =
      λ other. omega (arith, s other, remove_if-count_if p (acknowledges other) list) in
    ap (acknowledge_all nets) (erase_first-remove_if p list (s net))
    ∙ acknowledge_all-remove_if nets (remove_if p list) still
    ∙ remove_if-twice p (λ lsa. any (λ other. acknowledges other lsa) nets) list
