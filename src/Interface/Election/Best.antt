-- ===== src/Interface/Election/Best.antt =====
-- The two loops of election_for_dr_and_ndr of interface.cpp, by what they choose.
use ospf_lite.Base.{
  ◌≡◌, ◌≢◌, Option-cases, ◌⊎◌, inl, inr, Bool, true, false, not, ◌&&◌, ◌||◌, List, [], ◌∷◌, Option,
  none, some, All, refl, arith,
}
use ospf_lite.Neighbor.{Neighbor}
use ospf_lite.Config.{GlobalConfig}
use ospf_lite.Interface.{Interface}
use ospf_lite.Interface.Election.{
  declares_dr, declares_bdr, outranks, bdr_candidates, dr_candidates, or_else,
  election_for_dr_and_ndr, dr_step, dr_loop, bdr_step, bdr_loop,
}

abbrev pub IsIn : Neighbor → List Neighbor → Type 0
IsIn x [] = ⊥
IsIn x (y ∷ ys) = (x ≡ y) ⊎ IsIn x ys

-- No candidate that declares itself outranks `d`.
abbrev pub Unbeaten : Neighbor → List Neighbor → Type 0
Unbeaten d = All (λ c. declares_dr c ≡ true → outranks c d ≡ false)

dr_loop_rises :
    (cs : List Neighbor) (a d : Neighbor) → dr_loop (some a) cs ≡ some d → outranks a d ≡ false
unfolding dr_loop
dr_loop_rises [] a d e = ground arith
dr_loop_rises (c ∷ cs) a d e = ground (arith, dr_loop_rises cs a d, dr_loop_rises cs c d)

dr_loop-Unbeaten :
    (cs : List Neighbor) (acc : Option Neighbor) (d : Neighbor)
    → dr_loop acc cs ≡ some d
    → Unbeaten d cs
unfolding dr_loop
dr_loop-Unbeaten [] acc d e = tt
dr_loop-Unbeaten (c ∷ cs) none d e =
    (λ h. ground (arith, dr_loop_rises cs c d), dr_loop-Unbeaten cs _ d e)
dr_loop-Unbeaten (c ∷ cs) (some a) d e =
    (λ h. ground (arith, dr_loop_rises cs c d, dr_loop_rises cs a d), dr_loop-Unbeaten cs _ d e)

pub dr_loop-IsIn :
    (cs : List Neighbor) (acc : Option Neighbor) (d : Neighbor)
    → dr_loop acc cs ≡ some d
    → (acc ≡ some d) ⊎ (IsIn d cs × (declares_dr d ≡ true))
unfolding dr_loop
dr_loop-IsIn [] acc d e = inl e
dr_loop-IsIn (c ∷ cs) none d e = elim (dr_loop-IsIn cs (dr_step none c) d e) [
  | inl s ↦ ground arith
  | inr (later, declared) ↦ inr (inr later, declared)
]
dr_loop-IsIn (c ∷ cs) (some a) d e = elim (dr_loop-IsIn cs (dr_step (some a) c) d e) [
  | inl s ↦ ground arith
  | inr (later, declared) ↦ inr (inr later, declared)
]

dr_loop_never : (cs : List Neighbor) (a : Neighbor) → dr_loop (some a) cs ≢ none
unfolding dr_loop
dr_loop_never [] a = ground arith
dr_loop_never (c ∷ cs) a = ground (arith, dr_loop_never cs a, dr_loop_never cs c)

dr_loop-none : (cs : List Neighbor) → dr_loop none cs ≡ none → All (λ c. declares_dr c ≡ false) cs
unfolding dr_loop
dr_loop-none [] e = tt
dr_loop-none (c ∷ cs) e =
    (ground (arith, dr_loop_never cs c), dr_loop-none cs (ground (arith, dr_loop_never cs c)))

-- What the DR loop promises over its candidates.
abbrev pub ElectsDr : List Neighbor → Option Neighbor → Type 0
ElectsDr cs none = All (λ c. declares_dr c ≡ false) cs
ElectsDr cs (some d) = IsIn d cs × (declares_dr d ≡ true) × Unbeaten d cs

pub dr_loop-ElectsDr : (cs : List Neighbor) → ElectsDr cs (dr_loop none cs)
dr_loop-ElectsDr cs = elim (Option-cases (dr_loop none cs)) [
  | inl e ↦ rw e (dr_loop-none cs e)
  | inr (d, e) ↦ rw e (elim (dr_loop-IsIn cs none d e) [
    | inl h ↦ cc h
    | inr (member, declared) ↦ (member, declared, dr_loop-Unbeaten cs none d e)
  ])
]

-- `c` comes before `b` for the BDR: by declaring itself BDR, then by rank.
abbrev pub precedes : Neighbor → Neighbor → Bool
precedes c b =
    (declares_bdr c && not (declares_bdr b))
    || ((not (declares_bdr b) || declares_bdr c) && outranks c b)

-- What the BDR loop promises over its candidates.
abbrev pub ElectsBdr : List Neighbor → Option Neighbor → Type 0
ElectsBdr cs none = All (λ c. declares_dr c ≡ true) cs
ElectsBdr cs (some b) =
    IsIn b cs × (declares_dr b ≡ false) × All (λ c. declares_dr c ≡ false → precedes c b ≡ false) cs

bdr_loop_rises :
    (cs : List Neighbor) (a b : Neighbor) → bdr_loop (some a) cs ≡ some b → precedes a b ≡ false
unfolding bdr_loop
bdr_loop_rises [] a b e = ground arith
bdr_loop_rises (c ∷ cs) a b e = ground (arith, bdr_loop_rises cs a b, bdr_loop_rises cs c b)

bdr_loop_first :
    (cs : List Neighbor) (acc : Option Neighbor) (b : Neighbor)
    → bdr_loop acc cs ≡ some b
    → All (λ c. declares_dr c ≡ false → precedes c b ≡ false) cs
unfolding bdr_loop
bdr_loop_first [] acc b e = tt
bdr_loop_first (c ∷ cs) none b e =
    (λ h. ground (arith, bdr_loop_rises cs c b), bdr_loop_first cs _ b e)
bdr_loop_first (c ∷ cs) (some a) b e =
    (λ h. ground (arith, bdr_loop_rises cs c b, bdr_loop_rises cs a b), bdr_loop_first cs _ b e)

pub bdr_loop-IsIn :
    (cs : List Neighbor) (acc : Option Neighbor) (b : Neighbor)
    → bdr_loop acc cs ≡ some b
    → (acc ≡ some b) ⊎ (IsIn b cs × (declares_dr b ≡ false))
unfolding bdr_loop
bdr_loop-IsIn [] acc b e = inl e
bdr_loop-IsIn (c ∷ cs) none b e = elim (bdr_loop-IsIn cs (bdr_step none c) b e) [
  | inl s ↦ ground arith
  | inr (later, open_to) ↦ inr (inr later, open_to)
]
bdr_loop-IsIn (c ∷ cs) (some a) b e = elim (bdr_loop-IsIn cs (bdr_step (some a) c) b e) [
  | inl s ↦ ground arith
  | inr (later, open_to) ↦ inr (inr later, open_to)
]

bdr_loop_never : (cs : List Neighbor) (a : Neighbor) → bdr_loop (some a) cs ≢ none
unfolding bdr_loop
bdr_loop_never [] a = ground arith
bdr_loop_never (c ∷ cs) a = ground (arith, bdr_loop_never cs a, bdr_loop_never cs c)

bdr_loop-none : (cs : List Neighbor) → bdr_loop none cs ≡ none → All (λ c. declares_dr c ≡ true) cs
unfolding bdr_loop
bdr_loop-none [] e = tt
bdr_loop-none (c ∷ cs) e =
    (ground (arith, bdr_loop_never cs c), bdr_loop-none cs (ground (arith, bdr_loop_never cs c)))

pub bdr_loop-ElectsBdr : (cs : List Neighbor) → ElectsBdr cs (bdr_loop none cs)
bdr_loop-ElectsBdr cs = elim (Option-cases (bdr_loop none cs)) [
  | inl e ↦ rw e (bdr_loop-none cs e)
  | inr (b, e) ↦ rw e (elim (bdr_loop-IsIn cs none b e) [
    | inl h ↦ cc h
    | inr (member, open_to) ↦ (member, open_to, bdr_loop_first cs none b e)
  ])
]

-- For any interface and either value of no_bdr, the BDR of election_for_dr_and_ndr is a candidate
-- that does not declare itself DR and that no other such candidate precedes (by declaring itself
-- BDR, then by priority and identifier), or nobody if all candidates declare themselves DR; and
-- the DR is the declared candidate that no declared candidate outranks, or the BDR if none is
-- declared.
pub election-Elects :
    (config : GlobalConfig) (i : Interface) (no_bdr : Bool)
    → (declared : Option Neighbor) × ElectsDr (dr_candidates config i no_bdr) declared
      × ElectsBdr (bdr_candidates config i no_bdr) (election_for_dr_and_ndr config i no_bdr).1
      × ((election_for_dr_and_ndr config i no_bdr).0
          ≡ or_else declared (election_for_dr_and_ndr config i no_bdr).1)
unfolding election_for_dr_and_ndr
election-Elects config i no_bdr =
    (dr_loop none (dr_candidates config i no_bdr), dr_loop-ElectsDr _, bdr_loop-ElectsBdr _, refl)
