-- ===== src/Request/Answered.antt =====
-- Which requests the LSR handler answers, and how it counts the answers.
use ospf_lite.Base.{
  ℕ, suc, ◌+◌, ◌*◌, ◌<◌, ◌≡◌, ◌∙◌, ◌⊎◌, inl, inr, ap, List, [], ◌∷◌, ◌++◌, Option, none, some, ◌==◌,
  length, leb, htons, htonl, htons-htons, htons-lt, Option-cases, Bool-cases, arith,
}
use ospf_lite.Base.Outcome.{done, Outcome-cases}
use ospf_lite.LinkState.{Lsdb}
use ospf_lite.LinkState.Database.{find_router_lsa, find_network_lsa}
use ospf_lite.Request.{OspfLsr, copy_router, copy_lsa, count_lsa, answer_requests}

-- The database lacks the LSA that is asked for.
pub data Lacks (lsdb : Lsdb) (request : OspfLsr) : Type 0 where
  no_router :
      request.ls_type ≡ 1
      → find_router_lsa request.link_state_id request.advertising_router lsdb ≡ none
      → Lacks lsdb request
  no_network :
      request.ls_type ≡ 2
      → find_network_lsa request.link_state_id request.advertising_router lsdb ≡ none
      → Lacks lsdb request

copy_lsa-Lacks :
    (lsdb : Lsdb) (request : OspfLsr) → copy_lsa lsdb request ≡ done none → Lacks lsdb request
unfolding copy_lsa
copy_lsa-Lacks lsdb request e = elim (Bool-cases (request.ls_type == 1)) [
  | inl router ↦
      elim (Option-cases (find_router_lsa request.link_state_id request.advertising_router lsdb)) [
        | inl missing ↦ no_router (ground arith) missing
        | inr (lsa, found) ↦ elim (Outcome-cases (copy_router lsa)) [
          | inl (bytes, made) ↦ cc (rw (router, found, made, copy_lsa) at e)
          | inr (fault, failed) ↦ cc (rw (router, found, failed, copy_lsa) at e)
        ]
      ]
  | inr other ↦ elim (Bool-cases (request.ls_type == 2)) [
    | inl network ↦
        elim (Option-cases
          (find_network_lsa request.link_state_id request.advertising_router lsdb)) [
            | inl missing ↦ no_network (ground arith) missing
            | inr (lsa, found) ↦ cc (rw (other, network, found, copy_lsa) at e)
          ]
    | inr untreated ↦ cc (rw (other, untreated, copy_lsa) at e)
  ]
]

-- One of the requests is for an LSA that the database lacks.
abbrev pub SomeLacks : Lsdb → List OspfLsr → Type 0
SomeLacks lsdb [] = ⊥
SomeLacks lsdb (request ∷ requests) = Lacks lsdb request ⊎ SomeLacks lsdb requests

answer-eq-done :
    (lsdb : Lsdb) (request : OspfLsr) (requests : List OspfLsr) (num : ℕ) (lsas : List ℕ)
    {result : Option (ℕ × List ℕ)}
    → answer_requests lsdb (request ∷ requests) num lsas ≡ done result
    → ((copy_lsa lsdb request ≡ done none) × (result ≡ none))
      ⊎ ((bytes : List ℕ) × (answer_requests lsdb requests (count_lsa num) (lsas ++ bytes)
            ≡ done result))
unfolding answer_requests
answer-eq-done lsdb request requests num lsas e = elim (Outcome-cases (copy_lsa lsdb request)) [
  | inr (fault, f) ↦ cc (rw (f, answer_requests) at e)
  | inl (none, f) ↦ inl (f, ground arith)
  | inl (some bytes, f) ↦ elim (Bool-cases (leb (4 + length (lsas ++ bytes)) 1024)) [
    | inl fits ↦ inr (bytes, rw (f, fits, answer_requests) at e)
    | inr full ↦ cc (rw (f, full, answer_requests) at e)
  ]
]

-- If the loop of the LSR handler stops as at a bad request, the database lacks the router LSA or
-- the network LSA of one of the requests.
pub answer_requests-SomeLacks :
    (lsdb : Lsdb) (requests : List OspfLsr) (num : ℕ) (lsas : List ℕ)
    → answer_requests lsdb requests num lsas ≡ done none
    → SomeLacks lsdb requests
unfolding answer_requests
answer_requests-SomeLacks lsdb [] num lsas e = cc e
answer_requests-SomeLacks lsdb (request ∷ requests) num lsas e =
    elim (answer-eq-done lsdb request requests num lsas e) [
      | inl (missing, _) ↦ inl (copy_lsa-Lacks lsdb request missing)
      | inr (bytes, later) ↦ inr (answer_requests-SomeLacks lsdb requests _ _ later)
    ]

count_lsa-suc : (k : ℕ) → suc k < 65536 → count_lsa (htons k) ≡ htons (suc k)
count_lsa-suc k h = ground (arith, htons-htons k, htons-lt k)

answer_requests-htons :
    (lsdb : Lsdb) (requests : List OspfLsr) (k : ℕ) (lsas : List ℕ) {num : ℕ} {bytes : List ℕ}
    → k + length requests < 65536
    → answer_requests lsdb requests (htons k) lsas ≡ done (some (num, bytes))
    → num ≡ htons (k + length requests)
unfolding answer_requests
answer_requests-htons lsdb [] k lsas h e = ground arith
answer_requests-htons lsdb (request ∷ requests) k lsas h e =
    elim (answer-eq-done lsdb request requests (htons k) lsas e) [
      | inl (_, never) ↦ cc never
      | inr (more, later) ↦
          answer_requests-htons lsdb requests (suc k) _ (omega arith)
            (rw (count_lsa-suc k (omega arith)) at later)
          ∙ ap htons (omega arith)
    ]

htonl-htons : (k : ℕ) → k < 65536 → htonl (htons k) ≡ 65536 * k
unfolding htonl htons
htonl-htons k h = omega arith

-- If the loop of the LSR handler treats fewer than 65536 requests to their end, the number of
-- LSAs in its update, read in network order as a receiver does, is 65536 times the number of the
-- requests.
pub answer_requests-count :
    (lsdb : Lsdb) (requests : List OspfLsr) {num : ℕ} {bytes : List ℕ}
    → length requests < 65536
    → answer_requests lsdb requests 0 [] ≡ done (some (num, bytes))
    → htonl num ≡ 65536 * length requests
unfolding htons
answer_requests-count lsdb requests {num} h e =
    let counted = answer_requests-htons lsdb requests 0 [] (omega arith) e in
    let whole : num ≡ htons (length requests) = counted ∙ ap htons (omega arith) in
    ap htonl whole ∙ htonl-htons (length requests) h
