-- ===== src/Home/Decisions/Slots.antt =====
-- The decisions among the calls under way of the page of app/frontend/pages/Home.jsx.
use roost_assured.Common.{
  ℕ, suc, ◌≡◌, refl, ap, inl, inr, true, false, ◌&&◌, Option, none, some, List, [], ◌∷◌, ◌++◌,
  arith, nat_beq, nat_beq_iff, Bool-cases, number_key, string_key, length, contains,
}
use roost_assured.Home.{Decision, accept, reject}
use roost_assured.Home.Visits.{
  Call, get_home, get_bids, send_form, delete_request, post_decision, post_rating, under_way,
  take_out, is_call, is_decision,
}

-- The bids whose decision is under way, and the bid that is marked.
abbrev pub decided_id : Call → List ℕ
decided_id (post_decision i d) = i ∷ []
decided_id _ = []

abbrev pub decided_ids : List Call → List ℕ
decided_ids [] = []
decided_ids (c ∷ calls) = decided_id c ++ decided_ids calls

abbrev pub slot_ids : Option ℕ → List ℕ
slot_ids none = []
slot_ids (some i) = i ∷ []

pub is_decision_refl : (d : Decision) → is_decision d d ≡ true
is_decision_refl accept = refl
is_decision_refl reject = refl

-- Taking out a decision leaves one fewer, any other call all of them.
pub length-take_out :
    (i : ℕ) (d : Decision) (calls : List Call)
    → under_way (post_decision i d) calls ≡ true
    → suc (length (decided_ids (take_out (post_decision i d) calls))) ≡ length (decided_ids calls)
unfolding take_out
length-take_out i d [] h = ground arith
length-take_out i d (post_decision j e ∷ calls) h =
    elim (Bool-cases (nat_beq i j && is_decision d e)) [
      | inl p ↦ rw p refl
      | inr p ↦ rw p (ap suc (length-take_out i d calls (ground arith)))
    ]
length-take_out i d (get_home ∷ calls) h = length-take_out i d calls h
length-take_out i d (get_bids ∷ calls) h = length-take_out i d calls h
length-take_out i d (send_form ∷ calls) h = length-take_out i d calls h
length-take_out i d (delete_request ∷ calls) h = length-take_out i d calls h
length-take_out i d (post_rating j ∷ calls) h = length-take_out i d calls h

pub contains-decided_ids :
    (i : ℕ) (d : Decision) (calls : List Call)
    → under_way (post_decision i d) calls ≡ true
    → contains (decided_ids calls) i ≡ true
contains-decided_ids i d [] h = h
contains-decided_ids i d (post_decision j e ∷ calls) h =
    ground (arith, contains-decided_ids i d calls, nat_beq_iff i j)
contains-decided_ids i d (get_home ∷ calls) h = contains-decided_ids i d calls h
contains-decided_ids i d (get_bids ∷ calls) h = contains-decided_ids i d calls h
contains-decided_ids i d (send_form ∷ calls) h = contains-decided_ids i d calls h
contains-decided_ids i d (delete_request ∷ calls) h = contains-decided_ids i d calls h
contains-decided_ids i d (post_rating j ∷ calls) h = contains-decided_ids i d calls h

-- The calls other than decisions.
unfoldable pub IsOther : Call → Type 0
IsOther c = (i : ℕ) (d : Decision) → is_call c (post_decision i d) ≡ false

pub decided_id-other : (c : Call) → IsOther c → (x : Call) → is_call c x ≡ true → decided_id x ≡ []
unfolding IsOther
decided_id-other c other (post_decision i d) p = ground (arith, other i d)
decided_id-other c other get_home p = refl
decided_id-other c other get_bids p = refl
decided_id-other c other send_form p = refl
decided_id-other c other delete_request p = refl
decided_id-other c other (post_rating i) p = refl

pub take_out-other :
    (c : Call)
    → IsOther c
    → (calls : List Call) → decided_ids (take_out c calls) ≡ decided_ids calls
unfolding take_out
take_out-other c other [] = refl
take_out-other c other (x ∷ calls) = elim (Bool-cases (is_call c x)) [
  | inl p ↦ rw (p, decided_id-other c other x p) refl
  | inr p ↦ rw p (ap (decided_id x ++◌) (take_out-other c other calls))
]
