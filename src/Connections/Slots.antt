-- ===== src/Connections/Slots.antt =====
-- The table of connections of sources/request/io.cpp.
use vermell.Prelude.{
  ℕ, zero, suc, ◌+◌, ◌≡◌, refl, subst, ◌≢◌, inl, inr, none, some, List, [], ◌∷◌, arith, ◌==◌,
  if◌then◌else◌, Bool-cases,
}
use vermell.Connections.{
  Call, accepted, closed, sent, armed, ConnState, Slots, find_slot, has_pending, put_slot,
  drop_slot,
}

unfoldable pub count_slots : Slots → ℕ
count_slots [] = 0
count_slots (none ∷ slots) = count_slots slots
count_slots (some st ∷ slots) = suc (count_slots slots)

-- One for a descriptor with an entry.
unfoldable pub held : ℕ → Slots → ℕ
unfolding find_slot
held fd slots = if has_pending fd slots then 1 else 0

pub count_slots-put :
    (fd : ℕ) (st : ConnState) (slots : Slots)
    → count_slots (put_slot fd st slots) + held fd slots ≡ suc (count_slots slots)
unfolding count_slots put_slot held
count_slots-put zero st [] = refl
count_slots-put zero st (none ∷ slots) = omega arith
count_slots-put zero st (some _ ∷ slots) = omega arith
count_slots-put (suc fd) st [] = count_slots-put fd st []
count_slots-put (suc fd) st (none ∷ slots) = count_slots-put fd st slots
count_slots-put (suc fd) st (some _ ∷ slots) = omega (arith, count_slots-put fd st slots)

pub count_slots-drop :
    (fd : ℕ) (slots : Slots) → count_slots (drop_slot fd slots) + held fd slots ≡ count_slots slots
unfolding count_slots drop_slot held
count_slots-drop fd [] = omega arith
count_slots-drop zero (none ∷ slots) = omega arith
count_slots-drop zero (some _ ∷ slots) = omega arith
count_slots-drop (suc fd) (none ∷ slots) = count_slots-drop fd slots
count_slots-drop (suc fd) (some _ ∷ slots) = omega (arith, count_slots-drop fd slots)

pub held-put : (fd : ℕ) (st : ConnState) (slots : Slots) → held fd (put_slot fd st slots) ≡ 1
unfolding put_slot held
held-put zero st [] = refl
held-put zero st (slot ∷ slots) = refl
held-put (suc fd) st [] = held-put fd st []
held-put (suc fd) st (slot ∷ slots) = held-put fd st slots

pub held-put_other :
    (fd k : ℕ) (st : ConnState) (slots : Slots)
    → fd ≢ k
    → held k (put_slot fd st slots) ≡ held k slots
unfolding put_slot held
held-put_other zero zero st slots other = absurd (other refl)
held-put_other zero (suc k) st [] other = refl
held-put_other zero (suc k) st (slot ∷ slots) other = refl
held-put_other (suc fd) zero st [] other = refl
held-put_other (suc fd) zero st (slot ∷ slots) other = refl
held-put_other (suc fd) (suc k) st [] other = held-put_other fd k st [] (omega arith)
held-put_other (suc fd) (suc k) st (slot ∷ slots) other = held-put_other fd k st slots (omega arith)

pub held-drop : (fd : ℕ) (slots : Slots) → held fd (drop_slot fd slots) ≡ 0
unfolding drop_slot held
held-drop fd [] = refl
held-drop zero (slot ∷ slots) = refl
held-drop (suc fd) (slot ∷ slots) = held-drop fd slots

pub held-drop_other :
    (fd k : ℕ) (slots : Slots) → fd ≢ k → held k (drop_slot fd slots) ≡ held k slots
unfolding drop_slot held
held-drop_other fd k [] other = refl
held-drop_other zero zero (slot ∷ slots) other = absurd (other refl)
held-drop_other zero (suc k) (slot ∷ slots) other = refl
held-drop_other (suc fd) zero (slot ∷ slots) other = refl
held-drop_other (suc fd) (suc k) (slot ∷ slots) other = held-drop_other fd k slots (omega arith)

-- How often a descriptor was accepted, and how often closed.
unfoldable pub opens : ℕ → List Call → ℕ
opens fd [] = 0
opens fd (accepted k ∷ calls) = (if fd == k then 1 else 0) + opens fd calls
opens fd (closed k ∷ calls) = opens fd calls
opens fd (sent k response ∷ calls) = opens fd calls
opens fd (armed k ∷ calls) = opens fd calls

unfoldable pub closes : ℕ → List Call → ℕ
closes fd [] = 0
closes fd (accepted k ∷ calls) = closes fd calls
closes fd (closed k ∷ calls) = (if fd == k then 1 else 0) + closes fd calls
closes fd (sent k response ∷ calls) = closes fd calls
closes fd (armed k ∷ calls) = closes fd calls

-- Its acceptances are its closes, and one more while it has an entry.
abbrev pub IsBalanced : Slots → List Call → Type 0
IsBalanced slots calls = (fd : ℕ) → opens fd calls ≡ closes fd calls + held fd slots

pub put-IsBalanced :
    (fd : ℕ) (st : ConnState) (slots : Slots) (calls : List Call)
    → held fd slots ≡ 1
    → IsBalanced slots calls
    → IsBalanced (put_slot fd st slots) calls
put-IsBalanced fd st slots calls here balanced k = elim (Bool-cases (fd == k)) [
  | inl e ↦
      let same_fd : fd ≡ k = ground arith in
      subst (λ k. opens k calls ≡ closes k calls + held k (put_slot fd st slots)) same_fd
        (omega (arith, balanced fd, held-put fd st slots))
  | inr other ↦ omega (arith, balanced k, held-put_other fd k st slots (ground arith))
]

pub accept-IsBalanced :
    (fd : ℕ) (st : ConnState) (slots : Slots) (calls : List Call)
    → held fd slots ≡ 0
    → IsBalanced slots calls
    → IsBalanced (put_slot fd st slots) (accepted fd ∷ calls)
unfolding opens closes
accept-IsBalanced fd st slots calls here balanced k = elim (Bool-cases (fd == k)) [
  | inl e ↦
      let same_fd : fd ≡ k = ground arith in
      subst
        (λ k.
          opens k (accepted fd ∷ calls)
          ≡ closes k (accepted fd ∷ calls) + held k (put_slot fd st slots))
        same_fd (ground (arith, balanced fd, held-put fd st slots))
  | inr other ↦ ground (arith, balanced k, held-put_other fd k st slots (ground arith))
]

pub close-IsBalanced :
    (fd : ℕ) (slots : Slots) (calls : List Call)
    → held fd slots ≡ 1
    → IsBalanced slots calls
    → IsBalanced (drop_slot fd slots) (closed fd ∷ calls)
unfolding opens closes
close-IsBalanced fd slots calls here balanced k = elim (Bool-cases (fd == k)) [
  | inl e ↦
      let same_fd : fd ≡ k = ground arith in
      subst
        (λ k.
          opens k (closed fd ∷ calls) ≡ closes k (closed fd ∷ calls) + held k (drop_slot fd slots))
        same_fd (ground (arith, balanced fd, held-drop fd slots))
  | inr other ↦ ground (arith, balanced k, held-drop_other fd k slots (ground arith))
]

pub turn_away-IsBalanced :
    (fd : ℕ) (slots : Slots) (calls : List Call)
    → IsBalanced slots calls
    → IsBalanced slots (closed fd ∷ accepted fd ∷ calls)
unfolding opens closes
turn_away-IsBalanced fd slots calls balanced k = ground (arith, balanced k)
