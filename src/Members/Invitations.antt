-- ===== src/Members/Invitations.antt =====
-- The newest open invitation that an admission takes, and its acceptance (app/crm.py).
use ollum_sales.Prelude.{
  ℕ, ◌≤◌, ◌≡◌, ◌⊎◌, Bool, true, false, List, [], ◌∷◌, none, some, arith, All, Bool-cases,
  Option-cases, inl, inr,
}
use ollum_sales.Text.{Text, same}
use ollum_sales.Table.{select, update, first_by}
use ollum_sales.Schema.{Invitation}
use ollum_sales.Members.{is_open_invitation, newer, invitation_at, accept}

-- An invitation of the list.
abbrev pub Has : Invitation → List Invitation → Type 0
Has i [] = ⊥
Has i (j ∷ js) = (i ≡ j) ⊎ Has i js

pub first-Has :
    (p : Invitation → Bool) (is : List Invitation) (i : Invitation)
    → first_by newer (select p is) ≡ some i
    → Has i is
unfolding first_by select
first-Has p [] i h = cc
first-Has p (j ∷ js) i h = elim (Bool-cases (p j)) [
  | inr a ↦ inr (first-Has p js i (ground arith))
  | inl a ↦ elim (Option-cases (first_by newer (select p js))) [
    | inl n ↦ inl (ground arith)
    | inr (y, n) ↦ elim (Bool-cases (newer y j)) [
      | inl o ↦ inr (first-Has p js i (ground arith))
      | inr o ↦ inl (ground arith)
    ]
  ]
]

pub first-none :
    (p : Invitation → Bool) (is : List Invitation)
    → first_by newer (select p is) ≡ none
    → All (λ j. p j ≡ false) is
unfolding first_by select
first-none p [] h = tt
first-none p (j ∷ js) h = elim (Bool-cases (p j)) [
  | inl e ↦ absurd (ground arith)
  | inr e ↦ (e, first-none p js (ground arith))
]

All-none :
    (p : Invitation → Bool) (i : Invitation) (is : List Invitation)
    → All (λ j. p j ≡ false) is
    → All (λ j. p j ≡ true → j.created_at ≤ i.created_at) is
All-none p i [] a = tt
All-none p i (j ∷ js) a = ((λ b. absurd (ground (arith, a.0))), All-none p i js a.1)

All-newer :
    (p : Invitation → Bool) (y i : Invitation) (is : List Invitation)
    → y.created_at ≤ i.created_at
    → All (λ j. p j ≡ true → j.created_at ≤ y.created_at) is
    → All (λ j. p j ≡ true → j.created_at ≤ i.created_at) is
All-newer p y i [] h a = tt
All-newer p y i (j ∷ js) h a = ((λ b. omega (arith, a.0 b)), All-newer p y i js h a.1)

pub first-newest :
    (p : Invitation → Bool) (is : List Invitation) (i : Invitation)
    → first_by newer (select p is) ≡ some i
    → All (λ j. p j ≡ true → j.created_at ≤ i.created_at) is
unfolding first_by select
first-newest p [] i h = tt
first-newest p (j ∷ js) i h = elim (Bool-cases (p j)) [
  | inr a ↦ ((λ b. absurd (ground arith)), first-newest p js i (ground arith))
  | inl a ↦ elim (Option-cases (first_by newer (select p js))) [
    | inl n ↦
        let last : i ≡ j = ground arith in
        ((λ _. rw last (omega arith)), All-none p i js (first-none p js n))
    | inr (y, n) ↦ elim (Bool-cases (newer y j)) [
      | inl o ↦
          let first : i ≡ y = ground arith in
          ((λ _. rw first (ground arith)), first-newest p js i (ground arith))
      | inr o ↦
          let first : i ≡ j = ground arith in
          (
            (λ _. rw first (omega arith)),
            All-newer p y i js (rw first (ground arith)) (first-newest p js y n),
          )
    ]
  ]
]

pub accepted-closed :
    (t t' : ℕ) (k email id : Text) (is : List Invitation)
    → All
        (λ j. same j.id id ≡ true → is_open_invitation k email t j ≡ false)
        (update (invitation_at id) (accept t') is)
unfolding update
accepted-closed t t' k email id [] = tt
accepted-closed t t' k email id (j ∷ js) = elim (Bool-cases (same j.id id)) [
  | inl e ↦ rw e ((λ _. ground arith), accepted-closed t t' k email id js)
  | inr e ↦ rw e ((λ b. absurd (ground arith)), accepted-closed t t' k email id js)
]
