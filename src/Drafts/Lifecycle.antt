-- ===== src/Drafts/Lifecycle.antt =====
-- The life of a draft row: what the calls of Drafts.antt may do to it.
use ollum_sales.Prelude.{
  ℕ, ◌≤◌, ◌<◌, ◌≡◌, refl, Bool, true, List, [], ◌∷◌, Option, none, some, arith, length, All,
  Bool-cases, inl, inr,
}
use ollum_sales.Text.{Text, same}
use ollum_sales.Table.{find, update, insert}
use mathlib.Core.Path.{subst}
use ollum_sales.Text.Laws.{same_iff}
use ollum_sales.Table.Laws.{IsKeyed}
use ollum_sales.Schema.{Draft, DraftStatus, is_draft, is_approved, is_sending}
use ollum_sales.Drafts.{draft_at, approve_draft, set_status, mark_draft}

-- One move of a row; only a draft is approved, only an approved row is claimed, and only a claimed
-- row is released or finished.
pub data Step (d : Draft) (e : Draft) : Type 0 where
  stays : e ≡ d → Step d e
  approves : (t : ℕ) → is_draft d.status ≡ true → e ≡ approve_draft t d → Step d e
  claims : (t : ℕ) → is_approved d.status ≡ true → e ≡ set_status t DraftStatus.sending d → Step d e
  releases :
      (t : ℕ) → is_sending d.status ≡ true → e ≡ set_status t DraftStatus.approved d → Step d e
  finishes : (t : ℕ) (b : Bool) → is_sending d.status ≡ true → e ≡ mark_draft t b d → Step d e

abbrev pub Stage : DraftStatus → Option ℕ → Option ℕ → Type 0
Stage DraftStatus.draft a s = (a ≡ none) × (s ≡ none)
Stage DraftStatus.sent a s = ((t : ℕ) × (a ≡ some t)) × ((t : ℕ) × (s ≡ some t))
Stage DraftStatus.cancelled a s = s ≡ none
Stage _ a s = ((t : ℕ) × (a ≡ some t)) × (s ≡ none)

-- The time stamps of a row agree with its status, and its message can be sent.
pub record IsSound (d : Draft) : Type 0 where
  pub stage : Stage d.status d.approved_at d.sent_at
  pub not_empty : 0 < length d.message
  pub not_long : length d.message ≤ 4000

-- A row that `INSERT` adds.
pub record IsFresh (d : Draft) : Type 0 where
  pub unapproved : d.status ≡ DraftStatus.draft
  pub sound : IsSound d

-- Old rows make one move each, in place, and new rows stand behind them.
abbrev pub Evolves : List Draft → List Draft → Type 0
Evolves [] es = All IsFresh es
Evolves (d ∷ ds) [] = ⊥
Evolves (d ∷ ds) (e ∷ es) = Step d e × Evolves ds es

pub Evolves-refl : (ds : List Draft) → Evolves ds ds
Evolves-refl [] = tt
Evolves-refl (d ∷ ds) = (stays refl, Evolves-refl ds)

pub Evolves-insert : (ds : List Draft) (d : Draft) → IsFresh d → Evolves ds (insert d ds)
Evolves-insert [] d h = (h, tt)
Evolves-insert (x ∷ ds) d h = (stays refl, Evolves-insert ds d h)

pub Evolves-update :
    (p : Draft → Bool) (f : Draft → Draft) (ds : List Draft)
    → ((d : Draft) → p d ≡ true → Step d (f d))
    → Evolves ds (update p f ds)
unfolding update
Evolves-update p f [] h = tt
Evolves-update p f (d ∷ ds) h = elim (Bool-cases (p d)) [
  | inl e ↦ rw e (h d e, Evolves-update p f ds h)
  | inr e ↦ rw e (stays refl, Evolves-update p f ds h)
]

update-absent :
    (k : Text) (f : Draft → Draft) (ds : List Draft)
    → find (draft_at k) ds ≡ none
    → update (draft_at k) f ds ≡ ds
unfolding update find
update-absent k f [] h = refl
update-absent k f (d ∷ ds) h = ground (arith, update-absent k f ds)

-- Where ids are unique, an update by id moves the row that was found and read before.
pub Evolves-update_found :
    (k : Text) (f : Draft → Draft) (r : Draft) (ds : List Draft)
    → IsKeyed (λ d. d.id) ds
    → find (draft_at k) ds ≡ some r
    → Step r (f r)
    → Evolves ds (update (draft_at k) f ds)
unfolding update find
Evolves-update_found k f r [] u h st = tt
Evolves-update_found k f r (d ∷ ds) u h st = elim (Bool-cases (same d.id k)) [
  | inl e ↦
      let found : r ≡ d = ground arith in
      let key : d.id ≡ k = (same_iff d.id k).0 e in
      let absent : find (draft_at k) ds ≡ none = subst (λ j. find (draft_at j) ds ≡ none) key u.0 in
      rw e (subst (λ x. Step x (f x)) found st, rw (update-absent k f ds absent) (Evolves-refl ds))
  | inr e ↦ rw e (stays refl, Evolves-update_found k f r ds u.1 (ground arith) st)
]
