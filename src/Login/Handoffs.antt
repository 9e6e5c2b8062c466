-- ===== src/Login/Handoffs.antt =====
-- Handoffs of a sign-in (`issue_login_handoff` and `consume_login_handoff` of app/auth.py).
use ollum_sales.Prelude.{
  ℕ, ◌+◌, ◌*◌, ◌<◌, ◌≡◌, ◌∙◌, false, not, ◌||◌, List, [], ◌∷◌, none, some, arith, length, ltb, leb,
  All,
}
use ollum_sales.Text.{Text, same, is_empty}
use ollum_sales.Text.Laws.{same_refl}
use ollum_sales.Table.{find}
use ollum_sales.Table.Delete.{
  find-select-none, find-select_other, find-select_kept, find-insert_self, find-insert_other,
}
use ollum_sales.Oauth.{delete}
use ollum_sales.Clock.{second}
use ollum_sales.Login.{
  User, Handoff, handoff_at, handoff_seconds, discard_expired_handoffs, issue_login_handoff,
  consume_login_handoff,
}

pub data HandoffCall : Type 0 where
  issues : ℕ → Text → User → HandoffCall
  consumes : ℕ → Text → HandoffCall

unfoldable pub handoffs_after : List Handoff → HandoffCall → List Handoff
handoffs_after hs (issues now code user) = (issue_login_handoff now code user hs).1
handoffs_after hs (consumes now code) = (consume_login_handoff now code hs).1

unfoldable pub handoffs_run : List Handoff → List HandoffCall → List Handoff
unfolding handoffs_after
handoffs_run hs [] = hs
handoffs_run hs (c ∷ cs) = handoffs_run (handoffs_after hs c) cs

-- Does a call issue another code than this?
abbrev pub SparesCode : Text → HandoffCall → Type 0
SparesCode k (issues now code user) = same code k ≡ false
SparesCode k (consumes now code) = Unit

absent-after :
    (k : Text) (hs : List Handoff) (c : HandoffCall)
    → SparesCode k c
    → find (handoff_at k) hs ≡ none
    → find (handoff_at k) (handoffs_after hs c) ≡ none
unfolding handoffs_after issue_login_handoff consume_login_handoff
absent-after k hs (issues now code user) s h =
    let live = discard_expired_handoffs now hs in
    let entry : Handoff = record {
      code = code;
      deadline = now + handoff_seconds * second;
      user = user;
    } in
    find-insert_other (handoff_at k) entry (delete (handoff_at code) live) s
    ∙ find-select-none (handoff_at k) (λ x. not (handoff_at code x)) live
        (unfold discard_expired_handoffs in
          find-select-none (handoff_at k) (λ x. not (leb x.deadline now)) hs h)
absent-after k hs (consumes now code) s h =
    let live : find (handoff_at k) (discard_expired_handoffs now hs) ≡ none =
      unfold discard_expired_handoffs in
      find-select-none (handoff_at k) (λ x. not (leb x.deadline now)) hs h in
    let rest =
      find-select-none (handoff_at k) (λ x. not (handoff_at code x))
        (discard_expired_handoffs now hs) live in
    ground arith

absent-run :
    (k : Text) (hs : List Handoff) (cs : List HandoffCall)
    → All (SparesCode k) cs
    → find (handoff_at k) hs ≡ none
    → find (handoff_at k) (handoffs_run hs cs) ≡ none
unfolding handoffs_run
absent-run k hs [] s h = h
absent-run k hs (c ∷ cs) s h = absent-run k (handoffs_after hs c) cs s.1 (absent-after k hs c s.0 h)

consumed-absent :
    (now : ℕ) (k : Text) (hs : List Handoff)
    → (is_empty k || ltb 256 (length k)) ≡ false
    → find (handoff_at k) (consume_login_handoff now k hs).1 ≡ none
unfolding consume_login_handoff
consumed-absent now k hs h = rw h (
    find-select_other (handoff_at k) (λ x. not (handoff_at k x)) (discard_expired_handoffs now hs)
      (λ x e. ground arith))

absent-consume :
    (now : ℕ) (k : Text) (hs : List Handoff)
    → find (handoff_at k) hs ≡ none
    → (consume_login_handoff now k hs).0 ≡ none
unfolding consume_login_handoff discard_expired_handoffs
absent-consume now k hs h =
    ground (arith, find-select-none (handoff_at k) (λ (x : Handoff). not (leb x.deadline now)) hs)

-- A handoff that was issued is consumed by its code for its user before its two minutes are over, if the
-- code has 1 to 256 characters; after it was consumed, and after any further calls none of which issues
-- the code again, consuming it gives nothing.
pub handoff_roundtrip :
    (now now' now'' : ℕ) (code : Text) (user : User) (hs : List Handoff) (cs : List HandoffCall)
    → (is_empty code || ltb 256 (length code)) ≡ false
    → now' < now + handoff_seconds * second
    → All (SparesCode code) cs
    → ((consume_login_handoff now' code (issue_login_handoff now code user hs).1).0 ≡ some user)
      × ((consume_login_handoff now'' code (
            handoffs_run
              (consume_login_handoff now' code (issue_login_handoff now code user hs).1).1
              cs)).0
          ≡ none)
handoff_roundtrip now now' now'' code user hs cs n lt s =
    let issued = (issue_login_handoff now code user hs).1 in
    let live = discard_expired_handoffs now hs in
    let entry : Handoff = record {
      code = code;
      deadline = now + handoff_seconds * second;
      user = user;
    } in
    let stored : find (handoff_at code) issued ≡ some entry =
      unfold issue_login_handoff in
      find-insert_self (handoff_at code) entry (delete (handoff_at code) live)
        (find-select_other (handoff_at code) (λ x. not (handoff_at code x)) live
          (λ x e. ground arith))
        (same_refl code) in
    let kept : find (handoff_at code) (discard_expired_handoffs now' issued) ≡ some entry =
      unfold discard_expired_handoffs in
      find-select_kept (handoff_at code) (λ x. not (leb x.deadline now')) issued entry stored
        (ground arith) in
    (
      unfold consume_login_handoff in rw (n, kept) (ground arith),
      absent-consume now'' code (handoffs_run (consume_login_handoff now' code issued).1 cs) (
          absent-run code (consume_login_handoff now' code issued).1 cs s
            (consumed-absent now' code issued n)),
    )
