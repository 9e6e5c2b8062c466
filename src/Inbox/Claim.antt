-- ===== src/Inbox/Claim.antt =====
-- The lease of an event (`claim_next_agent_inbox_event` of app/crm.py).
use mathlib.Core.Path.{sym, subst}
use ollum_sales.Prelude.{
  ℕ, ◌+◌, ◌*◌, ◌<◌, ◌≡◌, ◌≢◌, refl, ap, ◌∙◌, Bool, true, false, ◌&&◌, List, [], ◌∷◌, Option, none,
  some, arith, All, Bool-cases, Option-cases, inl, inr, max,
}
use ollum_sales.Text.{Text}
use ollum_sales.Text.Laws.{same_iff, same_refl}
use ollum_sales.Exec.{ok, transaction, Reads, bind_returned, ◌>>=◌}
use ollum_sales.Clock.{second, stamp}
use ollum_sales.Table.{find, select, first_by}
use ollum_sales.Table.Laws.{IsKeyed, find-update, select-find, find-holds, update-IsKeyed}
use ollum_sales.Schema.{Db, InboxEvent}
use ollum_sales.Workspaces.{workspace_id}
use ollum_sales.Inbox.{
  event_at, event_in, set_events, is_claimable, lease, older, next_claimable, lease_row,
  claim_next_agent_inbox_event, clean_chat, claim_row,
}

abbrev pub event_id : InboxEvent → Text
event_id e = e.id

-- What `next_claimable` gives is in the table, under its id.
first-in-table :
    (p : InboxEvent → Bool) (es : List InboxEvent) (c : InboxEvent)
    → IsKeyed event_id es
    → first_by older (select p es) ≡ some c
    → find (event_at c.id) es ≡ some c
unfolding first_by select find
first-in-table p [] c u h = cc
first-in-table p (e ∷ es) c u h = elim (Option-cases (first_by older (select p es))) [
  | inl n ↦ ground (arith, same_refl e.id)
  | inr (y, n) ↦
      ground
        (arith, first-in-table p es y u.1 n, same_refl e.id, same_iff e.id y.id, same_iff y.id e.id)
]

older_asym : (x y : InboxEvent) → older x y ≡ true → older y x ≡ false
older_asym x y h = ground arith

older_irrefl : (x : InboxEvent) → older x x ≡ false
older_irrefl x = ground arith

not_older_trans : (x y z : InboxEvent) → older x y ≡ false → older y z ≡ false → older x z ≡ false
not_older_trans x y z h k = ground arith

abbrev NotOlder : (InboxEvent → Bool) → InboxEvent → InboxEvent → Type 0
NotOlder p c e = p e ≡ true → older e c ≡ false

All-NotOlder :
    (p : InboxEvent → Bool) (y c : InboxEvent) (es : List InboxEvent)
    → older y c ≡ false
    → All (NotOlder p y) es
    → All (NotOlder p c) es
All-NotOlder p y c [] h a = tt
All-NotOlder p y c (e ∷ es) h a =
    ((λ pe. not_older_trans e y c (a.0 pe) h), All-NotOlder p y c es h a.1)

-- The row is not both claimable and older than the one that is taken.
abbrev pub Waits : (InboxEvent → Bool) → InboxEvent → InboxEvent → Type 0
Waits p c e = (p e && older e c) ≡ false

All-Waits :
    (p : InboxEvent → Bool) (c : InboxEvent) (es : List InboxEvent)
    → All (NotOlder p c) es
    → All (Waits p c) es
All-Waits p c [] a = tt
All-Waits p c (e ∷ es) a = elim (Bool-cases (p e)) [
  | inl h ↦ (rw (h, a.0 h) refl, All-Waits p c es a.1)
  | inr h ↦ (rw h refl, All-Waits p c es a.1)
]

none-claimable :
    (p : InboxEvent → Bool) (c : InboxEvent) (es : List InboxEvent)
    → first_by older (select p es) ≡ none
    → All (NotOlder p c) es
unfolding first_by select
none-claimable p c [] h = tt
none-claimable p c (e ∷ es) h = elim (Bool-cases (p e)) [
  | inl a ↦ absurd (ground arith)
  | inr a ↦ ((λ b. cc (a, b)), none-claimable p c es (ground arith))
]

-- No other claimable event is older.
first-oldest :
    (p : InboxEvent → Bool) (es : List InboxEvent) (c : InboxEvent)
    → first_by older (select p es) ≡ some c
    → All (λ e. p e ≡ true → older e c ≡ false) es
unfolding first_by select
first-oldest p [] c h = tt
first-oldest p (e ∷ es) c h = elim (Bool-cases (p e)) [
  | inr a ↦ ((λ b. cc (a, b)), first-oldest p es c (ground arith))
  | inl a ↦ elim (Option-cases (first_by older (select p es))) [
    | inl n ↦
        let last : e ≡ c = ground arith in
        subst (λ x. All (NotOlder p x) (e ∷ es)) last
          ((λ _. older_irrefl e), none-claimable p e es n)
    | inr (y, n) ↦ elim (Bool-cases (older y e)) [
      | inl o ↦
          let first : y ≡ c = ground arith in
          subst (λ x. All (NotOlder p x) (e ∷ es)) first
            ((λ _. older_asym y e o), first-oldest p es y n)
      | inr o ↦
          let first : e ≡ c = ground arith in
          subst (λ x. All (NotOlder p x) (e ∷ es)) first
            ((λ _. older_irrefl e), All-NotOlder p y e es o (first-oldest p es y n))
    ]
  ]
]

-- The database after the event `id` of a workspace has been leased.
pub leased : Text → ℕ → ℕ → Text → Db → Db
unfolding set_events
leased k t lock id = set_events (event_in k id) (lease t lock)

-- A leased row is not claimable before its lease runs out.
lease-busy :
    (k k' : Text) (t t' lock : ℕ) (jid : Option Text) (c : InboxEvent)
    → t' < lock
    → is_claimable k' t' jid (lease t lock c) ≡ false
unfolding is_claimable
lease-busy k k' t t' lock jid c h = ground arith

workspace_id-Reads : (value : Text) → Reads (workspace_id value)
unfolding workspace_id
workspace_id-Reads value db = ground arith

clean_chat-Reads : (chat : Option Text) → Reads (clean_chat chat)
unfolding clean_chat
clean_chat-Reads chat db = ground arith

row-eq :
    (now seconds : ℕ) (k : Text) (jid : Option Text) (db db' : Db) (e : InboxEvent)
    → transaction (claim_row now seconds k jid) db ≡ (ok (some e), db')
    → (c : InboxEvent) × (next_claimable k (stamp now) jid db ≡ some c)
      × (db' ≡ leased k (stamp now) (stamp (now + max 30 seconds * second)) c.id db)
      × (find (event_at c.id) db'.events ≡ some e)
unfolding claim_row lease_row leased
row-eq now seconds k jid db db' e h = elim (Option-cases (next_claimable k (stamp now) jid db)) [
  | inl n ↦ absurd (ground arith)
  | inr (c, n) ↦ (c, n, ground arith, ground arith)
]

-- What a claim that returned an event has done.
claim-eq :
    (now seconds : ℕ) (workspace : Text) (chat : Option Text) (db db' : Db) (e : InboxEvent)
    → claim_next_agent_inbox_event now workspace seconds chat db ≡ (ok (some e), db')
    → (k : Text) × (jid : Option Text) × (c : InboxEvent) × (workspace_id workspace db ≡ (ok k, db))
      × (clean_chat chat db ≡ (ok jid, db))
      × (next_claimable k (stamp now) jid db ≡ some c)
      × (db' ≡ leased k (stamp now) (stamp (now + max 30 seconds * second)) c.id db)
      × (find (event_at c.id) db'.events ≡ some e)
unfolding claim_next_agent_inbox_event
claim-eq now seconds workspace chat db db' e h =
    let (k, s, hk, rest) =
      bind_returned (workspace_id workspace)
        (λ k. clean_chat chat >>= λ jid. transaction (claim_row now seconds k jid)) db db' (some e)
        h in
    let (jid, s', hj, last) =
      bind_returned (clean_chat chat) (λ jid. transaction (claim_row now seconds k jid)) s db'
        (some e) rest in
    let here : s ≡ db = ground (arith, workspace_id-Reads workspace db) in
    let there : s' ≡ db = ground (arith, clean_chat-Reads chat s) in
    let row =
      subst (λ x. transaction (claim_row now seconds k jid) x ≡ (ok (some e), db')) there last in
    let chat_eq : clean_chat chat db ≡ (ok jid, db) =
      subst (λ x. clean_chat chat x ≡ (ok jid, db)) here
        (subst (λ x. clean_chat chat s ≡ (ok jid, x)) there hj) in
    let (c, n, store, found) = row-eq now seconds k jid db db' e row in
    (
      k,
      jid,
      c,
      subst (λ x. workspace_id workspace db ≡ (ok k, x)) here hk,
      chat_eq,
      n,
      store,
      found,
    )

claimable-workspace :
    (k : Text) (t : ℕ) (jid : Option Text) (c : InboxEvent)
    → is_claimable k t jid c ≡ true
    → event_in k c.id c ≡ true
unfolding is_claimable
claimable-workspace k t jid c h = ground (arith, same_refl c.id)

-- The row that a lease leaves.
lease-found :
    (k : Text) (t lock : ℕ) (db : Db) (c : InboxEvent)
    → find (event_at c.id) db.events ≡ some c
    → event_in k c.id c ≡ true
    → find (event_at c.id) (leased k t lock c.id db).events ≡ some (lease t lock c)
unfolding leased set_events
lease-found k t lock db c n h =
    ground
      (arith, find-update (event_at c.id) (event_in k c.id) (lease t lock) db.events (λ _. refl))

same-some : {x y : InboxEvent} → some x ≡ some y → x ≡ y
same-some h = cc

-- Where event ids are unique, a claim that returns an event has leased one of its workspace, and of
-- its chat if one is given, that could be claimed (new, or processed under a lease that has run out)
-- and than which no other such event is older. The event is being processed, with one attempt more,
-- under a lease of 30 seconds at least.
pub claim_leases_oldest :
    (now seconds : ℕ) (workspace : Text) (chat : Option Text) (db db' : Db) (e : InboxEvent)
    → IsKeyed event_id db.events
    → claim_next_agent_inbox_event now workspace seconds chat db ≡ (ok (some e), db')
    → (k : Text) × (jid : Option Text) × (c : InboxEvent) × (workspace_id workspace db ≡ (ok k, db))
      × (clean_chat chat db ≡ (ok jid, db))
      × (find (event_at c.id) db.events ≡ some c)
      × (is_claimable k (stamp now) jid c ≡ true)
      × All (Waits (is_claimable k (stamp now) jid) c) db.events
      × (e ≡ lease (stamp now) (stamp (now + max 30 seconds * second)) c)
unfolding next_claimable
claim_leases_oldest now seconds workspace chat db db' e u h =
    let (k, jid, c, hk, hj, n, store, found) = claim-eq now seconds workspace chat db db' e h in
    let t = stamp now in
    let lock = stamp (now + max 30 seconds * second) in
    let claimable = select-find (is_claimable k t jid) older db.events c n in
    let row = first-in-table (is_claimable k t jid) db.events c u n in
    let left = lease-found k t lock db c row (claimable-workspace k t jid c claimable) in
    (
      k,
      jid,
      c,
      hk,
      hj,
      row,
      claimable,
      All-Waits (is_claimable k t jid) c db.events
          (first-oldest (is_claimable k t jid) db.events c n),
      same-some (sym found ∙ ap (λ (x : Db). find (event_at c.id) x.events) store ∙ left),
    )

leased-Keyed :
    (k : Text) (t lock : ℕ) (id : Text) (db : Db)
    → IsKeyed event_id db.events
    → IsKeyed event_id (leased k t lock id db).events
unfolding leased set_events
leased-Keyed k t lock id db u =
    update-IsKeyed event_id (event_in k id) (lease t lock) db.events (λ _. refl) u

-- Where event ids are unique, the next claim on the database that a claim of an event left, in any
-- workspace and with any arguments, does not return that event before its lease runs out.
pub claim_exclusive :
    (now now' seconds seconds' : ℕ) (workspace workspace' : Text) (chat chat' : Option Text)
    (db db' db'' : Db) (e e' : InboxEvent)
    → IsKeyed event_id db.events
    → claim_next_agent_inbox_event now workspace seconds chat db ≡ (ok (some e), db')
    → stamp now' < stamp (now + max 30 seconds * second)
    → claim_next_agent_inbox_event now' workspace' seconds' chat' db' ≡ (ok (some e'), db'')
    → e'.id ≢ e.id
unfolding next_claimable
claim_exclusive now now' seconds seconds' workspace workspace' chat chat' db db' db'' e e' u h lt h'
      same_id =
    let (k, jid, c, _, _, n, store, found) = claim-eq now seconds workspace chat db db' e h in
    let t = stamp now in
    let lock = stamp (now + max 30 seconds * second) in
    let held = select-find (is_claimable k t jid) older db.events c n in
    let held_row = first-in-table (is_claimable k t jid) db.events c u n in
    let left = lease-found k t lock db c held_row (claimable-workspace k t jid c held) in
    let u' : IsKeyed event_id db'.events =
      subst (λ (x : Db). IsKeyed event_id x.events) (sym store) (leased-Keyed k t lock c.id db u) in
    let e_eq : e ≡ lease t lock c =
      same-some (sym found ∙ ap (λ (x : Db). find (event_at c.id) x.events) store ∙ left) in
    let (k', jid', c', _, _, n', store', found') =
      claim-eq now' seconds' workspace' chat' db' db'' e' h' in
    let claimable = select-find (is_claimable k' (stamp now') jid') older db'.events c' n' in
    let row = first-in-table (is_claimable k' (stamp now') jid') db'.events c' u' n' in
    let kept : e'.id ≡ c'.id =
      ground (arith, find-holds (event_at c'.id) db''.events e' found', same_iff e'.id c'.id) in
    let there : c'.id ≡ c.id =
      sym kept
      ∙ same_id
      ∙ ground (arith, find-holds (event_at c.id) db'.events e found, same_iff e.id c.id) in
    let again : c' ≡ e =
      same-some (sym row ∙ ap (λ i. find (event_at i) db'.events) there ∙ found) in
    let busy = lease-busy k k' t (stamp now') lock jid' c lt in
    let free : is_claimable k' (stamp now') jid' (lease t lock c) ≡ true =
      subst (λ x. is_claimable k' (stamp now') jid' x ≡ true) (again ∙ e_eq) claimable in
    absurd (cc (busy, free))
