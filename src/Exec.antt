-- ===== src/Exec.antt =====
-- Methods that change a store and may raise (a Python method of `SalesCRM`), and the context
-- manager `SalesCRM.connect` (app/crm.py) as a transaction: it commits when its block ends, by an
-- early `return` too, and rolls back when the block raises.
use mathlib.Core.Path.{subst}
use ollum_sales.Prelude.{
  ◌≡◌, ◌⊎◌, inl, inr, ap, refl, sym, Bool, true, false, Option, none, some, arith,
}

-- `E` is the type of the exceptions.
pub data Result {ℓ} (E A : Type ℓ) : Type ℓ where
  ok : A → Result E A
  err : E → Result E A

abbrev pub Exec : Type 0 → Type 0 → Type 0 → Type 0
Exec S E A = S → Result E A × S

module _ {S E A : Type 0} where
  abbrev pub pure : A → Exec S E A
  pure a s = (ok a, s)

  abbrev pub raise : E → Exec S E A
  raise e s = (err e, s)

  abbrev pub gets : (S → A) → Exec S E A
  gets f s = (ok (f s), s)

  -- A row, or the exception for a row that is not there.
  abbrev pub or_raise : Option A → E → Exec S E A
  or_raise none e s = (err e, s)
  or_raise (some a) e s = (ok a, s)

infixl 5 ◌>>=◌ ◌>>◌
abbrev pub ◌>>=◌ : {S E A B : Type 0} → Exec S E A → (A → Exec S E B) → Exec S E B
◌>>=◌ m f s = let (r, s') = m s in elim r [ ok a ↦ f a s' | err e ↦ (err e, s') ]

abbrev pub ◌>>◌ : {S E A B : Type 0} → Exec S E A → Exec S E B → Exec S E B
m >> k = m >>= λ _. k

module _ {S E : Type 0} where
  abbrev pub raise_if : Bool → E → Exec S E (Unit {0})
  raise_if true e s = (err e, s)
  raise_if false e s = (ok tt, s)

  abbrev pub modify : (S → S) → Exec S E (Unit {0})
  modify f s = (ok tt, f s)

  -- A write that a constraint refuses in the given case.
  abbrev pub modify_unless : Bool → E → (S → S) → Exec S E (Unit {0})
  modify_unless true e f s = (err e, s)
  modify_unless false e f s = (ok tt, f s)

-- `with self.connect() as connection: …`
abbrev pub settle : {S E A : Type 0} → S → Result E A × S → Result E A × S
settle s (ok a, s') = (ok a, s')
settle s (err e, s') = (err e, s)

abbrev pub transaction : {S E A : Type 0} → Exec S E A → Exec S E A
transaction m s = settle s (m s)

-- A call that raised left the store as it was.
abbrev pub RaisesUnchanged : {S E A : Type 0} → S → Result E A × S → Type 0
RaisesUnchanged s (ok a, s') = Unit
RaisesUnchanged s (err e, s') = s' ≡ s

-- What a call that returned promises of the store and of its value; a call that raised is refused.
abbrev pub Returns : {S E A : Type 0} → (A → S → Type 0) → Result E A × S → Type 0
Returns P (ok a, s') = P a s'
Returns P (err e, s') = ⊥

-- A call that raised and left the store as it was.
abbrev pub Refused : {S E A : Type 0} → S → Result E A × S → Type 0
Refused {E = E} s x = (e : E) × (x ≡ (err e, s))

-- A call that only reads, and what is known of the store after it.
abbrev pub Reads : {S E A : Type 0} → Exec S E A → Type 0
Reads {S} m = (s : S) → (m s).1 ≡ s

pub bind_reader :
    {S E A B : Type 0} (m : Exec S E A) (n : A → Exec S E B) (s : S)
    → ((a : A) → Reads (n a))
    → ((m >>= n) s).1 ≡ (m s).1
bind_reader {S} {E} {A} {B} m n s h = go (m s)
  where
    go :
        (x : Result E A × S)
        → (elim x.0 as (λ _. Result E B × S) [ ok a ↦ n a x.1 | err e ↦ (err e, x.1) ]).1 ≡ x.1
    go (ok a, s') = h a s'
    go (err e, s') = refl

-- A block that returned ran its first call, and then the rest from where that call left the store.
pub bind_returned :
    {S E A B : Type 0} (m : Exec S E A) (n : A → Exec S E B) (s s' : S) (b : B)
    → (m >>= n) s ≡ (ok b, s')
    → (a : A) × (t : S) × (m s ≡ (ok a, t)) × (n a t ≡ (ok b, s'))
bind_returned {S} {E} {A} {B} m n s s' b h = go (m s) refl h
  where
    go :
        (x : Result E A × S)
        → m s ≡ x
        → (elim x.0 as (λ _. Result E B × S) [ ok a ↦ n a x.1 | err e ↦ (err e, x.1) ]) ≡ (ok b, s')
        → (a : A) × (t : S) × (m s ≡ (ok a, t)) × (n a t ≡ (ok b, s'))
    go (ok a, t) e k = (a, t, e, k)
    go (err x, t) e k = cc

module _ {S E A : Type 0} where
  pub raise_if_returned :
      (b : Bool) (e : E) (m : Exec S E A) (s s' : S) (a : A)
      → (raise_if b e >> m) s ≡ (ok a, s')
      → (b ≡ false) × (m s ≡ (ok a, s'))
  raise_if_returned true e m s s' a h = absurd (ground arith)
  raise_if_returned false e m s s' a h = (refl, h)

  pub or_raise_returned :
      {B : Type 0} (x : Option B) (e : E) (f : B → Exec S E A) (s s' : S) (a : A)
      → (or_raise x e >>= f) s ≡ (ok a, s')
      → (b : B) × (x ≡ some b) × (f b s ≡ (ok a, s'))
  or_raise_returned none e f s s' a h = absurd (ground arith)
  or_raise_returned (some b) e f s s' a h = (b, refl, h)

  pub pure_returned : (a b : A) (s s' : S) → pure {E = E} a s ≡ (ok b, s') → (b ≡ a) × (s' ≡ s)
  pure_returned a b s s' h = (ground arith, ground arith)

-- What the rest of a block leaves as it was is as the first call left it.
pub bind_view :
    {S E A B X : Type 0} (view : S → X) (m : Exec S E A) (n : A → Exec S E B) (s : S)
    → ((a : A) (t : S) → view (n a t).1 ≡ view t)
    → view ((m >>= n) s).1 ≡ view (m s).1
bind_view {S} {E} {A} {B} view m n s h = go (m s)
  where
    go :
        (x : Result E A × S)
        → view (elim x.0 as (λ _. Result E B × S) [ ok a ↦ n a x.1 | err e ↦ (err e, x.1) ]).1
          ≡ view x.1
    go (ok a, t) = h a t
    go (err e, t) = refl

-- What holds before a call, and after each way that its parts may end, holds after it.
module _ {S E A B : Type 0} (P : S → Type 0) where
  pub bind_keeps :
      (m : Exec S E A) (n : A → Exec S E B) (s : S)
      → P (m s).1
      → ((a : A) → P (n a (m s).1).1)
      → P ((m >>= n) s).1
  bind_keeps m n s h k = go (m s) h k
    where
      go :
          (x : Result E A × S)
          → P x.1
          → ((a : A) → P (n a x.1).1)
          → P (elim x.0 as (λ _. Result E B × S) [ ok a ↦ n a x.1 | err e ↦ (err e, x.1) ]).1
      go (ok a, t) h k = k a
      go (err e, t) h k = h

module _ {S E A : Type 0} (P : S → Type 0) where
  pub transaction_keeps : (m : Exec S E A) (s : S) → P s → P (m s).1 → P (transaction m s).1
  transaction_keeps m s h k = go (m s) k
    where
      go : (x : Result E A × S) → P x.1 → P (settle s x).1
      go (ok a, t) k = k
      go (err e, t) k = h

module _ {S E A B : Type 0} (P : S → Type 0) where
  -- The same, where the first part only reads.
  pub reader_keeps :
      (m : Exec S E A) (n : A → Exec S E B) (s : S)
      → (m s).1 ≡ s
      → P s
      → ((a : A) → P (n a s).1)
      → P ((m >>= n) s).1
  reader_keeps m n s e h k =
      bind_keeps P m n s (subst P (sym e) h) (λ a. subst (λ t. P (n a t).1) (sym e) (k a))

module _ {S E A : Type 0} where
  pub or_raise-Reads : (x : Option A) (e : E) → Reads (or_raise {S = S} x e)
  or_raise-Reads none e s = refl
  or_raise-Reads (some a) e s = refl

module _ {S E : Type 0} where
  pub raise_if-Reads : (b : Bool) (e : E) → Reads (raise_if {S = S} b e)
  raise_if-Reads true e s = refl
  raise_if-Reads false e s = refl

-- What a call that only reads may do.
pub read_cases :
    {S E A : Type 0} (m : Exec S E A) (s : S)
    → Reads m
    → ((e : E) × (m s ≡ (err e, s))) ⊎ ((a : A) × (m s ≡ (ok a, s)))
read_cases {S} {E} {A} m s h = go (m s) (h s)
  where
    go : (x : Result E A × S) → x.1 ≡ s → ((e : E) × (x ≡ (err e, s))) ⊎ ((a : A) × (x ≡ (ok a, s)))
    go (ok a, t) e = inr (a, ap (λ (y : S). (ok a, y)) e)
    go (err x, t) e = inl (x, ap (λ (y : S). (err x, y)) e)

module _ {S E A B : Type 0} (P : S → Type 0) where
  -- The rest of a block may use what its first part, which only reads, returned.
  pub returned_keeps :
      (m : Exec S E A) (n : A → Exec S E B) (s : S)
      → Reads m
      → P s
      → ((a : A) → m s ≡ (ok a, s) → P (n a s).1)
      → P ((m >>= n) s).1
  returned_keeps m n s r h k = go (m s) refl (r s)
    where
      go :
          (x : Result E A × S)
          → m s ≡ x
          → x.1 ≡ s
          → P (elim x.0 as (λ _. Result E B × S) [ ok a ↦ n a x.1 | err e ↦ (err e, x.1) ]).1
      go (ok a, t) e q =
          let now : m s ≡ (ok a, s) = cc in subst (λ y. P (n a y).1) (sym q) (k a now)
      go (err x, t) e q = subst P (sym q) h

pub transaction_returned :
    {S E A : Type 0} (m : Exec S E A) (s s' : S) (a : A)
    → transaction m s ≡ (ok a, s')
    → m s ≡ (ok a, s')
transaction_returned {S} {E} {A} m s s' a h = go (m s) h
  where
    go : (x : Result E A × S) → settle s x ≡ (ok a, s') → x ≡ (ok a, s')
    go (ok b, t) h = h
    go (err e, t) h = cc
