-- ===== src/Retry/Attempts.antt =====
-- The attempts of `retry_call` (app/data_quality.py), where a history keeps what happens.
use ollum_sales.Prelude.{
  ℕ, zero, suc, ◌+◌, ◌-◌, ◌≤◌, ◌≡◌, ◌⊎◌, refl, ap, ◌∙◌, Bool, true, false, not, ◌&&◌, ◌||◌, List,
  [], ◌∷◌, Option, none, some, arith, Bool-cases, Option-cases, inl, inr, leb, min,
}
use mathlib.Core.Path.{subst}
use ollum_sales.Exec.{Exec, Result, ok, err, ◌>>◌}
use ollum_sales.Retry.{Retry, total_attempts, doubled, notify, attempt_from, retry_call}

-- How often the operation was called, and the sleeps and the attempts that `on_retry` was told, the
-- last one first.
pub record History : Type 0 where
  pub calls : ℕ
  pub slept : List ℕ
  pub told : List ℕ

abbrev rest_of : ℕ → ℕ
rest_of attempts = total_attempts attempts - 1

total_suc : (attempts : ℕ) → suc (rest_of attempts) ≡ total_attempts attempts
total_suc attempts = omega arith

module _ {E A : Type 0} (answer : ℕ → Result E A) (retryable : E → Bool) (exhausted : E)
    (hook : Option (ℕ → E → Option E)) where
  -- What `on_retry` raises, if it is there.
  abbrev pub raised_by : Option (ℕ → E → Option E) → ℕ → E → Option E
  raised_by none attempt e = none
  raised_by (some f) attempt e = f attempt e

  abbrev pub noted : Option (ℕ → E → Option E) → ℕ → List ℕ → List ℕ
  noted none attempt before = before
  noted (some f) attempt before = attempt ∷ before

  abbrev unless_raised : Option E → Result E (Unit {0})
  unless_raised none = ok tt
  unless_raised (some x) = err x

  abbrev pub on_retry_of : Option (ℕ → E → Option E) → Option (ℕ → E → Exec History E (Unit {0}))
  on_retry_of none = none
  on_retry_of (some f) =
      some (λ attempt e h. (unless_raised (f attempt e), record h { told = attempt ∷ h.told }))

  -- An operation whose calls have the given answers in turn, and an `on_retry` that may be there and may raise.
  abbrev pub recorded : Retry History E A
  recorded = record {
    operation = λ h. (answer h.calls, record h { calls = suc h.calls });
    retryable = retryable;
    on_retry = on_retry_of hook;
    sleep = λ d h. (ok tt, record h { slept = d ∷ h.slept });
    exhausted = exhausted;
  }

  abbrev pub is_none : Option E → Bool
  is_none none = true
  is_none (some x) = false

  abbrev pub is_retryable : Result E A → Bool
  is_retryable (ok a) = false
  is_retryable (err e) = retryable e

  -- The answer is an exception that is retried, of which `on_retry` is told without an exception.
  abbrev pub is_retried : ℕ → Result E A → Bool
  is_retried attempt (ok a) = false
  is_retried attempt (err e) = retryable e && is_none (raised_by hook attempt e)

  -- The calls from `n` on that are tried again, `k` of them.
  abbrev pub Retried : ℕ → ℕ → Type 0
  Retried n zero = Unit
  Retried n (suc k) = (is_retried (suc n) (answer n) ≡ true) × Retried (suc n) k

  -- The sleeps of `k` retries, after those that were there.
  abbrev pub sleeps : ℕ → ℕ → ℕ → List ℕ → List ℕ
  sleeps max_delay delay zero before = before
  sleeps max_delay delay (suc k) before =
      sleeps max_delay (doubled delay) k (min delay max_delay ∷ before)

  -- The attempts that `on_retry` is told in `k` retries from `n` calls on.
  abbrev pub notes : ℕ → ℕ → List ℕ → List ℕ
  notes n zero before = before
  notes n (suc k) before = notes (suc n) k (noted hook (suc n) before)

  -- The end of a run in its call `last`: its answer, where it is not to be retried or was the last of the
  -- attempts; or the exception of `on_retry`, which was told of it while attempts were left.
  pub data Ends (n left retries last : ℕ) (before : List ℕ) (x : Result E A × History)
      : Type 0 where
    answered :
        x.0 ≡ answer last
        → (is_retryable (answer last) ≡ false) ⊎ (suc retries ≡ left)
        → x.1.told ≡ notes n retries before
        → Ends n left retries last before x
    interrupted :
        (e y : E)
        → answer last ≡ err e
        → retryable e ≡ true
        → suc retries ≤ left - 1
        → raised_by hook (suc last) e ≡ some y
        → x.0 ≡ err y
        → x.1.told ≡ noted hook (suc last) (notes n retries before)
        → Ends n left retries last before x

  -- What a run of the loop from `n` calls does, with `left` attempts.
  pub record Tried (n left max_delay delay : ℕ) (before told : List ℕ) (x : Result E A × History)
      : Type 0 where
    pub retries : ℕ
    pub few : suc retries ≤ left
    pub all_retried : Retried n retries
    pub last : ℕ
    pub place : last ≡ n + retries
    pub calls : x.1.calls ≡ suc last
    pub slept : x.1.slept ≡ sleeps max_delay delay retries before
    pub ends : Ends n left retries last told x

  -- The first attempt has ended the loop.
  ended :
      (n left max_delay delay : ℕ) (before told : List ℕ) (x : Result E A × History)
      → x ≡ (answer n, record { calls = suc n; slept = before; told = told })
      → (is_retryable (answer n) ≡ false) ⊎ (1 ≡ suc left)
      → Tried n (suc left) max_delay delay before told x
  ended n left max_delay delay before told x e stop = record {
    retries = 0;
    few = omega arith;
    all_retried = tt;
    last = n;
    place = omega arith;
    calls = ap (λ (y : Result E A × History). y.1.calls) e;
    slept = ap (λ (y : Result E A × History). y.1.slept) e;
    ends =
        answered (ap (λ (y : Result E A × History). y.0) e) stop
          (ap (λ (y : Result E A × History). y.1.told) e);
  }

  -- After the first attempt `on_retry` has raised.
  stopped :
      (n left max_delay delay : ℕ) (before told : List ℕ) (x : Result E A × History) (e y : E)
      → x ≡ (err y, record { calls = suc n; slept = before; told = noted hook (suc n) told })
      → answer n ≡ err e
      → retryable e ≡ true
      → raised_by hook (suc n) e ≡ some y
      → Tried n (suc (suc left)) max_delay delay before told x
  stopped n left max_delay delay before told x e y q a r b = record {
    retries = 0;
    few = omega arith;
    all_retried = tt;
    last = n;
    place = omega arith;
    calls = ap (λ (z : Result E A × History). z.1.calls) q;
    slept = ap (λ (z : Result E A × History). z.1.slept) q;
    ends =
        interrupted e y a r (omega arith) b (ap (λ (z : Result E A × History). z.0) q)
          (ap (λ (z : Result E A × History). z.1.told) q);
  }

  -- An end of the rest of the loop is one of the loop.
  later-Ends :
      (n left retries last : ℕ) (told : List ℕ) (x y : Result E A × History)
      → x ≡ y
      → Ends (suc n) (suc left) retries last (noted hook (suc n) told) y
      → Ends n (suc (suc left)) (suc retries) last told x
  later-Ends n left retries last told x y e (answered r s t) =
      answered (ap (λ (z : Result E A × History). z.0) e ∙ r)
        (elim s [ inl a ↦ inl a | inr b ↦ inr (ap (λ i. suc i) b) ])
        (ap (λ (z : Result E A × History). z.1.told) e ∙ t)
  later-Ends n left retries last told x y e (interrupted d z a r l b c t) =
      interrupted d z a r (omega (arith, l)) b (ap (λ (z : Result E A × History). z.0) e ∙ c)
        (ap (λ (z : Result E A × History). z.1.told) e ∙ t)

  -- The first attempt is tried again, and the rest of the loop follows.
  continued :
      (n left max_delay delay : ℕ) (before told : List ℕ) (x y : Result E A × History)
      → x ≡ y
      → is_retried (suc n) (answer n) ≡ true
      → Tried
          (suc n)
          (suc left)
          max_delay
          (doubled delay)
          (min delay max_delay ∷ before)
          (noted hook (suc n) told)
          y
      → Tried n (suc (suc left)) max_delay delay before told x
  continued n left max_delay delay before told x y e retried t = record {
    retries = suc t.retries;
    few = omega (arith, t.few);
    all_retried = (retried, t.all_retried);
    last = t.last;
    place = omega (arith, t.place);
    calls = rw e (t.calls);
    slept = rw e (t.slept);
    ends = later-Ends n left t.retries t.last told x y e t.ends;
  }

  told-raises :
      (f : Option (ℕ → E → Option E)) (attempt : ℕ) (e y : E) (h : History)
      (rest : Exec History E A)
      → raised_by f attempt e ≡ some y
      → (notify recorded (on_retry_of f) attempt e >> rest) h
        ≡ (err y, record h { told = noted f attempt h.told })
  told-raises none attempt e y h rest r = absurd (ground arith)
  told-raises (some f) attempt e y h rest r =
      ap
        (λ (z : Option E).
          ((λ (i : History). (unless_raised z, record i { told = attempt ∷ i.told })) >> rest) h)
        r

  told-returns :
      (f : Option (ℕ → E → Option E)) (attempt : ℕ) (e : E) (h : History) (rest : Exec History E A)
      → raised_by f attempt e ≡ none
      → (notify recorded (on_retry_of f) attempt e >> rest) h
        ≡ rest (record h { told = noted f attempt h.told })
  told-returns none attempt e h rest r = refl
  told-returns (some f) attempt e h rest r =
      ap
        (λ (z : Option E).
          ((λ (i : History). (unless_raised z, record i { told = attempt ∷ i.told })) >> rest) h)
        r

  from_case :
      (total max_delay left delay : ℕ) (h : History)
      → total ≡ suc h.calls + left
      → (x : Result E A) → answer h.calls ≡ x
      → Tried h.calls
          (suc left)
          max_delay
          delay
          h.slept
          h.told
          (attempt_from recorded total max_delay (suc left) (suc h.calls) delay h)
  unfolding attempt_from
  from_case total max_delay left delay h e (ok a) q =
      ended h.calls left max_delay delay h.slept h.told
        (attempt_from recorded total max_delay (suc left) (suc h.calls) delay h) (rw q refl)
        (inl (rw q refl))
  from_case total max_delay zero delay h e (err x) q =
      ended h.calls zero max_delay delay h.slept h.told
        (attempt_from recorded total max_delay 1 (suc h.calls) delay h)
        (let last : (not (retryable x) || leb total (suc h.calls)) ≡ true = ground arith in
          rw (q, last) refl)
        (inr refl)
  from_case total max_delay (suc left) delay h e (err x) q = elim (Bool-cases (retryable x)) [
    | inl b ↦
        let more : (not (retryable x) || leb total (suc h.calls)) ≡ false = ground arith in
        let rest : Exec History E A =
          recorded.sleep (min delay max_delay)
          >> attempt_from recorded total max_delay (suc left) (suc (suc h.calls)) (doubled delay) in
        elim (Option-cases (raised_by hook (suc h.calls) x)) [
          | inr (y, r) ↦
              stopped h.calls left max_delay delay h.slept h.told
                (attempt_from recorded total max_delay (suc (suc left)) (suc h.calls) delay h) x y
                (rw (q, more)
                  (told-raises hook (suc h.calls) x y (record h { calls = suc h.calls }) rest r))
                q b r
          | inl r ↦
              let h' : History = record {
                calls = suc h.calls;
                slept = min delay max_delay ∷ h.slept;
                told = noted hook (suc h.calls) h.told;
              } in
              continued h.calls left max_delay delay h.slept h.told
                (attempt_from recorded total max_delay (suc (suc left)) (suc h.calls) delay h)
                (attempt_from recorded total max_delay (suc left) (suc (suc h.calls))
                  (doubled delay) h')
                (rw (q, more)
                  (told-returns hook (suc h.calls) x (record h { calls = suc h.calls }) rest r))
                (rw (q, b, r) refl)
                (from_case total max_delay left (doubled delay) h' (omega arith) (answer h'.calls)
                  refl)
        ]
    | inr b ↦
        ended h.calls (suc left) max_delay delay h.slept h.told
          (attempt_from recorded total max_delay (suc (suc left)) (suc h.calls) delay h)
          (let last : (not (retryable x) || leb total (suc h.calls)) ≡ true = ground arith in
            rw (q, last) refl)
          (inl (rw q b))
  ]

  -- A call of `retry_call` whose operation answers as it may, whose `on_retry` is missing or returns or
  -- raises as it may, and whose sleeps return: the operation is called at least once, and at most five
  -- times and at most `attempts` times (but once for zero attempts); all its calls but the last raised
  -- what is retried, and `on_retry` returned for each. The call gives the last one's answer, which is not
  -- to be retried or was that of the last attempt; or, where attempts were left, the exception that
  -- `on_retry` raised when it was told of the last one; never the error of an exhausted loop. `on_retry` was
  -- told the numbers of the attempts in turn, and between two calls there was one sleep, of the base
  -- delay doubled each time, at most the maximum.
  pub retry_returns :
      (attempts base_delay max_delay : ℕ)
      → (total_attempts attempts ≤ 5)
        × Tried 0 (total_attempts attempts) max_delay base_delay [] [] (
            retry_call recorded attempts base_delay max_delay
              (record { calls = 0; slept = []; told = [] }))
  unfolding retry_call
  retry_returns attempts base_delay max_delay =
      let start : History = record { calls = 0; slept = []; told = [] } in
      (
        omega arith,
        subst
            (λ t.
              Tried 0 t max_delay base_delay [] []
                (attempt_from recorded t max_delay t 1 base_delay start))
            (total_suc attempts)
            (from_case (suc (rest_of attempts)) max_delay (rest_of attempts) base_delay start
              (omega arith) (answer 0) refl),
      )
