-- ===== src/Prelude/Exec.antt =====
-- Methods that write to an object and may raise. What was written before a raise stays written, so
-- the object comes back beside the exception too.
use Prim.Native.String.{String}
use mathlib.Core.Path.{◌≡◌, refl, subst}
use mathlib.Core.Bool.{Bool, true, false}
use kui_local_multi_exit.Prelude.Tests.{if◌then◌else◌}

pub data Failure : Type 0 where
  key_error value_error type_error integrity_error database_error overflow_error runtime_error
        os_error :
      String → Failure

pub data Outcome {ℓ} (A : Type ℓ) : Type ℓ where
  returned : A → Outcome A
  raised : Failure → Outcome A

abbrev pub succeeded {ℓ} : {A : Type ℓ} → Outcome A → Bool
succeeded (returned a) = true
succeeded (raised e) = false

abbrev pub Exec {ℓ} : Type ℓ → Type ℓ → Type ℓ
Exec S A = S → Outcome A × S

module _ {ℓ} {S A : Type ℓ} where
  abbrev pub pure : A → Exec S A
  pure a s = (returned a, s)

  abbrev pub raise : Failure → Exec S A
  raise e s = (raised e, s)

  abbrev pub gets : (S → A) → Exec S A
  gets f s = (returned (f s), s)

  -- try: m  except Exception as e: handler(e)
  abbrev pub attempt : Exec S A → (Failure → Exec S A) → Exec S A
  attempt m handler s =
      let r = m s in elim r.0 [ returned a ↦ (returned a, r.1) | raised e ↦ handler e r.1 ]

abbrev pub modify {ℓ} : {S : Type ℓ} → (S → S) → Exec S (Unit {ℓ})
modify f s = (returned tt, f s)

module _ {ℓ} {S A B : Type ℓ} where
  abbrev pub proceed : Outcome A → (A → Exec S B) → Exec S B
  proceed (returned a) k s = k a s
  proceed (raised e) k s = (raised e, s)

  infixl 10 ◌>>=◌ ◌>>◌
  abbrev pub ◌>>=◌ : Exec S A → (A → Exec S B) → Exec S B
  ◌>>=◌ m k s = let r = m s in proceed r.0 k r.1

  abbrev pub ◌>>◌ : Exec S A → Exec S B → Exec S B
  m >> n = m >>= λ _. n

-- What holds of the object behind a method holds behind the two in a row, if it holds behind the
-- first one and behind the second one at whatever the first one returns.
pub after_bind :
    {S A B : Type 0} (P : S → Type 0) (act : Exec S A) (k : A → Exec S B) (s : S)
    → P (act s).1
    → ((a : A) → (act s).0 ≡ returned a → P (k a (act s).1).1)
    → P ((act >>= k) s).1
after_bind {S} {A} {B} P act k s p h = go (act s).0 h
  where
    go :
        (o : Outcome A)
        → ((a : A) → o ≡ returned a → P (k a (act s).1).1)
        → P (proceed {B = B} o k (act s).1).1
    go (returned a) f = f a refl
    go (raised e) f = p

-- What holds of a result: `Q` of what is returned and of the object then, `R` of the object where an
-- exception is raised.
abbrev pub Meets : {S A : Type 0} → (A → S → Type 0) → (S → Type 0) → Outcome A × S → Type 0
Meets Q R (returned a, s) = Q a s
Meets Q R (raised e, s) = R s

pub Meets-bind :
    {S A B : Type 0} (act : Exec S A) (s : S) (Q : A → S → Type 0) (Q' : B → S → Type 0)
    (R : S → Type 0) (k : A → Exec S B)
    → Meets Q R (act s)
    → ((a : A) (s' : S) → Q a s' → Meets Q' R (k a s'))
    → Meets Q' R ((act >>= k) s)
Meets-bind {S} {A} {B} act s Q Q' R k h f = go (act s) h
  where
    go : (r : Outcome A × S) → Meets Q R r → Meets Q' R (proceed {B = B} r.0 k r.1)
    go (returned a, s') q = f a s' q
    go (raised e, s') q = q

pub Meets-if :
    {S A : Type 0} (b : Bool) (m n : Exec S A) (s : S) (Q : A → S → Type 0) (R : S → Type 0)
    → (b ≡ true → Meets Q R (m s))
    → (b ≡ false → Meets Q R (n s))
    → Meets Q R ((if b then m else n) s)
Meets-if true m n s Q R f g = f refl
Meets-if false m n s Q R f g = g refl

pub Meets-attempt :
    {S A : Type 0} (m : Exec S A) (handler : Failure → Exec S A) (s : S) (Q : A → S → Type 0)
    (R R' : S → Type 0)
    → Meets Q R (m s)
    → ((e : Failure) (s' : S) → R s' → Meets Q R' (handler e s'))
    → Meets Q R' (attempt m handler s)
Meets-attempt {S} {A} m handler s Q R R' h f = go (m s) h
  where
    go :
        (r : Outcome A × S)
        → Meets Q R r
        → Meets Q R' (elim r.0 [ returned a ↦ (returned a, r.1) | raised e ↦ handler e r.1 ])
    go (returned a, s') q = q
    go (raised e, s') q = f e s' q

pub Meets-map :
    {S A : Type 0} (r : Outcome A × S) (Q Q' : A → S → Type 0) (R : S → Type 0)
    → Meets Q R r
    → ((a : A) (s : S) → Q a s → Q' a s)
    → Meets Q' R r
Meets-map (returned a, s) Q Q' R q f = f a s q
Meets-map (raised e, s) Q Q' R q f = q

-- The rule for a method whose outcome is not looked into.
pub Meets-any :
    {S A : Type 0} (r : Outcome A × S) → Meets {S = S} {A = A} (λ a s. Unit) (λ s. Unit) r
Meets-any (returned a, s) = tt
Meets-any (raised e, s) = tt

pub Meets-returned :
    {S A : Type 0} (Q : A → S → Type 0) (R : S → Type 0) (r : Outcome A × S) (a : A)
    → Meets Q R r
    → r.0 ≡ returned a
    → Q a r.1
Meets-returned Q R (returned b, s) a q e = let same : b ≡ a = cc in subst (λ x. Q x s) same q
Meets-returned Q R (raised f, s) a q e = absurd (cc)

-- What holds of the object in either case.
pub Meets-object :
    {S A : Type 0} (P : S → Type 0) (r : Outcome A × S) → Meets (λ a s. P s) P r → P r.1
Meets-object P (returned a, s) h = h
Meets-object P (raised e, s) h = h

-- The rule for a method that leaves the object as it is.
pub Meets-pair :
    {S A : Type 0} (P R : S → Type 0) (o : Outcome A) (s : S)
    → P s
    → R s
    → Meets (λ a s'. P s') R (o, s)
Meets-pair P R (returned a) s p r = p
Meets-pair P R (raised e) s p r = r

pub Meets-raised :
    {S A : Type 0} (r : Outcome A × S) (Q : A → S → Type 0) (R R' : S → Type 0)
    → Meets Q R r
    → ((s : S) → R s → R' s)
    → Meets Q R' r
Meets-raised (returned a, s) Q R R' q f = q
Meets-raised (raised e, s) Q R R' q f = f s q
