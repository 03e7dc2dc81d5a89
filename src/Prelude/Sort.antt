-- ===== src/Prelude/Sort.antt =====
-- `list.sort`: a stable sort by a strict order on the keys.
use mathlib.Core.Path.{◌≡◌, refl, ap}
use mathlib.Core.Logic.{◌≢◌, inl, inr}
use mathlib.Core.Bool.{Bool, true, false}
use mathlib.Core.Option.{Option, none, some}
use mathlib.Core.List.{List, [], ◌∷◌}
use native.Mathlib.Omega.{arith}
use kui_local_multi_exit.Prelude.Tests.{if◌then◌else◌, Bool-cases}
use kui_local_multi_exit.Prelude.Lists.{All, In}

module _ {ℓ} {A : Type ℓ} (lt : A → A → Bool) where
  unfoldable pub insert : A → List A → List A
  insert x [] = x ∷ []
  insert x (y ∷ ys) = let rest = insert x ys in if lt y x then y ∷ rest else x ∷ y ∷ ys

  unfoldable pub sort : List A → List A
  unfolding insert
  sort [] = []
  sort (x ∷ xs) = insert x (sort xs)

abbrev pub head {ℓ} : {A : Type ℓ} → List A → Option A
head [] = none
head (x ∷ xs) = some x

-- No element comes before `m`.
abbrev pub Least : {A : Type 0} → (A → A → Bool) → A → List A → Type 0
Least lt m xs = All (λ y. lt y m ≡ false) xs

module _ {A : Type 0} (lt : A → A → Bool) where
  pub insert-In : (x : A) (ys : List A) (a : A) → In a (insert lt x ys) → In a (x ∷ ys)
  unfolding insert
  insert-In x [] a m = m
  insert-In x (y ∷ ys) a m = ground (arith, insert-In x ys a)

  pub sort-In : (xs : List A) (a : A) → In a (sort lt xs) → In a xs
  unfolding sort
  sort-In [] a m = m
  sort-In (x ∷ xs) a m = ground (arith, insert-In x (sort lt xs) a m, sort-In xs a)

  pub sort-nonempty : (x : A) (xs : List A) → head (sort lt (x ∷ xs)) ≢ none
  unfolding sort
  sort-nonempty x xs = go (sort lt xs)
    where
      go : (ys : List A) → head (insert lt x ys) ≢ none
      go [] = λ e. cc
      go (y ∷ ys) = ground arith

  pub sort-empty : (xs : List A) → head (sort lt xs) ≡ none → xs ≡ []
  sort-empty [] e = refl
  sort-empty (x ∷ xs) e = absurd (sort-nonempty x xs e)

module _ {A : Type 0} (lt : A → A → Bool) (irrefl : (a : A) → lt a a ≡ false)
    (neg_trans : (a b c : A) → lt a b ≡ false → lt b c ≡ false → lt a c ≡ false)
    (asym : (a b : A) → lt a b ≡ true → lt b a ≡ false) where
  Least-below : (m x : A) (xs : List A) → lt m x ≡ false → Least lt m xs → Least lt x xs
  Least-below m x [] h l = tt
  Least-below m x (y ∷ ys) h l = (neg_trans y m x l.0 h, Least-below m x ys h l.1)

  insert-Least :
      (x : A) (ys zs : List A) (m : A)
      → ((n : A) → head ys ≡ some n → Least lt n zs)
      → (ys ≡ [] → zs ≡ [])
      → head (insert lt x ys) ≡ some m
      → Least lt m (x ∷ zs)
  unfolding insert
  insert-Least x [] zs m least empty h = rw (empty refl) (ground (arith, irrefl x))
  insert-Least x (y ∷ ys) zs m least empty h = elim (Bool-cases (lt y x)) [
    | inl e ↦ ground (arith, least y refl, asym y x e)
    | inr e ↦ ground (arith, Least-below y x zs e (least y refl), irrefl x)
  ]

  sort-nil : (xs : List A) → sort lt xs ≡ [] → xs ≡ []
  unfolding sort
  sort-nil [] e = refl
  sort-nil (x ∷ xs) e = absurd (sort-nonempty lt x xs (ap head e))

  -- The first element of the sorted list is one that nothing comes before.
  pub sort-Least : (xs : List A) (m : A) → head (sort lt xs) ≡ some m → Least lt m xs
  unfolding sort
  sort-Least [] m h = tt
  sort-Least (x ∷ xs) m h = insert-Least x (sort lt xs) xs m (sort-Least xs) (sort-nil xs) h

  pub head-In : (xs : List A) (m : A) → head (sort lt xs) ≡ some m → In m xs
  head-In xs m h = sort-In lt xs m (go (sort lt xs) h)
    where
      go : (ys : List A) → head ys ≡ some m → In m ys
      go [] e = absurd (cc)
      go (y ∷ ys) e = inl (cc)

-- Two orders that agree on the elements sort them alike.
module _ {A : Type 0} (lt gt : A → A → Bool) where
  insert_agree :
      (x : A) (ys : List A)
      → ((a : A) → In a ys → lt a x ≡ gt a x)
      → insert lt x ys ≡ insert gt x ys
  unfolding insert
  insert_agree x [] h = refl
  insert_agree x (y ∷ ys) h = rw (h y (inl refl), insert_agree x ys (λ a m. h a (inr m))) refl

  pub sort_agree :
      (xs : List A) → ((a b : A) → In a xs → In b xs → lt a b ≡ gt a b) → sort lt xs ≡ sort gt xs
  unfolding sort
  sort_agree [] h = refl
  sort_agree (x ∷ xs) h =
      rw
        (
          sort_agree xs (λ a b m n. h a b (inr m) (inr n)),
          insert_agree x (sort gt xs) (λ a m. h a x (inr (sort-In gt xs a m)) (inl refl)),
        )
        refl
