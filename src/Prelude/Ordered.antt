-- ===== src/Prelude/Ordered.antt =====
-- Lists in which every element stands before each later one, and `ORDER BY` with `WHERE` on them.
use mathlib.Core.Path.{◌≡◌, refl, ◌∙◌}
use mathlib.Core.Logic.{inl, inr}
use mathlib.Core.Bool.{Bool, true, false}
use mathlib.Core.List.{List, [], ◌∷◌, ◌++◌}
use server_api.Prelude.Tests.{if◌then◌else◌, Bool-cases}
use server_api.Prelude.Lists.{All, All-append, All-weaken}
use server_api.Prelude.Rows.{select, All-select}
use server_api.Prelude.Sort.{insert_by, sort_by, All-insert_by, All-sort_by}

abbrev pub Pairwise {ℓ κ} : {A : Type ℓ} → (A → A → Type κ) → List A → Type κ
Pairwise R [] = Unit
Pairwise R (x ∷ xs) = All (R x) xs × Pairwise R xs

module _ {ℓ κ} {A : Type ℓ} (R : A → A → Type κ) where
  pub Pairwise-select : (p : A → Bool) (xs : List A) → Pairwise R xs → Pairwise R (select p xs)
  Pairwise-select p [] h = tt
  Pairwise-select p (x ∷ xs) h = elim (Bool-cases (p x)) [
    | inl e ↦ rw e (All-select (R x) p xs h.0, Pairwise-select p xs h.1)
    | inr e ↦ rw e (Pairwise-select p xs h.1)
  ]

  pub Pairwise-append :
      (xs ys : List A)
      → Pairwise R xs
      → Pairwise R ys
      → All (λ x. All (R x) ys) xs
      → Pairwise R (xs ++ ys)
  Pairwise-append [] ys hx hy h = hy
  Pairwise-append (x ∷ xs) ys hx hy h =
      (All-append (R x) xs ys hx.0 h.0, Pairwise-append xs ys hx.1 hy h.1)

module _ {ℓ} {A : Type ℓ} (le before apart : A → A → Bool)
    (le-before : (x y : A) → apart x y ≡ true → le x y ≡ true → before x y ≡ true)
    (before-le : (x y : A) → before x y ≡ true → le x y ≡ true)
    (le_total : (x y : A) → le x y ≡ false → before y x ≡ true)
    (before_trans : (x y z : A) → before x y ≡ true → before y z ≡ true → before x z ≡ true)
    (le_trans : (x y z : A) → le x y ≡ true → before y z ≡ true → le x z ≡ true) where
  abbrev pub IsOrdered : List A → Type 0
  IsOrdered = Pairwise (λ x y. before x y ≡ true)

  insert_by-IsOrdered :
      (x : A) (ys : List A)
      → All (λ y. apart x y ≡ true) ys
      → IsOrdered ys
      → IsOrdered (insert_by le x ys)
  insert_by-IsOrdered x [] h g = (tt, tt)
  insert_by-IsOrdered x (y ∷ ys) h g = elim (Bool-cases (le x y)) [
    | inl e ↦
        let first = le-before x y h.0 e in
        rw e (
          (
            first,
            All-weaken (λ z. before y z ≡ true) (λ z. before x z ≡ true) ys
                (λ z. before_trans x y z first) g.0,
          ),
          g,
        )
    | inr e ↦ rw e (
      All-insert_by le (λ z. before y z ≡ true) x ys (le_total x y e) g.0,
      insert_by-IsOrdered x ys h.1 g.1,
    )
  ]

  pub sort_by-IsOrdered :
      (xs : List A) → Pairwise (λ x y. apart x y ≡ true) xs → IsOrdered (sort_by le xs)
  sort_by-IsOrdered [] h = tt
  sort_by-IsOrdered (x ∷ xs) h =
      insert_by-IsOrdered x (sort_by le xs) (All-sort_by le (λ y. apart x y ≡ true) xs h.0)
        (sort_by-IsOrdered xs h.1)

  insert_by-first : (x : A) (zs : List A) → All (λ z. le x z ≡ true) zs → insert_by le x zs ≡ x ∷ zs
  insert_by-first x [] h = refl
  insert_by-first x (z ∷ zs) h = rw h.0 refl

  select-insert_by :
      (q : A → Bool) (x : A) (ys : List A)
      → IsOrdered ys
      → select q (insert_by le x ys) ≡ (if q x then insert_by le x (select q ys) else select q ys)
  select-insert_by q x [] h = refl
  select-insert_by q x (y ∷ ys) h = elim (Bool-cases (le x y)) [
    | inl e ↦
        let after : All (λ z. le x z ≡ true) (y ∷ ys) = (
          e,
          All-weaken (λ z. before y z ≡ true) (λ z. le x z ≡ true) ys (λ z. le_trans x y z e) h.0,
        ) in
        let front =
          insert_by-first x (select q (y ∷ ys))
            (All-select (λ z. le x z ≡ true) q (y ∷ ys) after) in
        rw (e, front) refl
    | inr e ↦
        rw (e, select-insert_by q x ys h.1)
          (elim (Bool-cases (q x)) [
            | inl f ↦ elim (Bool-cases (q y)) [ inl g ↦ rw (f, g, e) refl | inr g ↦ rw (f, g) refl ]
            | inr f ↦ rw f refl
          ])
  ]

  pub select-sort_by :
      (q : A → Bool) (xs : List A)
      → Pairwise (λ x y. apart x y ≡ true) xs
      → select q (sort_by le xs) ≡ sort_by le (select q xs)
  select-sort_by q [] h = refl
  select-sort_by q (x ∷ xs) h =
      select-insert_by q x (sort_by le xs) (sort_by-IsOrdered xs h.1)
      ∙ rw (select-sort_by q xs h.1)
          (elim (Bool-cases (q x)) [ inl e ↦ rw e refl | inr e ↦ rw e refl ])
