-- ===== src/EnvVars/Requests/Tables.antt =====
-- The table functions on rows whose values are blanked.
use mathlib.Core.Option
use tinai_infra.Prelude.{
  ℕ, ◌≡◌, refl, ◌∙◌, ap, Bool, List, [], ◌∷◌, ◌++◌, map, leb, is_some, find, select, update_where,
  delete_where, Bool-cases, inl, inr,
}
use tinai_infra.EnvVars.{insert_by, order_by, upsert}

-- `blank` changes nothing that the searches and the order look at.
module _ {ℓ} {A : Type ℓ} (blank : A → A) where
  module _ (key_of : A → ℕ) (keeps_key : (a : A) → key_of (blank a) ≡ key_of a) where
    map-insert_by :
        (a : A) (xs : List A)
        → insert_by key_of (blank a) (map blank xs) ≡ map blank (insert_by key_of a xs)
    map-insert_by a [] = refl
    map-insert_by a (b ∷ bs) = elim (Bool-cases (leb (key_of a) (key_of b))) [
      | inl e ↦ rw (keeps_key a, keeps_key b, e) refl
      | inr e ↦ rw (keeps_key a, keeps_key b, e) (ap (λ t. blank b ∷ t) (map-insert_by a bs))
    ]

    pub map-order_by :
        (xs : List A) → order_by key_of (map blank xs) ≡ map blank (order_by key_of xs)
    map-order_by [] = refl
    map-order_by (a ∷ xs) =
        ap (insert_by key_of (blank a)) (map-order_by xs) ∙ map-insert_by a (order_by key_of xs)

  module _ (p : A → Bool) (keeps : (a : A) → p (blank a) ≡ p a) where
    pub map-select : (xs : List A) → select p (map blank xs) ≡ map blank (select p xs)
    map-select [] = refl
    map-select (a ∷ xs) = elim (Bool-cases (p a)) [
      | inl e ↦ rw (keeps a, e) (ap (λ t. blank a ∷ t) (map-select xs))
      | inr e ↦ rw (keeps a, e) (map-select xs)
    ]

    pub map-delete_where :
        (xs : List A) → delete_where p (map blank xs) ≡ map blank (delete_where p xs)
    map-delete_where [] = refl
    map-delete_where (a ∷ xs) = elim (Bool-cases (p a)) [
      | inl e ↦ rw (keeps a, e) (map-delete_where xs)
      | inr e ↦ rw (keeps a, e) (ap (λ t. blank a ∷ t) (map-delete_where xs))
    ]

    pub found-map : (xs : List A) → is_some (find p (map blank xs)) ≡ is_some (find p xs)
    found-map [] = refl
    found-map (a ∷ xs) = elim (Bool-cases (p a)) [
      | inl e ↦ rw (keeps a, e) refl
      | inr e ↦ rw (keeps a, e) (found-map xs)
    ]

    pub map-find : (xs : List A) → find p (map blank xs) ≡ Option.map blank (find p xs)
    map-find [] = refl
    map-find (a ∷ xs) = elim (Bool-cases (p a)) [
      | inl e ↦ rw (keeps a, e) refl
      | inr e ↦ rw (keeps a, e) (map-find xs)
    ]

    module _ (f : A → A) (twice : (a : A) → blank (blank a) ≡ blank a)
        (sets : (a : A) → blank (f (blank a)) ≡ blank (f a)) where
      pub map-update_where :
          (xs : List A)
          → map blank (update_where p f (map blank xs)) ≡ map blank (update_where p f xs)
      map-update_where [] = refl
      map-update_where (a ∷ xs) = elim (Bool-cases (p a)) [
        | inl e ↦ rw (keeps a, e) (rw (sets a) (ap (λ t. blank (f a) ∷ t) (map-update_where xs)))
        | inr e ↦ rw (keeps a, e) (rw (twice a) (ap (λ t. blank a ∷ t) (map-update_where xs)))
      ]

      pub map-append : (xs ys : List A) → map blank (map blank xs ++ ys) ≡ map blank (xs ++ ys)
      map-append [] ys = refl
      map-append (a ∷ xs) ys = rw (twice a) (ap (λ t. blank a ∷ t) (map-append xs ys))

      pub map-upsert :
          (new : A) (xs : List A)
          → map blank (upsert p f new (map blank xs)) ≡ map blank (upsert p f new xs)
      map-upsert new xs = elim (Bool-cases (is_some (find p xs))) [
        | inl e ↦ rw (found-map xs, e) (map-update_where xs)
        | inr e ↦ rw (found-map xs, e) (map-append xs (new ∷ []))
      ]

  pub map-twice :
      (xs : List A)
      → ((a : A) → blank (blank a) ≡ blank a)
      → map blank (map blank xs) ≡ map blank xs
  map-twice [] twice = refl
  map-twice (a ∷ xs) twice = rw (twice a) (ap (λ t. blank a ∷ t) (map-twice xs twice))

  -- A view that does not see the blanked values.
  pub map-blind {κ} :
      {B : Type κ} (v : A → B) (xs : List A)
      → ((a : A) → v (blank a) ≡ v a)
      → map v (map blank xs) ≡ map v xs
  map-blind v [] blind = refl
  map-blind v (a ∷ xs) blind = rw (blind a) (ap (λ t. v a ∷ t) (map-blind v xs blind))
