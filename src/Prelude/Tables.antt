-- ===== src/Prelude/Tables.antt =====
-- SQL tables as lists of rows. A statement of the source becomes one of these functions with the
-- statement's WHERE clause as the test; `rows[0]` of a SELECT is `find`.
use mathlib.Core.Path.{◌≡◌, refl}
use mathlib.Core.Bool.{Bool, true, false}
use mathlib.Core.Option.{Option, none, some}
use mathlib.Core.List.{List, [], ◌∷◌, ◌++◌}
use native.Mathlib.Omega.{arith}
use Prim.Native.Nat.{ℕ, suc}
use tinai_infra.Prelude.Tests.{if◌then◌else◌}

abbrev pub All {ℓ κ} : {A : Type ℓ} → (A → Type κ) → List A → Type κ
All P [] = Unit
All P (x ∷ xs) = P x × All P xs

abbrev pub length {ℓ} : {A : Type ℓ} → List A → ℕ
length [] = 0
length (x ∷ xs) = suc (length xs)

module _ {ℓ} {A : Type ℓ} where
  -- The first row of `SELECT … WHERE p`.
  abbrev pub find : (A → Bool) → List A → Option A
  find p [] = none
  find p (x ∷ xs) = if p x then some x else find p xs

  -- `SELECT … WHERE p`
  abbrev pub select : (A → Bool) → List A → List A
  select p [] = []
  select p (x ∷ xs) = if p x then x ∷ select p xs else select p xs

  -- `UPDATE … SET f WHERE p`
  abbrev pub update_where : (A → Bool) → (A → A) → List A → List A
  update_where p f [] = []
  update_where p f (x ∷ xs) = (if p x then f x else x) ∷ update_where p f xs

  -- `DELETE FROM … WHERE p`
  abbrev pub delete_where : (A → Bool) → List A → List A
  delete_where p [] = []
  delete_where p (x ∷ xs) = if p x then delete_where p xs else x ∷ delete_where p xs

-- What `find` returns passes the test.
module _ {ℓ} {A : Type ℓ} (p : A → Bool) where
  pub find-holds : (xs : List A) (a : A) → find p xs ≡ some a → p a ≡ true
  find-holds [] a h = ground arith
  find-holds (x ∷ xs) a h = ground (arith, find-holds xs a)

  pub find-append_miss : (xs ys : List A) → find p xs ≡ none → find p (xs ++ ys) ≡ find p ys
  find-append_miss [] ys h = refl
  find-append_miss (x ∷ xs) ys h = ground (arith, find-append_miss xs ys)

  pub find-append_hit : (xs ys : List A) (a : A) → find p xs ≡ some a → find p (xs ++ ys) ≡ some a
  find-append_hit [] ys a h = ground arith
  find-append_hit (x ∷ xs) ys a h = ground (arith, find-append_hit xs ys a)

module _ {ℓ κ} {A : Type ℓ} (P : A → Type κ) where
  pub find-All : (p : A → Bool) (xs : List A) (a : A) → All P xs → find p xs ≡ some a → P a
  find-All p [] a h e = ground arith
  find-All p (x ∷ xs) a h e = ground (arith, find-All p xs a h.1)

  pub All-append : (xs ys : List A) → All P xs → All P ys → All P (xs ++ ys)
  All-append [] ys hx hy = hy
  All-append (x ∷ xs) ys hx hy = (hx.0, All-append xs ys hx.1 hy)

  pub All-delete_where : (p : A → Bool) (xs : List A) → All P xs → All P (delete_where p xs)
  All-delete_where p [] h = h
  All-delete_where p (x ∷ xs) h = ground (arith, All-delete_where p xs h.1)

  pub All-select : (p : A → Bool) (xs : List A) → All P xs → All P (select p xs)
  All-select p [] h = h
  All-select p (x ∷ xs) h = ground (arith, All-select p xs h.1)

  pub All-update_where :
      (p : A → Bool) (f : A → A) (xs : List A)
      → ((a : A) → P a → P (f a))
      → All P xs
      → All P (update_where p f xs)
  All-update_where p f [] k h = h
  All-update_where p f (x ∷ xs) k h = (ground (arith, k x h.0), All-update_where p f xs k h.1)

-- Looking up by `p` in a table changed by `q`.
module _ {ℓ} {A : Type ℓ} (p q : A → Bool) where
  -- An update that leaves the searched columns alone.
  pub find-update_where :
      (f : A → A) (xs : List A)
      → ((a : A) → p (f a) ≡ p a)
      → (b : A) → find p xs ≡ some b
      → find p (update_where q f xs) ≡ some (if q b then f b else b)
  find-update_where f [] keep b h = ground arith
  find-update_where f (x ∷ xs) keep b h = ground (arith, keep x, find-update_where f xs keep b)

  pub find-update_where-none :
      (f : A → A) (xs : List A)
      → ((a : A) → p (f a) ≡ p a)
      → find p xs ≡ none
      → find p (update_where q f xs) ≡ none
  find-update_where-none f [] keep h = refl
  find-update_where-none f (x ∷ xs) keep h =
      ground (arith, keep x, find-update_where-none f xs keep)

  -- A deletion that takes no row that the search would accept.
  pub find-delete_where_apart :
      (xs : List A) → ((a : A) → p a ≡ true → q a ≡ false) → find p (delete_where q xs) ≡ find p xs
  find-delete_where_apart [] apart = refl
  find-delete_where_apart (x ∷ xs) apart = ground (arith, apart x, find-delete_where_apart xs apart)

  -- A deletion that takes every row that the search would accept.
  pub find-delete_where_gone :
      (xs : List A) → ((a : A) → p a ≡ true → q a ≡ true) → find p (delete_where q xs) ≡ none
  find-delete_where_gone [] within = refl
  find-delete_where_gone (x ∷ xs) within =
      ground (arith, within x, find-delete_where_gone xs within)

  -- An update of rows that the search passes over.
  pub find-update_where_apart :
      (f : A → A) (xs : List A)
      → ((a : A) → p (f a) ≡ p a)
      → ((a : A) → p a ≡ true → q a ≡ false)
      → find p (update_where q f xs) ≡ find p xs
  find-update_where_apart f [] keep apart = refl
  find-update_where_apart f (x ∷ xs) keep apart =
      ground (arith, keep x, apart x, find-update_where_apart f xs keep apart)

-- An update whose WHERE clause holds for no row.
pub update_where_none {ℓ} :
    {A : Type ℓ} (f : A → A) (xs : List A) → update_where (λ _. false) f xs ≡ xs
update_where_none f [] = refl
update_where_none f (x ∷ xs) = rw (update_where_none f xs)

-- An update after which no row passes the search: it takes every row that did, and its results do not.
pub find-update_where_gone {ℓ} :
    {A : Type ℓ} (p q : A → Bool) (f : A → A) (xs : List A)
    → ((a : A) → p a ≡ true → q a ≡ true)
    → ((a : A) → p (f a) ≡ false)
    → find p (update_where q f xs) ≡ none
find-update_where_gone p q f [] within out = refl
find-update_where_gone p q f (x ∷ xs) within out =
    ground (arith, within x, out x, find-update_where_gone p q f xs within out)

-- A search that asks for more finds nothing where a search that asks for less does not.
pub find-none_of_stricter {ℓ} :
    {A : Type ℓ} (p q : A → Bool) (xs : List A)
    → ((a : A) → p a ≡ true → q a ≡ true)
    → find q xs ≡ none
    → find p xs ≡ none
find-none_of_stricter p q [] within h = refl
find-none_of_stricter p q (x ∷ xs) within h =
    ground (arith, within x, find-none_of_stricter p q xs within)
