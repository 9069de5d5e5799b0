-- ===== src/Domains/Rows.antt =====
-- The rows of domains, one for each domain.
use tinai_infra.Prelude.{
  ℕ, ◌≡◌, refl, sym, subst, Bool, none, some, List, [], ◌∷◌, ◌++◌, arith, find, find-append_miss,
  update_where, delete_where, All, Bool-cases, inl, inr,
}
use tinai_infra.Domains.{Domain, is_domain, is_domain_of, verified_row}

-- No domain has two rows.
abbrev pub IsUnique : List Domain → Type 0
IsUnique [] = Unit
IsUnique (d ∷ ds) = (find (is_domain d.domain) ds ≡ none) × IsUnique ds

pub IsUnique-append :
    (a : Domain) (ds : List Domain)
    → find (is_domain a.domain) ds ≡ none
    → IsUnique ds
    → IsUnique (ds ++ a ∷ [])
IsUnique-append a [] fresh h = (refl, tt)
IsUnique-append a (d ∷ ds) fresh (new, h) = (
  ground (arith, find-append_miss (is_domain d.domain) ds (a ∷ []) new),
  IsUnique-append a ds (ground arith) h,
)

find-delete-none :
    (p q : Domain → Bool) (ds : List Domain) → find p ds ≡ none → find p (delete_where q ds) ≡ none
find-delete-none p q [] e = refl
find-delete-none p q (d ∷ ds) e = ground (arith, find-delete-none p q ds)

pub IsUnique-delete :
    (q : Domain → Bool) (ds : List Domain) → IsUnique ds → IsUnique (delete_where q ds)
IsUnique-delete q [] h = tt
IsUnique-delete q (d ∷ ds) (new, h) = elim (Bool-cases (q d)) [
  | inl e ↦ rw e (IsUnique-delete q ds h)
  | inr e ↦ rw e (find-delete-none (is_domain d.domain) q ds new, IsUnique-delete q ds h)
]

find-verify-none :
    (x : ℕ) (q : Domain → Bool) (ds : List Domain)
    → find (is_domain x) ds ≡ none
    → find (is_domain x) (update_where q verified_row ds) ≡ none
find-verify-none x q [] e = refl
find-verify-none x q (d ∷ ds) e = ground (arith, find-verify-none x q ds)

pub IsUnique-verify :
    (q : Domain → Bool) (ds : List Domain) → IsUnique ds → IsUnique (update_where q verified_row ds)
IsUnique-verify q [] h = tt
IsUnique-verify q (d ∷ ds) (new, h) = elim (Bool-cases (q d)) [
  | inl e ↦ rw e (find-verify-none d.domain q ds new, IsUnique-verify q ds h)
  | inr e ↦ rw e (find-verify-none d.domain q ds new, IsUnique-verify q ds h)
]

module _ (P : Domain → Type 0) where
  pub All-append : (a : Domain) (ds : List Domain) → All P ds → P a → All P (ds ++ a ∷ [])
  All-append a [] h k = (k, tt)
  All-append a (d ∷ ds) (x, h) k = (x, All-append a ds h k)

  pub All-delete : (q : Domain → Bool) (ds : List Domain) → All P ds → All P (delete_where q ds)
  All-delete q [] h = tt
  All-delete q (d ∷ ds) (x, h) = elim (Bool-cases (q d)) [
    | inl e ↦ rw e (All-delete q ds h)
    | inr e ↦ rw e (x, All-delete q ds h)
  ]

  -- A verification changes nothing where the domain has no row.
  All-untouched :
      (name domain : ℕ) (ds : List Domain)
      → find (is_domain domain) ds ≡ none
      → All P ds
      → All P (update_where (is_domain_of name domain) verified_row ds)
  All-untouched name domain [] e h = tt
  All-untouched name domain (d ∷ ds) e (x, h) = elim (Bool-cases (is_domain_of name domain d)) [
    | inl match ↦ absurd (ground arith)
    | inr other ↦ rw other (x, All-untouched name domain ds (ground arith) h)
  ]

  -- Elsewhere it changes the one row that the search finds.
  pub All-verified :
      (name domain : ℕ) (ds : List Domain) (d : Domain)
      → IsUnique ds
      → find (is_domain_of name domain) ds ≡ some d
      → P (verified_row d)
      → All P ds
      → All P (update_where (is_domain_of name domain) verified_row ds)
  All-verified name domain [] d u e k h = tt
  All-verified name domain (x ∷ ds) d (new, u) e k (y, h) =
      elim (Bool-cases (is_domain_of name domain x)) [
        | inl match ↦
            let same : x ≡ d = ground arith in
            let at : x.domain ≡ domain = ground arith in
            rw match (
              subst (λ v. P (verified_row v)) (sym same) k,
              All-untouched name domain ds (subst (λ i. find (is_domain i) ds ≡ none) at new) h,
            )
        | inr other ↦ rw other (y, All-verified name domain ds d u (ground arith) k h)
      ]

pub All-mono :
    (P Q : Domain → Type 0) (ds : List Domain) → ((d : Domain) → P d → Q d) → All P ds → All Q ds
All-mono P Q [] f h = tt
All-mono P Q (d ∷ ds) f (x, h) = (f d x, All-mono P Q ds f h)
