-- ===== src/Projects/Slugs.antt =====
-- What a slug looks like.
use tinai_infra.Prelude.{
  ℕ, ◌≡◌, refl, ◌∙◌, ap, sym, inl, inr, Bool, true, false, ◌&&◌, List, [], ◌∷◌, arith,
  if◌then◌else◌, ◌==◌, Bool-cases,
}
use tinai_infra.Projects.{dash, is_plain, squeeze, strip_front, unless_dash, strip_back, slugify}

-- The rest of a slug, after a plain character or not: plain characters and single dashes between them.
abbrev pub continues : (after_plain : Bool) → List ℕ → Bool
continues after_plain [] = after_plain
continues after_plain (c ∷ cs) =
    if is_plain c then continues true cs else after_plain && (c == dash && continues false cs)

abbrev pub is_slug : List ℕ → Bool
is_slug [] = true
is_slug (c ∷ cs) = continues false (c ∷ cs)

plain-unless_dash : (c : ℕ) (cs : List ℕ) → is_plain c ≡ true → unless_dash c cs ≡ c ∷ cs
plain-unless_dash c [] e = ground arith
plain-unless_dash c (d ∷ ds) e = refl

-- A dash goes with nothing behind it.
dash-continues : (cs : List ℕ) → is_slug cs ≡ true → continues true (unless_dash dash cs) ≡ true
dash-continues [] e = refl
dash-continues (c ∷ cs) e = e

-- What is left behind a plain character, and behind another one.
squeezed :
    (cs : List ℕ)
    → (continues true (strip_back (squeeze false cs)) ≡ true)
      × (is_slug (strip_back (squeeze true cs)) ≡ true)
squeezed [] = (refl, refl)
squeezed (c ∷ cs) =
    let (after, inside) = squeezed cs in
    elim (Bool-cases (is_plain c)) [
      | inl e ↦ (
        rw (e, plain-unless_dash c (strip_back (squeeze false cs)) e) (rw e after),
        rw (e, plain-unless_dash c (strip_back (squeeze false cs)) e) (rw e after),
      )
      | inr e ↦ (rw e (dash-continues (strip_back (squeeze true cs)) inside), rw e inside)
    ]

squeeze-front : (cs : List ℕ) → strip_front (squeeze true cs) ≡ squeeze true cs
squeeze-front [] = refl
squeeze-front (c ∷ cs) = elim (Bool-cases (is_plain c)) [
  | inl e ↦ rw e (ground arith)
  | inr e ↦ rw e (squeeze-front cs)
]

strip_front-squeeze : (cs : List ℕ) → strip_front (squeeze false cs) ≡ squeeze true cs
strip_front-squeeze [] = refl
strip_front-squeeze (c ∷ cs) = elim (Bool-cases (is_plain c)) [
  | inl e ↦ rw e (ground arith)
  | inr e ↦ rw e (squeeze-front cs)
]

dash-unless_dash : (c : ℕ) (cs : List ℕ) → continues false cs ≡ true → unless_dash c cs ≡ c ∷ cs
dash-unless_dash c [] e = ground arith
dash-unless_dash c (d ∷ ds) e = refl

dash_behind :
    (c : ℕ) (cs : List ℕ)
    → (c == dash && continues false cs) ≡ true
    → (c ≡ dash) × (continues false cs ≡ true)
dash_behind c cs h = elim (Bool-cases (c == dash)) [
  | inl e ↦ (ground arith, rw e at h)
  | inr e ↦ absurd (ground (arith, rw e at h))
]

-- Nothing is squeezed or stripped where it was done before.
squeezed_again :
    (cs : List ℕ)
    → (continues true cs ≡ true → strip_back (squeeze false cs) ≡ cs)
      × (continues false cs ≡ true → strip_back (squeeze true cs) ≡ cs)
squeezed_again [] = (λ h. refl, λ h. refl)
squeezed_again (c ∷ cs) =
    let (after, inside) = squeezed_again cs in
    elim (Bool-cases (is_plain c)) [
      | inl e ↦ (
        (λ h. rw (e, after (rw e at h)) (plain-unless_dash c cs e)),
        (λ h. rw (e, after (rw e at h)) (plain-unless_dash c cs e)),
      )
      | inr e ↦ (
        (λ h.
            let (is_dash, rest) = dash_behind c cs (rw e at h) in
            rw (e, inside rest) (dash-unless_dash dash cs rest ∙ ap (λ x. x ∷ cs) (sym is_dash))),
        (λ h. absurd (ground (arith, rw e at h))),
      )
    ]

slug_again : (cs : List ℕ) → is_slug cs ≡ true → strip_back (strip_front (squeeze false cs)) ≡ cs
slug_again [] e = refl
slug_again (c ∷ cs) e = ap strip_back (strip_front-squeeze (c ∷ cs)) ∙ (squeezed_again (c ∷ cs)).1 e

-- A slug is empty, or it is made of runs of `a-z0-9` with one dash between two of them; and the slug
-- of a slug is itself, where lower-casing and trimming change no slug.
pub slugify-is_slug :
    (lower : List ℕ → List ℕ) (name : List ℕ)
    → ((s : List ℕ) → is_slug s ≡ true → lower s ≡ s)
    → (is_slug (slugify lower name) ≡ true)
      × (slugify lower (slugify lower name) ≡ slugify lower name)
unfolding slugify
slugify-is_slug lower name fixed =
    let normal : is_slug (slugify lower name) ≡ true =
      ap (λ t. is_slug (strip_back t)) (strip_front-squeeze (lower name))
      ∙ (squeezed (lower name)).1 in
    (
      normal,
      ap (λ t. strip_back (strip_front (squeeze false t))) (fixed (slugify lower name) normal)
          ∙ slug_again (slugify lower name) normal,
    )
