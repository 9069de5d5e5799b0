-- ===== src/Projects/Tests.antt =====
-- Slugs of some names.
use tinai_infra.Prelude.{ℕ, ◌≡◌, refl, true, List, [], ◌∷◌}
use tinai_infra.Projects.{slugify}
use tinai_infra.Projects.Slugs.{is_slug, slugify-is_slug}

-- `!my  project? `
abbrev loose : List ℕ
loose = 33 ∷ 109 ∷ 121 ∷ 32 ∷ 32 ∷ 112 ∷ 114 ∷ 111 ∷ 106 ∷ 101 ∷ 99 ∷ 116 ∷ 63 ∷ 32 ∷ []

made : slugify (λ t. t) loose ≡ 109 ∷ 121 ∷ 45 ∷ 112 ∷ 114 ∷ 111 ∷ 106 ∷ 101 ∷ 99 ∷ 116 ∷ []
unfolding slugify
made = refl

-- Names of other scripts have the empty slug.
nothing_left : slugify (λ t. t) (2346 ∷ 2352 ∷ []) ≡ []
unfolding slugify
nothing_left = refl

slugify-is_slug_example :
    (is_slug (slugify (λ t. t) loose) ≡ true)
    × (slugify (λ t. t) (slugify (λ t. t) loose) ≡ slugify (λ t. t) loose)
slugify-is_slug_example = slugify-is_slug (λ t. t) loose (λ s h. refl)
