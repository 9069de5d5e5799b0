-- ===== src/Projects.antt =====
-- Slugs of projects: `slugify` of routes/projects.ts of platform/services/tinai-api. A text is the list of its character codes.
pub mod Slugs
mod Tests
use tinai_infra.Prelude.{ℕ, Bool, true, false, ◌&&◌, ◌||◌, List, [], ◌∷◌, if◌then◌else◌, ◌==◌, leb}

-- The code of `-`.
abbrev pub dash : ℕ
dash = 45

-- `[a-z0-9]`
abbrev pub is_plain : ℕ → Bool
is_plain c = (leb 97 c && leb c 122) || (leb 48 c && leb c 57)

-- `replace(/[^a-z0-9]+/g, '-')`, inside a run of other characters or not.
abbrev pub squeeze : (is_inside : Bool) → List ℕ → List ℕ
squeeze is_inside [] = []
squeeze true (c ∷ cs) = if is_plain c then c ∷ squeeze false cs else squeeze true cs
squeeze false (c ∷ cs) = if is_plain c then c ∷ squeeze false cs else dash ∷ squeeze true cs

-- `replace(/^-+|-+$/g, '')`
abbrev pub strip_front : List ℕ → List ℕ
strip_front [] = []
strip_front (c ∷ cs) = if c == dash then strip_front cs else c ∷ cs

abbrev pub unless_dash : ℕ → List ℕ → List ℕ
unless_dash c [] = if c == dash then [] else c ∷ []
unless_dash c (d ∷ ds) = c ∷ d ∷ ds

abbrev pub strip_back : List ℕ → List ℕ
strip_back [] = []
strip_back (c ∷ cs) = unless_dash c (strip_back cs)

-- `slugify`, where `lower` is `toLowerCase` and `trim`.
unfoldable pub slugify : (lower : List ℕ → List ℕ) → List ℕ → List ℕ
slugify lower name = strip_back (strip_front (squeeze false (lower name)))
