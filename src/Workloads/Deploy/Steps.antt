-- ===== src/Workloads/Deploy/Steps.antt =====
-- Chains of steps.
use tinai_infra.Prelude.{ℕ, ◌≡◌, refl, ◌∙◌, Bool, true, false, arith}
use tinai_infra.Workloads.{Kind, Api}
use tinai_infra.Workloads.Deploy.{and_then}

-- A chain that has gone on to its end.
pub and_then-true :
    {K : Type 0} (p : Bool × K) (f : K → Bool × K)
    → (and_then p f).0 ≡ true
    → (p.0 ≡ true) × (and_then p f ≡ f p.1) × ((f p.1).0 ≡ true)
and_then-true (true, k) f e = (refl, refl, e)
and_then-true (false, k) f e = ground arith

-- The step leaves an object as it is.
abbrev pub Away : {K : Type 0} → Api K → Kind → ℕ → (K → Bool × K) → Type 0
Away {K = K} api kind name f = (k : K) → api.read kind name (f k).1 ≡ api.read kind name k

and_then-read :
    {K : Type 0} (api : Api K) (kind : Kind) (name : ℕ) (p : Bool × K) (f : K → Bool × K)
    → Away api kind name f
    → api.read kind name (and_then p f).1 ≡ api.read kind name p.1
and_then-read api kind name (true, k) f h = h k
and_then-read api kind name (false, k) f h = refl

pub and_then-Away :
    {K : Type 0} (api : Api K) (kind : Kind) (name : ℕ) (f g : K → Bool × K)
    → Away api kind name f
    → Away api kind name g
    → Away api kind name (λ k. and_then (f k) g)
and_then-Away api kind name f g h i k = and_then-read api kind name (f k) g i ∙ h k
