-- ===== src/Metering/Groups.antt =====
-- The groups of the pods by tenant.
use tinai_infra.Prelude.{
  ℕ, ◌+◌, ◌≡◌, ◌≢◌, refl, ◌∙◌, ap, Bool, true, false, ◌||◌, Option, none, some, List, [], ◌∷◌, ◌++◌,
  arith, if◌then◌else◌, ◌==◌, or_else, is_some, length, find, Bool-cases, inl, inr,
}
use tinai_infra.Metering.{
  Conversions, Pod, Group, LogRow, is_group, accumulate, metered, meter_pod, meter_pods, cpu_of_pod,
  unknown_name,
}

-- One group for each tenant.
abbrev pub IsUnique : List Group → Type 0
IsUnique [] = Unit
IsUnique (g ∷ gs) = (find (is_group g.tenant_id) gs ≡ none) × IsUnique gs

-- What the groups say of a tenant.
abbrev pub pods_in : ℕ → List Group → ℕ
pods_in t [] = 0
pods_in t (g ∷ gs) = if g.tenant_id == t then length g.pods else pods_in t gs

abbrev pub cpu_in : ℕ → List Group → ℕ
cpu_in t [] = 0
cpu_in t (g ∷ gs) = if g.tenant_id == t then g.total_cpu else cpu_in t gs

abbrev pub is_mine : (tenant : ℕ) → Option ℕ → Bool
is_mine t none = false
is_mine t (some u) = u == t

-- The running pods of a tenant, and the CPU that they request.
abbrev pub count_pods : (tenant : ℕ) → List (Pod × Bool) → ℕ
count_pods t [] = 0
count_pods t ((p, b) ∷ ps) = (if is_mine t (metered p) then 1 else 0) + count_pods t ps

module _ (js : Conversions) where
  abbrev pub sum_cpu : (tenant : ℕ) → List (Pod × Bool) → ℕ
  sum_cpu t [] = 0
  sum_cpu t ((p, b) ∷ ps) =
      (if is_mine t (metered p) then cpu_of_pod js p.requests else 0) + sum_cpu t ps

-- Whether a running pod of the tenant is among them.
abbrev pub has_pod : (tenant : ℕ) → List (Pod × Bool) → Bool
has_pod t [] = false
has_pod t ((p, b) ∷ ps) = has_pod t ps || is_mine t (metered p)

abbrev pub has_group : (tenant : ℕ) → List Group → Bool
has_group t gs = is_some (find (is_group t) gs)

accumulate-has_group :
    (t u name cpu : ℕ) (gs : List Group)
    → has_group t (accumulate u name cpu gs) ≡ (u == t || has_group t gs)
accumulate-has_group t u name cpu [] = ground arith
accumulate-has_group t u name cpu (g ∷ gs) = ground (arith, accumulate-has_group t u name cpu gs)

||-assoc : (a b c : Bool) → (a || (b || c)) ≡ ((a || b) || c)
||-assoc true b c = refl
||-assoc false b c = refl

length-snoc {ℓ} : {A : Type ℓ} (xs : List A) (x : A) → length (xs ++ x ∷ []) ≡ 1 + length xs
length-snoc [] x = refl
length-snoc (y ∷ xs) x = ground (arith, length-snoc xs x)

accumulate-pods :
    (t u name cpu : ℕ) (gs : List Group)
    → pods_in t (accumulate u name cpu gs) ≡ (if u == t then 1 else 0) + pods_in t gs
accumulate-pods t u name cpu [] = ground arith
accumulate-pods t u name cpu (g ∷ gs) =
    ground (arith, length-snoc g.pods name, accumulate-pods t u name cpu gs)

accumulate-cpu :
    (t u name cpu : ℕ) (gs : List Group)
    → cpu_in t (accumulate u name cpu gs) ≡ (if u == t then cpu else 0) + cpu_in t gs
accumulate-cpu t u name cpu [] = ground arith
accumulate-cpu t u name cpu (g ∷ gs) = ground (arith, accumulate-cpu t u name cpu gs)

accumulate-none :
    (t u name cpu : ℕ) (gs : List Group)
    → t ≢ u
    → find (is_group t) gs ≡ none
    → find (is_group t) (accumulate u name cpu gs) ≡ none
accumulate-none t u name cpu [] ne e = ground arith
accumulate-none t u name cpu (g ∷ gs) ne e = ground (arith, accumulate-none t u name cpu gs ne)

accumulate-IsUnique :
    (u name cpu : ℕ) (gs : List Group) → IsUnique gs → IsUnique (accumulate u name cpu gs)
accumulate-IsUnique u name cpu [] h = (refl, tt)
accumulate-IsUnique u name cpu (g ∷ gs) (new, h) = elim (Bool-cases (g.tenant_id == u)) [
  | inl e ↦ rw e (new, h)
  | inr e ↦ rw e (
    accumulate-none g.tenant_id u name cpu gs (λ same. ground arith) new,
    accumulate-IsUnique u name cpu gs h,
  )
]

module _ (js : Conversions) where
  meter_pod-IsUnique :
      (now : ℕ) (o : Option ℕ) (p : Pod) (b : Bool) (rows : List LogRow) (gs : List Group)
      → IsUnique gs
      → IsUnique (meter_pod js now o p b (rows, gs)).1
  meter_pod-IsUnique now none p b rows gs h = h
  meter_pod-IsUnique now (some t) p b rows gs h =
      accumulate-IsUnique t (or_else p.name unknown_name) (cpu_of_pod js p.requests) gs h

  meter_pod_counts :
      (now t : ℕ) (o : Option ℕ) (p : Pod) (b : Bool) (rows : List LogRow) (gs : List Group)
      → (pods_in t (meter_pod js now o p b (rows, gs)).1
          ≡ (if is_mine t o then 1 else 0) + pods_in t gs)
        × (cpu_in t (meter_pod js now o p b (rows, gs)).1
            ≡ (if is_mine t o then cpu_of_pod js p.requests else 0) + cpu_in t gs)
        × (has_group t (meter_pod js now o p b (rows, gs)).1 ≡ (is_mine t o || has_group t gs))
  meter_pod_counts now t none p b rows gs = (omega arith, omega arith, refl)
  meter_pod_counts now t (some u) p b rows gs = (
    accumulate-pods t u (or_else p.name unknown_name) (cpu_of_pod js p.requests) gs,
    accumulate-cpu t u (or_else p.name unknown_name) (cpu_of_pod js p.requests) gs,
    accumulate-has_group t u (or_else p.name unknown_name) (cpu_of_pod js p.requests) gs,
  )

  -- The loop leaves one group for each tenant, with the number and the CPU of its pods on top of those
  -- that it started with.
  pub meter_pods_groups :
      (now t : ℕ) (ps : List (Pod × Bool)) (rows : List LogRow) (gs : List Group)
      → IsUnique gs
      → IsUnique (meter_pods js now ps (rows, gs)).1
        × (pods_in t (meter_pods js now ps (rows, gs)).1 ≡ count_pods t ps + pods_in t gs)
        × (cpu_in t (meter_pods js now ps (rows, gs)).1 ≡ sum_cpu js t ps + cpu_in t gs)
        × (has_group t (meter_pods js now ps (rows, gs)).1 ≡ (has_pod t ps || has_group t gs))
  meter_pods_groups now t [] rows gs h = (h, omega arith, omega arith, refl)
  meter_pods_groups now t ((p, b) ∷ ps) rows gs h =
      let (rows', gs') = meter_pod js now (metered p) p b (rows, gs) in
      let (pods, cpu, has) = meter_pod_counts now t (metered p) p b rows gs in
      let (unique, more, sum, known) =
        meter_pods_groups now t ps rows' gs' (meter_pod-IsUnique now (metered p) p b rows gs h) in
      (
        unique,
        omega (arith, more, pods),
        omega (arith, sum, cpu),
        known
            ∙ ap (λ b. has_pod t ps || b) has
            ∙ ||-assoc (has_pod t ps) (is_mine t (metered p)) (has_group t gs),
      )
