-- ===== src/Domains/Verified.antt =====
-- Which domains are verified.
use mathlib.Core.List.{append-nil, append_assoc}
use tinai_infra.Prelude.{
  ℕ, ◌≡◌, ◌≢◌, refl, ◌∙◌, ap, sym, subst, Bool, true, false, not, ◌&&◌, Option, none, some, List,
  [], ◌∷◌, ◌++◌, arith, ◌==◌, ==_refl, is_some, find, find-append_miss, find-none_of_stricter,
  find-holds, All, Reply, send, fail, Check, pass, reject, require, require_row, commit,
  commit-keeps, commit-sent, ◌>>=◌, Bool-cases, inl, inr,
}
use tinai_infra.Domains.{
  Domain, Api, World, Added, is_domain, is_domain_of, added_row, verified_row, has_text, own_app,
  addable, own_domain, upsert_ingress_rule, add_domain, delete_domain, verifiable, verify_domain,
  Request, add, delete, verify, handle, run,
}
use tinai_infra.Domains.Rows.{
  IsUnique, IsUnique-append, IsUnique-delete, IsUnique-verify, All-append, All-delete, All-verified,
  All-mono,
}

-- A request that proves the row's domain: a lookup gave the expected text of its token.
abbrev pub is_proof : (expected : ℕ → ℕ) → Domain → ℕ × Request → Bool
is_proof expected d (tenant, verify name domain records) =
    is_domain_of name domain d && has_text (expected d.verify_token) records
is_proof expected d _ = false

abbrev pub is_proven : (expected : ℕ → ℕ) → List (ℕ × Request) → Domain → Bool
is_proven expected rs d = is_some (find (is_proof expected d) rs)

-- Every verified row was proven by one of the requests.
abbrev pub AllProven : (expected : ℕ → ℕ) → List (ℕ × Request) → List Domain → Type 0
AllProven expected rs ds = All (λ d. d.verified ≡ true → is_proven expected rs d ≡ true) ds

proven_before :
    (expected : ℕ → ℕ) (d : Domain) (rs : List (ℕ × Request)) (x : ℕ × Request)
    → is_proven expected rs d ≡ true
    → is_proven expected (rs ++ x ∷ []) d ≡ true
proven_before expected d [] x e = ground arith
proven_before expected d (r ∷ rs) x e = elim (Bool-cases (is_proof expected d r)) [
  | inl hit ↦ rw hit refl
  | inr miss ↦ rw miss (proven_before expected d rs x (ground arith))
]

proven_now :
    (expected : ℕ → ℕ) (d : Domain) (rs : List (ℕ × Request)) (x : ℕ × Request)
    → is_proof expected d x ≡ true
    → is_proven expected (rs ++ x ∷ []) d ≡ true
proven_now expected d [] x e = rw e refl
proven_now expected d (r ∷ rs) x e = elim (Bool-cases (is_proof expected d r)) [
  | inl hit ↦ rw hit refl
  | inr miss ↦ rw miss (proven_now expected d rs x e)
]

-- What the checks of the three requests say of the table.
free_domain :
    (m : Check (Unit {0})) (o : Option Domain) (v : Unit {0})
    → (m >>= λ _. require (not (is_some o)) 409 "domain already registered") ≡ pass v
    → (m ≡ pass tt) × (o ≡ none)
free_domain (pass a) none v e = (refl, refl)
free_domain (reject n t) none v e = ground arith
free_domain (pass a) (some d) v e = ground arith
free_domain (reject n t) (some d) v e = ground arith

tested :
    (b : Bool) (x d : Domain)
    → (require b 400 "DNS TXT record not found" >>= λ _. pass x) ≡ pass d
    → (x ≡ d) × (b ≡ true)
tested true x d e = (ground arith, refl)
tested false x d e = ground arith

verified_row_found :
    (m : Check (Unit {0})) (o : Option Domain) (test : Domain → Bool) (d : Domain)
    → ((m >>= λ _. require_row o 404 "domain not found") >>= λ (d : Domain).
        (require (test d) 400 "DNS TXT record not found" >>= λ _. pass d))
      ≡ pass d
    → (o ≡ some d) × (test d ≡ true)
verified_row_found (pass a) (some x) test d e =
    let (same, t) = tested (test x) x d e in (ap some same, subst (λ v. test v ≡ true) same t)
verified_row_found (pass a) none test d e = ground arith
verified_row_found (reject n t) o test d e = ground arith

module _ {K : Type 0} (api : Api K) (expected : ℕ → ℕ) where
  abbrev IsSound : List (ℕ × Request) → World K → Type 0
  IsSound rs s = IsUnique s.domains × AllProven expected rs s.domains

  handle-IsSound :
      (tenant : ℕ) (r : Request) (rs : List (ℕ × Request)) (s : World K)
      → IsSound rs s
      → IsSound (rs ++ (tenant, r) ∷ []) (handle api expected tenant r s)
  unfolding handle add_domain delete_domain verify_domain
  handle-IsSound tenant (add name domain token) rs s (u, h) =
      let later =
        All-mono _ _ s.domains
          (λ d k v. proven_before expected d rs (tenant, add name domain token) (k v)) h in
      commit-keeps (IsSound (rs ++ (tenant, add name domain token) ∷ []))
        (addable tenant name domain s) _ s (u, later)
        (λ v e. (
          IsUnique-append (added_row name domain token) s.domains
              (free_domain (own_app tenant name s) (find (is_domain domain) s.domains) v e).1 u,
          All-append _ (added_row name domain token) s.domains later (λ h. absurd (ground arith)),
        ))
  handle-IsSound tenant (delete name domain) rs s (u, h) =
      let later =
        All-mono _ _ s.domains
          (λ d k v. proven_before expected d rs (tenant, delete name domain) (k v)) h in
      commit-keeps (IsSound (rs ++ (tenant, delete name domain) ∷ []))
        (own_domain tenant name domain s) _ s (u, later)
        (λ v e. (
          IsUnique-delete (is_domain_of name domain) s.domains u,
          All-delete _ (is_domain_of name domain) s.domains later,
        ))
  handle-IsSound tenant (verify name domain records) rs s (u, h) =
      let later =
        All-mono _ _ s.domains
          (λ d k v. proven_before expected d rs (tenant, verify name domain records) (k v)) h in
      commit-keeps (IsSound (rs ++ (tenant, verify name domain records) ∷ []))
        (verifiable api expected tenant name domain records s) _ s (u, later)
        (λ d e.
          let (found, text) =
            verified_row_found (own_app tenant name s) (find (is_domain_of name domain) s.domains)
              (λ d. has_text (expected d.verify_token) records) d e in
          (
            IsUnique-verify (is_domain_of name domain) s.domains u,
            All-verified _ name domain s.domains d u found
                (λ _.
                  proven_now expected (verified_row d) rs (tenant, verify name domain records)
                    (rw (find-holds (is_domain_of name domain) s.domains d found, text) refl))
                later,
          ))

  run-IsSound :
      (rs past : List (ℕ × Request)) (s : World K)
      → IsSound past s
      → IsSound (past ++ rs) (run api expected rs s)
  unfolding run
  run-IsSound [] past s h = subst (λ l. IsSound l s) (sym (append-nil past)) h
  run-IsSound ((tenant, r) ∷ rs) past s h =
      subst (λ l. IsSound l (run api expected rs (handle api expected tenant r s)))
        (append_assoc past ((tenant, r) ∷ []) rs)
        (run-IsSound rs (past ++ (tenant, r) ∷ []) (handle api expected tenant r s)
          (handle-IsSound tenant r past s h))

  -- From tables where no domain is verified and none has two rows, every run of requests leaves no
  -- domain with two rows, and verified only such rows as one of the run's verifications proved: its
  -- lookup gave the expected text of the row's own token.
  pub run-AllProven :
      (rs : List (ℕ × Request)) (s : World K)
      → IsUnique s.domains
      → All (λ d. d.verified ≡ false) s.domains
      → IsUnique (run api expected rs s).domains
        × AllProven expected rs (run api expected rs s).domains
  run-AllProven rs s u h =
      run-IsSound rs [] s (u, All-mono _ _ s.domains (λ d unverified v. ground arith) h)

  -- The owner of a new domain who sets the TXT record to the value in the reply is refused: the
  -- verification looks for another text, which has `tinai-verify=` before it.
  pub advertised_refused :
      (tenant name domain token : ℕ) (s : World K) (r : Added)
      → ((t : ℕ) → expected t ≢ t)
      → (add_domain api expected tenant name domain token s).0 ≡ send 201 r
      → (verify_domain api expected tenant name domain
          (r.verify_txt_value ∷ [])
          (add_domain api expected tenant name domain token s).1).0
        ≡ fail 400 "DNS TXT record not found"
  unfolding verify_domain commit add_domain
  advertised_refused tenant name domain token s r longer sent =
      let row = added_row name domain token in
      let (v, passes, same) =
        commit-sent (addable tenant name domain s)
          (λ _ (s : World K). (
            send 201 (record { domain = domain; verified = false; verify_txt_value = token }),
            record s {
              domains = s.domains ++ added_row name domain token ∷ [];
              cluster = upsert_ingress_rule api expected name domain s.cluster;
            },
          ))
          s 201 r sent in
      let s' : World K = record s {
        domains = s.domains ++ row ∷ [];
        cluster = upsert_ingress_rule api expected name domain s.cluster;
      } in
      let answer : send 201 (record { domain = domain; verified = false; verify_txt_value = token })
          ≡ send 201 r =
        ap (λ p. p.0) (sym same) ∙ sent in
      let told : token ≡ r.verify_txt_value = ground arith in
      let (own, fresh) =
        free_domain (own_app tenant name s) (find (is_domain domain) s.domains) v passes in
      let found : find (is_domain_of name domain) (s.domains ++ row ∷ []) ≡ some row =
        find-append_miss (is_domain_of name domain) s.domains (row ∷ []) (
          find-none_of_stricter (is_domain_of name domain) (is_domain domain) s.domains
            (λ d h. ground arith) fresh)
        ∙ rw (==_refl name, ==_refl domain) refl in
      let wrong : has_text (expected token) (token ∷ []) ≡ false =
        (let ne : (token == expected token) ≡ false = ground (arith, longer token) in rw ne refl) in
      let refused : verifiable api expected tenant name domain (token ∷ []) s'
          ≡ reject 400 "DNS TXT record not found" =
        rw (own, found, wrong) refl in
      subst
        (λ t.
          (verify_domain api expected tenant name domain (t ∷ [])
            (add_domain api expected tenant name domain token s).1).0
          ≡ fail 400 "DNS TXT record not found")
        told
        (ap
            (λ (p : Reply Added × World K).
              (verify_domain api expected tenant name domain (token ∷ []) p.1).0)
            same
          ∙ rw (refused, commit) refl)
