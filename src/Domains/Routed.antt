-- ===== src/Domains/Routed.antt =====
-- Which domains the Ingress of an app serves.
use tinai_infra.Prelude.{
  ℕ, ◌≡◌, ◌≢◌, refl, ◌∙◌, ap, sym, subst, Bool, true, false, ◌&&◌, Option, none, some, List, [],
  ◌∷◌, ◌++◌, arith, ◌==◌, ==_refl, delete_where, pass, All, All-update_where, commit-keeps,
  Bool-cases, inl, inr,
}
use tinai_infra.Domains.{
  Domain, Api, World, is_domain_of, added_row, verified_row, other_hosts, addable, own_domain,
  verifiable, upsert_on, upsert_ingress_rule, remove_on, add_domain, delete_domain, verify_domain,
  has_text, Request, add, delete, verify, handle, run,
}
use tinai_infra.Domains.Rows.{All-append, All-mono}

-- What the API documents of a write to an Ingress: one that is taken is what is read afterwards, one
-- that is refused changes nothing, and no other Ingress is touched.
pub record Answers {K : Type 0} (api : Api K) : Type 0 where
  pub replaced :
      (app : ℕ) (hosts : List ℕ) (k : K)
      → (api.replace app hosts k).0 ≡ true
      → api.read app (api.replace app hosts k).1 ≡ some hosts
  pub not_replaced :
      (app : ℕ) (hosts : List ℕ) (k : K)
      → (api.replace app hosts k).0 ≡ false
      → api.read app (api.replace app hosts k).1 ≡ api.read app k
  pub created :
      (app : ℕ) (hosts : List ℕ) (k : K)
      → (api.create app hosts k).0 ≡ true
      → api.read app (api.create app hosts k).1 ≡ some hosts
  pub replaced_apart :
      (app other : ℕ) (hosts : List ℕ) (k : K)
      → other ≢ app
      → api.read other (api.replace app hosts k).1 ≡ api.read other k
  pub created_apart :
      (app other : ℕ) (hosts : List ℕ) (k : K)
      → other ≢ app
      → api.read other (api.create app hosts k).1 ≡ api.read other k

abbrev pub hosts_serve : ℕ → Option (List ℕ) → Bool
hosts_serve domain none = false
hosts_serve domain (some hosts) = has_text domain hosts

has_text_last : (t : ℕ) (ts : List ℕ) → has_text t (ts ++ t ∷ []) ≡ true
has_text_last t [] = rw (==_refl t) refl
has_text_last t (r ∷ ts) = ground (arith, has_text_last t ts)

has_text_before : (t u : ℕ) (ts : List ℕ) → has_text t ts ≡ true → has_text t (ts ++ u ∷ []) ≡ true
has_text_before t u [] e = ground arith
has_text_before t u (r ∷ ts) e = ground (arith, has_text_before t u ts)

other_hosts_serve :
    (t domain : ℕ) (hosts : List ℕ)
    → t ≢ domain
    → has_text t hosts ≡ true
    → has_text t (other_hosts domain hosts) ≡ true
other_hosts_serve t domain [] ne e = ground arith
other_hosts_serve t domain (h ∷ hosts) ne e = ground (arith, other_hosts_serve t domain hosts ne)

upserted_serve :
    (t domain : ℕ) (hosts : List ℕ)
    → has_text t hosts ≡ true
    → has_text t (other_hosts domain hosts ++ domain ∷ []) ≡ true
upserted_serve t domain hosts e = elim (Bool-cases (t == domain)) [
  | inl same ↦
      let at : t ≡ domain = ground arith in
      subst (λ d. has_text t (other_hosts d hosts ++ d ∷ []) ≡ true) at
        (has_text_last t (other_hosts t hosts))
  | inr apart ↦
      has_text_before t domain (other_hosts domain hosts)
        (other_hosts_serve t domain hosts (λ same. ground arith) e)
]

All-delete_others :
    (P Q : Domain → Type 0) (q : Domain → Bool) (ds : List Domain)
    → ((d : Domain) → q d ≡ false → P d → Q d)
    → All P ds
    → All Q (delete_where q ds)
All-delete_others P Q q [] f h = tt
All-delete_others P Q q (d ∷ ds) f (x, h) = elim (Bool-cases (q d)) [
  | inl e ↦ rw e (All-delete_others P Q q ds f h)
  | inr e ↦ rw e (f d e x, All-delete_others P Q q ds f h)
]

module _ {K : Type 0} (api : Api K) (expected : ℕ → ℕ) (answers : Answers api) where
  abbrev pub serves : (name domain : ℕ) → K → Bool
  serves name domain k = hosts_serve domain (api.read name k)

  -- The write of a new rule is taken.
  abbrev pub IsTaken : (name domain : ℕ) → Option (List ℕ) → K → Type 0
  IsTaken name domain (some hosts) k =
      (api.replace name (other_hosts domain hosts ++ domain ∷ []) k).0 ≡ true
  IsTaken name domain none k = (api.create name (domain ∷ []) k).0 ≡ true

  upsert_on-serves :
      (name domain : ℕ) (o : Option (List ℕ)) (k : K)
      → IsTaken name domain o k
      → serves name domain (upsert_on api expected name domain o k) ≡ true
  upsert_on-serves name domain (some hosts) k e =
      ap (hosts_serve domain) (answers.replaced name (other_hosts domain hosts ++ domain ∷ []) k e)
      ∙ has_text_last domain (other_hosts domain hosts)
  upsert_on-serves name domain none k e =
      ap (hosts_serve domain) (answers.created name (domain ∷ []) k e) ∙ rw (==_refl domain) refl

  -- A host that is served stays so when the Ingress is given hosts that have it.
  replace_keeps :
      (name n d : ℕ) (hosts : List ℕ) (k : K)
      → (n ≡ name → has_text d hosts ≡ true)
      → serves n d k ≡ true
      → serves n d (api.replace name hosts k).1 ≡ true
  replace_keeps name n d hosts k has h = elim (Bool-cases (n == name)) [
    | inr apart ↦
        ap (hosts_serve d) (answers.replaced_apart name n hosts k (λ same. ground arith)) ∙ h
    | inl same ↦
        let at : n ≡ name = ground arith in
        elim (Bool-cases (api.replace name hosts k).0) [
          | inl e ↦
              ap (λ n. serves n d (api.replace name hosts k).1) at
              ∙ ap (hosts_serve d) (answers.replaced name hosts k e)
              ∙ has at
          | inr e ↦
              ap (λ n. serves n d (api.replace name hosts k).1) at
              ∙ ap (hosts_serve d) (answers.not_replaced name hosts k e)
              ∙ ap (λ n. serves n d k) (sym at)
              ∙ h
        ]
  ]

  served_before :
      (name n d : ℕ) (hosts : List ℕ) (k : K)
      → api.read name k ≡ some hosts
      → serves n d k ≡ true
      → n ≡ name
      → has_text d hosts ≡ true
  served_before name n d hosts k e h at =
      ap (hosts_serve d) (sym e) ∙ ap (λ n. serves n d k) (sym at) ∙ h

  upsert_on_keeps :
      (name domain n d : ℕ) (o : Option (List ℕ)) (k : K)
      → api.read name k ≡ o
      → serves n d k ≡ true
      → serves n d (upsert_on api expected name domain o k) ≡ true
  upsert_on_keeps name domain n d (some hosts) k e h =
      replace_keeps name n d (other_hosts domain hosts ++ domain ∷ []) k
        (λ at. upserted_serve d domain hosts (served_before name n d hosts k e h at)) h
  upsert_on_keeps name domain n d none k e h = elim (Bool-cases (n == name)) [
    | inl same ↦
        let at : n ≡ name = ground arith in
        let never : false ≡ true =
          ap (hosts_serve d) (sym e ∙ sym (ap (λ n. api.read n k) at)) ∙ h in
        absurd (ground arith)
    | inr apart ↦
        ap (hosts_serve d) (answers.created_apart name n (domain ∷ []) k (λ same. ground arith)) ∙ h
  ]

  remove_on_keeps :
      (name domain n d : ℕ) (o : Option (List ℕ)) (k : K)
      → api.read name k ≡ o
      → (n == name && d == domain) ≡ false
      → serves n d k ≡ true
      → serves n d (remove_on api expected name domain o k) ≡ true
  remove_on_keeps name domain n d none k e ne h = h
  remove_on_keeps name domain n d (some hosts) k e ne h =
      replace_keeps name n d (other_hosts domain hosts) k
        (λ at.
          other_hosts_serve d domain hosts (λ same. ground arith)
            (served_before name n d hosts k e h at))
        h

  -- The cluster takes the write of every domain that is added in a run.
  abbrev pub Takes : (tenant : ℕ) → Request → World K → Type 0
  Takes tenant (add name domain token) s =
      addable tenant name domain s ≡ pass tt
      → IsTaken name domain (api.read name s.cluster) s.cluster
  Takes tenant _ s = Unit

  abbrev pub TakesAll : List (ℕ × Request) → World K → Type 0
  TakesAll [] s = Unit
  TakesAll ((tenant, r) ∷ rs) s = Takes tenant r s × TakesAll rs (handle api expected tenant r s)

  abbrev pub AllServed : World K → Type 0
  AllServed s = All (λ d. serves d.app_name d.domain s.cluster ≡ true) s.domains

  handle-AllServed :
      (tenant : ℕ) (r : Request) (s : World K)
      → Takes tenant r s
      → AllServed s
      → AllServed (handle api expected tenant r s)
  unfolding handle add_domain delete_domain verify_domain
  handle-AllServed tenant (add name domain token) s takes h =
      commit-keeps AllServed (addable tenant name domain s) _ s h (λ _ passes.
        All-append
          (λ d.
            serves d.app_name d.domain (upsert_ingress_rule api expected name domain s.cluster)
            ≡ true)
          (added_row name domain token) s.domains
          (All-mono _ _ s.domains
            (λ d.
              upsert_on_keeps name domain d.app_name d.domain (api.read name s.cluster) s.cluster
                refl)
            h)
          (upsert_on-serves name domain (api.read name s.cluster) s.cluster (takes passes)))
  handle-AllServed tenant (delete name domain) s _ h =
      commit-keeps AllServed (own_domain tenant name domain s) _ s h (λ _ _.
        All-delete_others _ _ (is_domain_of name domain) s.domains
          (λ d.
            remove_on_keeps name domain d.app_name d.domain (api.read name s.cluster) s.cluster
              refl)
          h)
  handle-AllServed tenant (verify name domain records) s _ h =
      commit-keeps AllServed (verifiable api expected tenant name domain records s) _ s h (λ _ _.
        All-update_where (λ d. serves d.app_name d.domain s.cluster ≡ true)
          (is_domain_of name domain) verified_row s.domains (λ a k. k) h)

  -- Where the Ingress of its app serves the domain of every row, it does so after every run of requests
  -- in which the cluster takes the write of each domain that is added: for all rows that are there
  -- then, verified or not.
  pub run-AllServed :
      (rs : List (ℕ × Request)) (s : World K)
      → TakesAll rs s
      → AllServed s
      → AllServed (run api expected rs s)
  unfolding run
  run-AllServed [] s takes h = h
  run-AllServed ((tenant, r) ∷ rs) s (takes, rest) h =
      run-AllServed rs (handle api expected tenant r s) rest (handle-AllServed tenant r s takes h)
