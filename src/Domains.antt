-- ===== src/Domains.antt =====
-- Custom domains of apps: routes/customDomains.ts of platform/services/tinai-api. App names, domains
-- and tokens are numbers.
pub mod Rows
pub mod Verified
pub mod Routed
mod Tests
use tinai_infra.Prelude.{
  ℕ, Bool, true, false, not, ◌&&◌, Option, none, some, List, [], ◌∷◌, ◌++◌, if◌then◌else◌, ◌==◌,
  is_some, find, update_where, delete_where, Reply, send, fail, Check, pass, require, require_row,
  commit, ◌>>=◌, ◌>>◌,
}

-- The columns of `apps` that these routes read.
pub record App : Type 0 where
  pub name : ℕ
  pub owner : ℕ

pub data CertStatus : Type 0 where
  pending issuing : CertStatus

-- A row of `custom_domains`.
pub record Domain : Type 0 where
  pub app_name : ℕ
  pub domain : ℕ
  pub verified : Bool
  pub cert_status : CertStatus
  pub verify_token : ℕ

-- What the code uses of the Kubernetes API: the hosts of the rules of an app's Ingress. A read that
-- fails gives none, and a write gives whether it was taken.
pub record Api (K : Type 0) : Type 0 where
  pub read : (app : ℕ) → K → Option (List ℕ)
  pub replace : (app : ℕ) → List ℕ → K → Bool × K
  pub create : (app : ℕ) → List ℕ → K → Bool × K

pub record World (K : Type 0) : Type 0 where
  pub apps : List App
  pub domains : List Domain
  pub cluster : K

-- The reply to a new domain, with the TXT value that its owner is told to set.
pub record Added : Type 0 where
  pub domain : ℕ
  pub verified : Bool
  pub verify_txt_value : ℕ

abbrev pub is_app : ℕ → App → Bool
is_app name a = a.name == name

abbrev pub is_domain : ℕ → Domain → Bool
is_domain domain d = d.domain == domain

abbrev pub is_domain_of : (name domain : ℕ) → Domain → Bool
is_domain_of name domain d = d.app_name == name && d.domain == domain

-- `rules.filter(r => r.host !== domain)`
abbrev pub other_hosts : ℕ → List ℕ → List ℕ
other_hosts domain hosts = delete_where (λ h. h == domain) hosts

abbrev pub added_row : (name domain token : ℕ) → Domain
added_row name domain token = record {
  app_name = name;
  domain = domain;
  verified = false;
  cert_status = pending;
  verify_token = token;
}

abbrev pub verified_row : Domain → Domain
verified_row d = record d { verified = true; cert_status = issuing }

abbrev pub has_text : ℕ → List ℕ → Bool
has_text t ts = is_some (find (λ r. r == t) ts)

module _ {K : Type 0} where
  abbrev pub own_app : (tenant name : ℕ) → World K → Check (Unit {0})
  own_app tenant name s = do
    a ← require_row (find (is_app name) s.apps) 404 "app not found"
    require (a.owner == tenant) 403 "Forbidden"

  abbrev pub addable : (tenant name domain : ℕ) → World K → Check (Unit {0})
  addable tenant name domain s = do
    own_app tenant name s
    require (not (is_some (find (is_domain domain) s.domains))) 409 "domain already registered"

  abbrev pub own_domain : (tenant name domain : ℕ) → World K → Check Domain
  own_domain tenant name domain s = do
    own_app tenant name s
    require_row (find (is_domain_of name domain) s.domains) 404 "domain not found"

-- A request of a tenant; a verification comes with what the lookup then gives.
pub data Request : Type 0 where
  add : (name domain token : ℕ) → Request
  delete : (name domain : ℕ) → Request
  verify : (name domain : ℕ) → List ℕ → Request

-- `expected` is the text `tinai-verify=` before a token; `records` are the TXT records that a lookup
-- under `_tinai-verify.` gives for a domain, and none where it fails.
module _ {K : Type 0} (api : Api K) (expected : ℕ → ℕ) where
  abbrev pub upsert_on : (name domain : ℕ) → Option (List ℕ) → K → K
  upsert_on name domain (some hosts) k =
      (api.replace name (other_hosts domain hosts ++ domain ∷ []) k).1
  upsert_on name domain none k = (api.create name (domain ∷ []) k).1

  -- `upsertIngressRule`; a failure is only logged.
  abbrev pub upsert_ingress_rule : (name domain : ℕ) → K → K
  upsert_ingress_rule name domain k = upsert_on name domain (api.read name k) k

  abbrev pub remove_on : (name domain : ℕ) → Option (List ℕ) → K → K
  remove_on name domain (some hosts) k = (api.replace name (other_hosts domain hosts) k).1
  remove_on name domain none k = k

  -- `removeIngressRule`; a failure is only logged.
  abbrev pub remove_ingress_rule : (name domain : ℕ) → K → K
  remove_ingress_rule name domain k = remove_on name domain (api.read name k) k

  -- POST /apps/:name/domains, with the random token.
  unfoldable pub add_domain : (tenant name domain token : ℕ) → World K → Reply Added × World K
  add_domain tenant name domain token s =
      commit (addable tenant name domain s)
        (λ _ (s : World K). (
          send 201 (record { domain = domain; verified = false; verify_txt_value = token }),
          record s {
            domains = s.domains ++ added_row name domain token ∷ [];
            cluster = upsert_ingress_rule name domain s.cluster;
          },
        ))
        s

  -- DELETE /apps/:name/domains/:domain
  unfoldable pub delete_domain : (tenant name domain : ℕ) → World K → Reply (Unit {0}) × World K
  delete_domain tenant name domain s =
      commit (own_domain tenant name domain s)
        (λ _ (s : World K). (
          send 204 tt,
          record s {
            domains = delete_where (is_domain_of name domain) s.domains;
            cluster = remove_ingress_rule name domain s.cluster;
          },
        ))
        s

  abbrev pub verifiable : (tenant name domain : ℕ) → List ℕ → World K → Check Domain
  verifiable tenant name domain records s = do
    d ← own_domain tenant name domain s
    require (has_text (expected d.verify_token) records) 400 "DNS TXT record not found"
    pass d

  -- POST /apps/:name/domains/:domain/verify
  unfoldable pub verify_domain :
      (tenant name domain : ℕ) → (records : List ℕ) → World K → Reply Domain × World K
  verify_domain tenant name domain records s =
      commit (verifiable tenant name domain records s)
        (λ (d : Domain) (s : World K). (
          send 200 (verified_row d),
          record s { domains = update_where (is_domain_of name domain) verified_row s.domains },
        ))
        s

  unfoldable pub handle : (tenant : ℕ) → Request → World K → World K
  handle tenant (add name domain token) s = (add_domain tenant name domain token s).1
  handle tenant (delete name domain) s = (delete_domain tenant name domain s).1
  handle tenant (verify name domain records) s = (verify_domain tenant name domain records s).1

  unfoldable pub run : List (ℕ × Request) → World K → World K
  run [] s = s
  run ((tenant, r) ∷ rs) s = run rs (handle tenant r s)
