-- ===== src/Workloads.antt =====
-- Workloads: routes/workloads.ts of platform/services/tinai-api. Here are the rows and what the code
-- uses of the Kubernetes API. Names, images, hosts and quantities such as `256Mi` are numbers; the
-- number zero is the empty text.
pub mod Manifests
pub mod Deploy
pub mod Rows
pub mod Routes
mod Tests
use tinai_infra.Prelude.{
  ℕ, ◌≡◌, ◌≢◌, String, Bool, true, false, ◌&&◌, Option, none, some, List, [], ◌∷◌, ◌++◌,
  if◌then◌else◌, ◌==◌, is_some, find, or_else,
}

pub data WorkloadType : Type 0 where
  service function job static : WorkloadType

pub data Status : Type 0 where
  pending building running failed : Status

-- `Record<string, string>`
abbrev pub Env : Type 0
Env = List (ℕ × ℕ)

-- A row of `workloads`; its domain is the name under BASE_DOMAIN.
pub record Workload : Type 0 where
  pub id : ℕ
  pub tenant_id : ℕ
  pub name : ℕ
  pub type : WorkloadType
  pub status : Status
  pub source_git_url : Option ℕ
  pub source_ref : ℕ
  pub image : Option ℕ
  pub port : Option ℕ
  pub env : Env
  pub replicas : ℕ
  pub memory_limit : ℕ
  pub cpu_limit : ℕ
  pub domain : ℕ
  pub project_id : Option ℕ
  pub environment : ℕ
  pub last_deployed_at : Option ℕ

-- The kinds of objects that the code writes; each has names of its own. A ScaledObject is named after
-- its workload, with `-scaler` behind.
pub data Kind : Type 0 where
  deployment k8s_service ingress scaled_object knative_service cron_job : Kind

abbrev kind_no : Kind → ℕ
kind_no deployment = 0
kind_no k8s_service = 1
kind_no ingress = 2
kind_no scaled_object = 3
kind_no knative_service = 4
kind_no cron_job = 5

abbrev pub same_kind : Kind → Kind → Bool
same_kind a b = kind_no a == kind_no b

pub record Container : Type 0 where
  pub image : ℕ
  pub env : Env
  pub memory_limit : ℕ
  pub cpu_limit : ℕ

pub data Spec : Type 0 where
  deployment_spec : (replicas port : ℕ) → Container → (restarted_at : Option ℕ) → Spec
  service_spec : (target_port : ℕ) → Spec
  ingress_spec : (host : ℕ) → Spec
  scaler_spec : (max_replicas : ℕ) → Spec
  knative_spec : (port : ℕ) → Container → Spec
  cron_spec : (schedule : String) → Container → Spec

-- An object of the namespace of the workloads, with the label `tinai.cloud/tenant-id`.
pub record Manifest : Type 0 where
  pub kind : Kind
  pub name : ℕ
  pub tenant_id : ℕ
  pub spec : Spec

-- How a call of the API ends; `fails` is every other status and every lost connection.
pub data Outcome : Type 0 where
  ok conflict not_found fails : Outcome

-- The client of the Kubernetes API, on a state that the cluster keeps. A read that fails gives none.
pub record Api (K : Type 0) : Type 0 where
  pub create : Manifest → K → Outcome × K
  pub replace : Manifest → K → Outcome × K
  pub delete : Kind → ℕ → K → Outcome × K
  pub read : Kind → ℕ → K → Option Manifest

abbrev pub is_at : Kind → ℕ → Manifest → Bool
is_at kind name m = same_kind m.kind kind && m.name == name

-- What the API documents of a call that writes an object: a success stores it, a failure stores
-- nothing, and no other object is touched.
pub record Writes {K : Type 0} (read : Kind → ℕ → K → Option Manifest) (m : Manifest) (k : K)
    (r : Outcome × K) : Type 0 where
  pub stored : r.0 ≡ ok → read m.kind m.name r.1 ≡ some m
  pub unchanged : r.0 ≢ ok → read m.kind m.name r.1 ≡ read m.kind m.name k
  pub others :
      (kind : Kind) (name : ℕ) → is_at kind name m ≡ false → read kind name r.1 ≡ read kind name k

-- And of a call that deletes one, which may be carried out later: no other object is touched.
pub record Deletes {K : Type 0} (read : Kind → ℕ → K → Option Manifest) (kind : Kind) (name : ℕ)
    (k : K) (r : Outcome × K) : Type 0 where
  pub others :
      (kind' : Kind) (name' : ℕ)
      → (same_kind kind kind' && name == name') ≡ false
      → read kind' name' r.1 ≡ read kind' name' k

pub record Laws {K : Type 0} (api : Api K) : Type 0 where
  pub creates : (m : Manifest) (k : K) → Writes api.read m k (api.create m k)
  pub replaces : (m : Manifest) (k : K) → Writes api.read m k (api.replace m k)
  pub deletes :
      (kind : Kind) (name : ℕ) (k : K) → Deletes api.read kind name k (api.delete kind name k)
