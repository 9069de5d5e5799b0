-- ===== src/Workloads/Manifests.antt =====
-- The manifests that `buildDeployment` and its siblings make.
use tinai_infra.Prelude.{ℕ, String, Option, none, if◌then◌else◌, ◌==◌, or_else}
use tinai_infra.Workloads.{
  WorkloadType, Env, deployment, k8s_service, ingress, scaled_object, knative_service, cron_job,
  Container, deployment_spec, service_spec, ingress_spec, scaler_spec, knative_spec, cron_spec,
  Manifest,
}

-- What `deployToK8s` is given.
pub record Target : Type 0 where
  pub name : ℕ
  pub tenant_id : ℕ
  pub type : WorkloadType
  pub image : ℕ
  pub port : ℕ
  pub env : Env
  pub replicas : ℕ
  pub memory_limit : ℕ
  pub cpu_limit : ℕ
  pub domain : ℕ
  pub schedule : Option String
  pub max_replicas : Option ℕ

-- `port || d`
abbrev pub port_or : (port d : ℕ) → ℕ
port_or port d = if port == 0 then d else port

abbrev pub container : Target → (image : ℕ) → Container
container w image = record {
  image = image;
  env = w.env;
  memory_limit = w.memory_limit;
  cpu_limit = w.cpu_limit;
}

-- `buildDeployment`
abbrev pub build_deployment : Target → (image : ℕ) → Manifest
build_deployment w image = record {
  kind = deployment;
  name = w.name;
  tenant_id = w.tenant_id;
  spec = deployment_spec w.replicas (port_or w.port 80) (container w image) none;
}

-- `buildService`
abbrev pub build_service : Target → Manifest
build_service w = record {
  kind = k8s_service;
  name = w.name;
  tenant_id = w.tenant_id;
  spec = service_spec (port_or w.port 80);
}

-- `buildIngress`
abbrev pub build_ingress : Target → Manifest
build_ingress w = record {
  kind = ingress;
  name = w.name;
  tenant_id = w.tenant_id;
  spec = ingress_spec w.domain;
}

-- `buildScaledObject`
abbrev pub build_scaled_object : Target → Manifest
build_scaled_object w = record {
  kind = scaled_object;
  name = w.name;
  tenant_id = w.tenant_id;
  spec = scaler_spec (or_else w.max_replicas 2);
}

-- `buildKnativeService`
abbrev pub build_knative_service : Target → Manifest
build_knative_service w = record {
  kind = knative_service;
  name = w.name;
  tenant_id = w.tenant_id;
  spec = knative_spec (port_or w.port 8080) (container w w.image);
}

abbrev pub hourly : String
hourly = "0 * * * *"

-- `buildCronJob`
abbrev pub build_cron_job : Target → Manifest
build_cron_job w = record {
  kind = cron_job;
  name = w.name;
  tenant_id = w.tenant_id;
  spec = cron_spec (or_else w.schedule hourly) (container w w.image);
}
