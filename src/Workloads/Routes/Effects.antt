-- ===== src/Workloads/Routes/Effects.antt =====
-- What the routes report of the cluster.
use tinai_infra.Prelude.{ℕ, zero, suc, ◌≡◌, Option, none, some, or_else}
use tinai_infra.Workloads.{
  WorkloadType, service, function, job, static, deployment, k8s_service, ingress, knative_service,
  cron_job, deployment_spec, service_spec, ingress_spec, knative_spec, cron_spec, Api,
}
use tinai_infra.Workloads.Deploy.{nginx_image}
use tinai_infra.Workloads.Rows.{WorkloadBody}

-- The port of a container: 8080 where none is asked for, and another where zero is.
abbrev pub IsPort : (instead : ℕ) → Option ℕ → ℕ → Type 0
IsPort instead none port = port ≡ 8080
IsPort instead (some zero) port = port ≡ instead
IsPort instead (some (suc n)) port = port ≡ suc n

module _ {K : Type 0} (api : Api K) where
  -- The three objects of a service, under the label of the tenant and with what the body asks for.
  abbrev pub IsServing : (tenant image : ℕ) → WorkloadBody → K → Type 0
  IsServing tenant image b k =
      (port : ℕ) × IsPort 80 b.port port
      × (api.read deployment b.name k
          ≡ some (record {
            kind = deployment;
            name = b.name;
            tenant_id = tenant;
            spec =
                deployment_spec b.replicas port
                  (record {
                    image = image;
                    env = b.env;
                    memory_limit = b.memory_limit;
                    cpu_limit = b.cpu_limit;
                  })
                  none;
          }))
      × (api.read k8s_service b.name k
          ≡ some (record {
            kind = k8s_service;
            name = b.name;
            tenant_id = tenant;
            spec = service_spec port;
          }))
      × (api.read ingress b.name k
          ≡ some (record {
            kind = ingress;
            name = b.name;
            tenant_id = tenant;
            spec = ingress_spec b.name;
          }))

  -- The objects of a body of each type.
  abbrev pub IsRunning : WorkloadType → (tenant image : ℕ) → WorkloadBody → K → Type 0
  IsRunning service tenant image b k = IsServing tenant image b k
  IsRunning static tenant image b k = IsServing tenant nginx_image b k
  IsRunning function tenant image b k =
      (port : ℕ) × IsPort 8080 b.port port
      × (api.read knative_service b.name k
          ≡ some (record {
            kind = knative_service;
            name = b.name;
            tenant_id = tenant;
            spec = knative_spec port (record {
              image = image;
              env = b.env;
              memory_limit = b.memory_limit;
              cpu_limit = b.cpu_limit;
            });
          }))
  IsRunning job tenant image b k =
      api.read cron_job b.name k
      ≡ some (record {
        kind = cron_job;
        name = b.name;
        tenant_id = tenant;
        spec = cron_spec (or_else b.schedule "0 * * * *") (record {
          image = image;
          env = b.env;
          memory_limit = b.memory_limit;
          cpu_limit = b.cpu_limit;
        });
      })
