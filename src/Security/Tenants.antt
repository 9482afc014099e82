-- ===== src/Security/Tenants.antt =====
-- src/services/tenant-service.ts and src/domain/tenant.ts: what a tenant may have at a time.
use jobflow_project.Common.{
  Map, Option, Result, Text, [], arith, err, if◌then◌else◌, insert, leb, length, lookup,
  lookup-insert_self, none, ok, some, suc, text, values, ℕ, ◌∷◌, ◌≡◌, ◌≤◌,
}
use jobflow_project.Domain.{JobDefinition, JobRun, JobflowError, coded_error}
use jobflow_project.Domain.{coded_error}
use jobflow_project.Storage.Runs.{list_active, list_jobs, save_job}

pub data Environment : Type 0 where
  development staging production : Environment

pub record TenantQuotas : Type 0 where
  pub max_concurrent_runs : ℕ
  pub max_jobs : ℕ
  pub max_webhook_endpoints : ℕ

pub record TenantContext : Type 0 where
  pub tenant_id : Text
  pub environment : Environment
  pub quotas : TenantQuotas

abbrev pub default_quotas : TenantQuotas
default_quotas = record { max_concurrent_runs = 50; max_jobs = 200; max_webhook_endpoints = 10 }

unfoldable pub register_tenant :
    Text → Environment → Map TenantContext → TenantContext × Map TenantContext
register_tenant id environment tenants =
    let ctx : TenantContext = record {
      tenant_id = id;
      environment = environment;
      quotas = default_quotas;
    } in
    (ctx, insert id ctx tenants)

unfoldable pub get_tenant : Text → Map TenantContext → Option TenantContext
get_tenant id tenants = lookup id tenants

unfoldable pub within : (limit used : ℕ) → Text → Result JobflowError (Unit {0})
within limit used message =
    if leb limit used then err (coded_error (text "QUOTA_EXCEEDED") message) else ok tt

-- A tenant that is not registered has no quota.
unfoldable pub check_runs :
    {D : Type 0} → Option TenantContext → Map (JobRun D) → Result JobflowError (Unit {0})
unfolding within
check_runs none runs = ok tt
check_runs (some ctx) runs =
    within ctx.quotas.max_concurrent_runs (length (list_active runs))
      (text "max concurrent runs exceeded")

unfoldable pub assert_can_start_run :
    {D : Type 0} → Text → Map TenantContext → Map (JobRun D) → Result JobflowError (Unit {0})
unfolding check_runs
assert_can_start_run id tenants runs = check_runs (lookup id tenants) runs

unfoldable pub check_jobs :
    Option TenantContext → Map JobDefinition → Result JobflowError (Unit {0})
unfolding within
check_jobs none jobs = ok tt
check_jobs (some ctx) jobs =
    within ctx.quotas.max_jobs (length (list_jobs jobs)) (text "max jobs exceeded for tenant")

unfoldable pub assert_can_register_job :
    Text → Map TenantContext → Map JobDefinition → Result JobflowError (Unit {0})
unfolding check_jobs
assert_can_register_job id tenants jobs = check_jobs (lookup id tenants) jobs

insert-length :
    {V : Type 0} (k : Text) (v : V) (m : Map V)
    → length (values (insert k v m)) ≤ suc (length (values m))
unfolding insert values
insert-length k v [] = omega arith
insert-length k v ((j, w) ∷ m) = ground (arith, insert-length k v m)

-- If a tenant passes the check of its number of jobs right after it was registered, and a job is
-- then stored, new or in place of one, the stored jobs are no more than the default quota.
pub register-within :
    (id : Text) (environment : Environment) (tenants : Map TenantContext) (jobs : Map JobDefinition)
    (d : JobDefinition)
    → let r = register_tenant id environment tenants in
      assert_can_register_job id r.1 jobs ≡ ok tt
      → length (list_jobs (save_job d jobs)) ≤ default_quotas.max_jobs
unfolding assert_can_register_job register_tenant list_jobs save_job check_jobs within
register-within id environment tenants jobs d h =
    let e = rw (lookup-insert_self) at (h) in ground (arith, e, insert-length d.id d jobs)
