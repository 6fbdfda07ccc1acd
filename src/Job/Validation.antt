-- ===== src/Job/Validation.antt =====
-- What an accepted input of pkg/model/job.go satisfies.
use progo_a2a.Prelude.{ℕ, String, ◌≡◌, ◌≤◌, ◌<◌, false, ok, arith, ◌&&◌, is_blank, rune_count}
use progo_a2a.Prelude.Int.{pos_part}
use progo_a2a.Job.{
  LeaseFence, CreateJobInput, FailJobInput, validate_fail, JobError, check_text, validate_fence,
  validate_create, max_tenant_id_length, max_job_id_length, max_lease_owner_length,
}

-- A text that is neither blank nor longer than its bound.
pub record IsText (s : String) (bound : ℕ) : Type 0 where
  pub filled : is_blank s ≡ false
  pub bounded : rune_count s ≤ bound

pub check_text-IsText :
    (s : String) (bound : ℕ) (empty long : JobError)
    → check_text s bound empty long ≡ ok tt
    → IsText s bound
unfolding check_text
check_text-IsText s bound empty long h = ground arith

pub record IsFence (f : LeaseFence) : Type 0 where
  pub tenant : IsText f.tenant_id max_tenant_id_length
  pub job : IsText f.job_id max_job_id_length
  pub owner : IsText f.lease_owner max_lease_owner_length
  pub token : 0 < pos_part f.lease_token

pub validate_fence-IsFence : (f : LeaseFence) → validate_fence f ≡ ok tt → IsFence f
unfolding validate_fence
validate_fence-IsFence f h = ground arith

pub validate_create-attempts :
    {V : Type 0} (input : CreateJobInput V) {v : V}
    → validate_create input ≡ ok v
    → (0 < pos_part input.max_attempts) × (pos_part input.max_attempts ≤ 100)
unfolding validate_create
validate_create-attempts input h = ground arith

pub validate_fail-lengths :
    (i : FailJobInput)
    → validate_fail i ≡ ok tt
    → (rune_count i.failure_code ≤ 128) × (rune_count i.failure_message ≤ 2048)
unfolding validate_fail
validate_fail-lengths i h = (ground (arith, h), ground (arith, h))

-- The texts of an accepted input, and its agent or capability.
pub record IsRouted {V : Type 0} (input : CreateJobInput V) : Type 0 where
  pub id : IsText input.id 256
  pub tenant : IsText input.tenant_id 128
  pub key : IsText input.idempotency_key 512
  pub agent : rune_count input.agent_id ≤ 256
  pub capability : rune_count input.required_capability ≤ 256
  pub routing : (is_blank input.agent_id && is_blank input.required_capability) ≡ false

pub validate_create-IsRouted :
    {V : Type 0} (input : CreateJobInput V) {v : V} → validate_create input ≡ ok v → IsRouted input
unfolding validate_create
validate_create-IsRouted input h = ground arith
