-- ===== src/Docker.antt =====
-- cmd/server/monitor.go, retryDocker: a query of the Docker API that is tried again. The answers are
-- an argument: what the query gives at the n-th attempt, and whether the scan's context has ended
-- before it.
pub mod Attempts
use Prim.Native.Nat.{max}
use chowkidar.Prelude.{
  ℕ, zero, suc, ◌+◌, Bool, true, false, List, String, Option, none, some, ℤ, pos_part,
  if◌then◌else◌,
}
use chowkidar.Model.{Container, Config, Job}
use chowkidar.Match.{Inspect}

module _ {ℓ} {A : Type ℓ} where
  -- `expired n` and `answer n` are about attempt n, counted from 1; `none` is an error.
  unfoldable pub attempts : (ℕ → Bool) → (ℕ → Option A) → ℕ → ℕ → Option A
  attempts expired answer n zero = none
  attempts expired answer n (suc left) =
      let rest = attempts expired answer (suc n) left in
      if expired n then none else elim (answer n) [ none ↦ rest | some x ↦ some x ]

  unfoldable pub retry_docker : Config → (ℕ → Bool) → (ℕ → Option A) → Option A
  unfolding attempts
  retry_docker cfg expired answer =
      attempts expired answer 1 (max (pos_part cfg.docker_client_retry_count) 1)

-- What a run of a health-check script gives.
pub data HealthCheck : Type 0 where
  healthy : HealthCheck
  unhealthy : HealthCheck
  broken : HealthCheck

-- A host's daemon during one scan: whether the context has ended before a query's n-th attempt, the
-- answers to the queries, by attempt, the inspect calls, and the health-check scripts.
pub record Host : Type 1 where
  pub id : String
  pub expired : ℕ → Bool
  pub unhealthy_containers : ℕ → Option (List Container)
  pub restarting_containers : ℕ → Option (List Container)
  pub exited_containers : ℕ → Option (List Container)
  pub starting_containers : ℕ → Option (List Container)
  pub running_containers : ℕ → Option (List Container)
  pub all_containers : ℕ → Option (List Container)
  pub inspect : Inspect
  pub health_check : Job → Container → HealthCheck
