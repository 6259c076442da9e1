-- ===== src/Pipelines/Declared.antt =====
-- A pipeline's declaration (Pipeline, Transform, Service, Spout and SecretMount of
-- client/client.go). A float64 is its 64 bits.
use sandman.Prelude.{Bytes, ℕ, Bool, Option, List}
use sandman.Prelude.Decimal.{Signed}
use sandman.Prelude.Map.{Map}
use sandman.Pipelines.Inputs.{Input}

pub record SecretMount : Type 0 where
  pub name : Bytes
  pub key : Bytes
  pub mount_path : Bytes
  pub env_var : Bytes

pub record Resources : Type 0 where
  pub memory : Bytes
  pub cpu : ℕ
  pub disk : Bytes
  pub gpu : Signed

pub record Transform : Type 0 where
  pub image : Bytes
  pub cmd : List Bytes
  pub stdin : List Bytes
  pub err_cmd : List Bytes
  pub err_stdin : List Bytes
  pub env : Map Bytes
  pub user : Bytes
  pub workdir : Bytes
  pub accept_return_code : Signed
  pub datum_tries : Signed
  pub datum_timeout : Bytes
  pub job_timeout : Bytes
  pub pod_spec : Bytes
  pub pod_patch : Bytes
  pub secrets : List SecretMount
  pub resource_requests : Option Resources
  pub resource_limits : Option (Bytes × ℕ)

pub record Parallelism : Type 0 where
  pub constant : Signed
  pub coefficient : ℕ

pub record Service : Type 0 where
  pub internal_port : Signed
  pub external_port : Signed
  pub annotations : Map Bytes

pub record Spout : Type 0 where
  pub overwrite : Bool
  pub marker : Bytes

pub record Pipeline : Type 0 where
  pub name : Bytes
  pub description : Bytes
  pub transform : Option Transform
  pub input : Option Input
  pub parallelism : Option Parallelism
  pub chunk_spec : Option (Signed × Signed)
  pub max_queue_size : Signed
  pub autoscaling : Bool
  pub standby : Bool
  pub output_branch : Bytes
  pub update : Bool
  pub reprocess : Bool
  pub enable_stats : Bool
  pub placement : Bytes
  pub framework : Bytes
  pub spout : Option Spout
  pub service : Option Service
  pub egress : Option Bytes
