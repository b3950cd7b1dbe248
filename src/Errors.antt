-- ===== src/Errors.antt =====
-- The error type of the program (src/errors.rs), and the outcome of a computation: a value, an
-- `Err`, or a panic. Errors of other crates are carried as their text.
use cluster_controller.Prelude.{ℕ, String, List, Option, none, some, Bool, true, false}

-- Signed machine integers, as librados returns them.
pub data ℤ : Type 0 where
  pos : ℕ → ℤ
  negsuc : ℕ → ℤ

pub record RadosError : Type 0 where
  pub operation : String
  pub code : ℤ

-- `kube::Error`: the program looks only at the status code of an API error.
pub data KubeError : Type 0 where
  api : ℕ → KubeError
  other : String → KubeError

pub data Error : Type 0 where
  io join_failure tracing_set_global_default open_telemetry_trace : String → Error
  kube : KubeError → Error
  kube_watcher crd_merge no_status_subresource : String → Error
  rados : RadosError → Error
  volumelocked : Error
  libvirt schedule_failed storage_location_parse : String → Error
  ovn_central_nodes_not_found : Error
  ovn_connection : Error → Error
  ovn_not_found : String → String → Error
  ovn_deserialization_failed : Error
  ovn_conflict : String → Error
  json parse_humanize template parse_network : String → Error
  request_send_failed response_send_failed : String → Error
  netns_create_failed netns_open_failed netns_change_failed : String → Error
  command_failed : List String → String → Error
  instance_match_failed : String → Error
  userdata_not_specified : Error
  config_map_not_found : String → Error
  config_map_invalid : String → String → Error
  vni_mapping timeout : String → Error
  cluster_not_found : String → KubeError → Error
  unexpected_exit not_implemented : String → Error

pub data Outcome (A : Type 0) : Type 0 where
  ok : A → Outcome A
  err : Error → Outcome A
  panic : Outcome A

infixl 5 ◌>>=◌
abbrev pub ◌>>=◌ : {A B : Type 0} → Outcome A → (A → Outcome B) → Outcome B
ok a >>= f = f a
err e >>= f = err e
panic >>= f = panic

module _ {A : Type 0} where
  -- `Option::ok_or`
  abbrev pub ok_or : Option A → Error → Outcome A
  ok_or none e = err e
  ok_or (some a) e = ok a

  -- `Option::unwrap` and `Option::expect`
  abbrev pub expect : Option A → Outcome A
  expect none = panic
  expect (some a) = ok a

  -- `Result::or_else(|_| Ok(d))`
  abbrev pub or_default : Outcome A → A → Outcome A
  or_default (ok a) d = ok a
  or_default (err e) d = ok d
  or_default panic d = panic

  -- `Result::is_ok`, for a computation that has not panicked
  abbrev pub is_ok : Outcome A → Bool
  is_ok (ok a) = true
  is_ok _ = false

-- `assert!` and `assert_eq!`
abbrev pub assert : Bool → Outcome (Unit {0})
assert true = ok tt
assert false = panic

-- `iter().map(f).collect::<Result<Vec<_>, _>>()`: left to right, up to the first failure.
abbrev pub collect {ℓ} : {A : Type ℓ} {B : Type 0} → (A → Outcome B) → List A → Outcome (List B)
collect f List.[] = ok List.[]
collect f (List.◌∷◌ x xs) = f x >>= λ y. collect f xs >>= λ ys. ok (List.◌∷◌ y ys)
