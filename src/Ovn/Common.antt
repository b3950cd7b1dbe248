-- ===== src/Ovn/Common.antt =====
-- src/interfaces/ovn/common.rs: what the OVN types share. The traits are records of operations,
-- taken as instances.
pub mod Lookup
use cluster_controller.Prelude.{
  ℕ, String, Bool, true, false, Option, none, some, List, [], ◌∷◌, ◌==◌, if◌then◌else◌, find,
}
use cluster_controller.Errors.{Outcome, ok, err, panic, Error, ok_or, collect, ovn_not_found}
use cluster_controller.Json.{Value, str}
use cluster_controller.World.{Ovn, Event, Env, World, M, ◌>>=◌, ◌>>◌, lift, pure, fail, try}
use cluster_controller.Ovn.Lowlevel.{list_objects, insert_object, delete_by_uuid}

pub record OvnCommon (A : Type 0) : Type 0 where
  pub uuid : A → String
  pub ovn : A → Ovn
  pub ovn_type : String
  pub deserialize : Ovn → Value → Outcome A

pub record OvnNamed (A : Type 0) : Type 0 where
  pub common : OvnCommon A
  pub name : A → String

instance abbrev pub named_common : {A : Type 0} ⦃n : OvnNamed A⦄ → OvnCommon A
named_common ⦃n⦄ = n.common

-- `match found { Ok(x) => Ok(x), Err(OvnNotFound(..)) => make, Err(e) => Err(e) }`
abbrev pub or_create : {A : Type 0} → M A → Outcome A → M A
or_create make (ok a) = pure a
or_create make (err (ovn_not_found kind name)) = make
or_create make (err e) = fail e
or_create make panic = lift panic

module _ {A : Type 0} ⦃c : OvnCommon A⦄ where
  -- `OvnGetters::list`
  unfoldable pub list : Ovn → M (List A)
  list o = list_objects o c.ovn_type >>= λ rows. lift (collect (c.deserialize o) rows)

module _ {A : Type 0} ⦃n : OvnNamed A⦄ where
  -- `OvnNamedGetters::get_by_name`
  unfoldable pub get_by_name : Ovn → String → M A
  get_by_name o wanted = list ⦃c = n.common⦄ o >>= λ all.
      lift (ok_or (find (λ x. n.name x == wanted) all) (ovn_not_found n.common.ovn_type wanted))

  -- `OvnBasicActions`
  unfoldable pub create : Ovn → String → M A
  create o wanted =
      insert_object o n.common.ovn_type (("name", str wanted) ∷ []) >> get_by_name o wanted

  unfoldable pub create_if_missing : Ovn → String → M A
  create_if_missing o wanted = try (get_by_name o wanted) >>= or_create (create o wanted)

  unfoldable pub delete : A → M (Unit {0})
  delete x = delete_by_uuid (n.common.ovn x) n.common.ovn_type (n.common.uuid x)
