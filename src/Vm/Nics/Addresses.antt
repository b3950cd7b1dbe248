-- ===== src/Vm/Nics/Addresses.antt =====
-- The MAC addresses of a machine's interfaces.
use mathlib.Core.Path.{subst}
use cluster_controller.Prelude.{
  ℕ, ◌%◌, String, ◌≡◌, inl, inr, refl, sym, true, Option, none, some, [], ◌∷◌, if◌then◌else◌,
  is_some, map_option, Bool-cases, Option-cases,
}
use cluster_controller.Errors.{ok}
use cluster_controller.Crd.{NetworkAttachment}
use cluster_controller.World.{Env, World}
use cluster_controller.World.Monad.Inversion.{lift-eq-ok, ok-injective}
use cluster_controller.Vm.Nics.{fill_mac, mac_text, target, generate_mac_address}

-- The MAC address of a completed interface: the one in the specification, else the one in the
-- status, else the one made of the digest of the machine's name, the network and the index.
abbrev pub mac_of : Env → String → ℕ → NetworkAttachment → NetworkAttachment → Option String
mac_of env vm_name index nic_spec nic_status =
    if is_some nic_spec.mac_address
    then nic_spec.mac_address
    else if is_some nic_status.mac_address
    then nic_status.mac_address
    else map_option
        (λ name. mac_text (env.libraries.sha256_tail (vm_name ∷ name ∷ []) (index % 256 ∷ [])))
        (target nic_spec)

is_some-get : {A : Type 0} (o : Option A) → is_some o ≡ true → (a : A) × (o ≡ some a)
is_some-get none h = absurd (let no_value : ⊥ = cc h in no_value)
is_some-get (some a) h = (a, refl)

-- Wherever the MAC address of an interface is completed, it has one afterwards: an address in the
-- specification wins over the one in the status, which is kept otherwise; a new one depends only
-- on the machine, the network and the index, so that it is the same each time. Nothing else of
-- the interface changes and nothing leaves the process.
pub fill_mac_lem :
    (vm_name : String) (index : ℕ) (nic_spec nic_status : NetworkAttachment) (env : Env) (w : World)
    {nic : NetworkAttachment} {w' : World}
    → fill_mac vm_name index nic_spec nic_status env w ≡ (ok nic, w')
    → (nic ≡ record nic_status { mac_address = mac_of env vm_name index nic_spec nic_status })
      × (is_some nic.mac_address ≡ true)
      × (w' ≡ w)
unfolding fill_mac generate_mac_address
fill_mac_lem vm_name index nic_spec nic_status env w {nic} e =
    elim (Bool-cases (is_some nic_spec.mac_address)) [
      | inl h ↦
          let (p, q) = lift-eq-ok (rw h at e) in
          (
            rw h (sym (ok-injective p)),
            subst (λ (n : NetworkAttachment). is_some n.mac_address ≡ true) (ok-injective p) h,
            sym q,
          )
      | inr h ↦ elim (Bool-cases (is_some nic_status.mac_address)) [
        | inl k ↦
            let (p, q) = lift-eq-ok (rw (h, k) at e) in
            (
              rw (h, k) (sym (ok-injective p)),
              subst (λ (n : NetworkAttachment). is_some n.mac_address ≡ true) (ok-injective p) k,
              sym q,
            )
        | inr k ↦ elim (Option-cases (target nic_spec)) [
          | inl t ↦ absurd (let no_value : ⊥ = cc (lift-eq-ok (rw (h, k, t) at e)).0 in no_value)
          | inr (name, t) ↦
              let (p, q) = lift-eq-ok (rw (h, k, t) at e) in
              (
                rw (h, k, t) (sym (ok-injective p)),
                subst (λ (n : NetworkAttachment). is_some n.mac_address ≡ true) (ok-injective p)
                    refl,
                sym q,
              )
        ]
      ]
    ]
