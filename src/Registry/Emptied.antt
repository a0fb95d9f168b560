-- ===== src/Registry/Emptied.antt =====
-- What the loop of `instance_release` over the vcpus leaves (instance.c).
use slimvm.Base.{
  ℕ, zero, suc, ◌+◌, ◌≤◌, ◌<◌, ◌≡◌, ◌≢◌, inl, inr, refl, ◌∙◌, ap, none, List, arith, Bool-cases,
  Option-cases, ◌==◌, ==→eq,
}
use slimvm.State.{vm_max_vcpus, Instance, Vcpu}
use slimvm.VcpuTable.{vcpu_release}
use slimvm.VcpuTable.Alloc.{IsMarked}
use slimvm.Registry.{release_round, release_vcpus}

round_self :
    (i : ℕ) (st : Instance × List Vcpu) → IsMarked st.0 → (release_round i st).0.vcpus i ≡ none
unfolding release_round vcpu_release
round_self i (instp, ds) marked = elim (Option-cases (instp.vcpus i)) [
  | inl e ↦ ground arith
  | inr (v, e) ↦ let b = marked i (rw e refl) in ground arith
]

round_other :
    (i : ℕ) (st : Instance × List Vcpu) (j : ℕ)
    → j ≢ i
    → (release_round i st).0.vcpus j ≡ st.0.vcpus j
unfolding release_round vcpu_release
round_other i (instp, ds) j n = ground arith

round-IsMarked :
    (i : ℕ) (st : Instance × List Vcpu) → IsMarked st.0 → IsMarked (release_round i st).0
unfolding release_round vcpu_release
round-IsMarked i (instp, ds) marked j h = let m = marked j in ground arith

passed :
    (k i : ℕ) (st : Instance × List Vcpu) (j : ℕ)
    → j < i
    → (release_vcpus k i st).0.vcpus j ≡ st.0.vcpus j
unfolding release_vcpus
passed zero i st j lt = refl
passed (suc k) i st j lt =
    passed k (i + 1) (release_round i st) j (omega arith) ∙ round_other i st j (λ e. omega arith)

reached :
    (k i : ℕ) (st : Instance × List Vcpu) (j : ℕ)
    → IsMarked st.0
    → i ≤ j
    → j < i + k
    → (release_vcpus k i st).0.vcpus j ≡ none
unfolding release_vcpus
reached zero i st j marked lo hi = absurd (omega arith)
reached (suc k) i st j marked lo hi = elim (Bool-cases (j == i)) [
  | inl s ↦
      let same = ==→eq j i s in
      passed k (i + 1) (release_round i st) j (omega arith)
      ∙ ap (release_round i st).0.vcpus same
      ∙ round_self i st marked
  | inr s ↦
      reached k (i + 1) (release_round i st) j (round-IsMarked i st marked) (ground arith)
        (omega arith)
]

-- The loop of `instance_release` leaves no vcpu under any number below `VM_MAX_VCPUS`, where every vcpu in
-- the table had its bit set.
pub release_vcpus_empty :
    (instp : Instance) (destroyed : List Vcpu) (j : ℕ)
    → IsMarked instp
    → j < vm_max_vcpus
    → (release_vcpus vm_max_vcpus 0 (instp, destroyed)).0.vcpus j ≡ none
release_vcpus_empty instp destroyed j marked lt =
    reached vm_max_vcpus 0 (instp, destroyed) j marked (omega arith) (omega arith)
