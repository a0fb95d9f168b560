-- ===== src/Registry/Reclaim.antt =====
-- `slimvm_reclaim_leaked_instances` of instance.c, and the counts that it prints. `task_of` gives the task
-- of a process id, `weight` is the kernel's `__bitmap_weight`.
use slimvm.Base.{
  ℕ, ◌+◌, ◌%◌, ◌^◌, Bool, true, false, not, ◌||◌, if◌then◌else◌, ◌==◌, Option, none, some, List, [],
  ◌∷◌, update,
}
use slimvm.State.{Instance, vm_max_vcpus}
use slimvm.Registry.{Registry, instances_max_num}

-- The action on every listed instance, in the list's order; `action` gives the instance after it.
unfoldable pub on_each_vm_instance :
    (Instance → Instance) → List ℕ → (ℕ → Option Instance) → ℕ → Option Instance
on_each_vm_instance action [] heap = heap
on_each_vm_instance action (p ∷ ps) heap = elim (heap p) [
  | none ↦ on_each_vm_instance action ps heap
  | some instp ↦ on_each_vm_instance action ps (update heap p (some (action instp)))
]

unfoldable pub instance_get_vm_num : ((ℕ → Bool) → ℕ → ℕ) → Registry → ℕ
instance_get_vm_num weight st = weight st.instances_bitmap instances_max_num

unfoldable pub vcpu_num_from : ((ℕ → Bool) → ℕ → ℕ) → (ℕ → Option Instance) → List ℕ → ℕ → ℕ
vcpu_num_from weight heap [] num = num
vcpu_num_from weight heap (p ∷ ps) num = elim (heap p) [
  | none ↦ vcpu_num_from weight heap ps num
  | some instp ↦ vcpu_num_from weight heap ps (num + weight instp.vcpu_bitmap vm_max_vcpus)
]

unfoldable pub instance_get_vcpu_num : ((ℕ → Bool) → ℕ → ℕ) → Registry → ℕ
unfolding vcpu_num_from
instance_get_vcpu_num weight st = vcpu_num_from weight st.heap st.instances_list 0

-- The comparison of a task that may be missing with one that is there.
abbrev pub same_task : Option ℕ → ℕ → Bool
same_task none t = false
same_task (some s) t = s == t

abbrev pub is_exited : (ℕ → Option ℕ) → Option ℕ → ℕ → Bool → Bool
is_exited task_of none pid forced = false
is_exited task_of (some tsk) pid forced =
    if pid == 0 then false else not (same_task (task_of pid) tsk || forced)

-- The tests that do not lead to `continue`.
unfoldable pub is_leaked : (ℕ → Option ℕ) → Instance → Bool
is_leaked task_of instp = is_exited task_of instp.sandbox_tsk instp.sandbox_pid instp.force_release

-- What the loop does to one instance.
unfoldable pub mark_leaked : (ℕ → Option ℕ) → Instance → Instance
unfolding is_leaked
mark_leaked task_of instp =
    if is_leaked task_of instp then record instp { force_release = true } else instp

abbrev pub mark_at :
    (ℕ → Option ℕ) → ℕ → Option Instance → (ℕ → Option Instance) → ℕ → Option Instance
mark_at task_of p none heap = heap
mark_at task_of p (some instp) heap = update heap p (some (mark_leaked task_of instp))

abbrev pub leaks : (ℕ → Option ℕ) → Option Instance → Bool
leaks task_of none = false
leaks task_of (some instp) = is_leaked task_of instp

-- The loop under `instances_lock`: the instances after it, and the list to reclaim, the last first.
unfoldable pub mark_loop :
    (ℕ → Option ℕ) → List ℕ → (ℕ → Option Instance) × List ℕ → (ℕ → Option Instance) × List ℕ
unfolding mark_leaked is_leaked
mark_loop task_of [] st = st
mark_loop task_of (p ∷ ps) (heap, reclaim_list) = mark_loop task_of ps (
  mark_at task_of p (heap p) heap,
  (if leaks task_of (heap p) then p ∷ reclaim_list else reclaim_list),
)

-- How often the file of each instance to reclaim is put, in order; `refcount` is an `unsigned int`.
abbrev pub running_of : Option Instance → ℕ
running_of none = 0
running_of (some instp) = instp.running_vcpus % 2 ^ 32

abbrev pub fputs : (ℕ → Option Instance) → List ℕ → List (ℕ × ℕ)
fputs heap [] = []
fputs heap (p ∷ ps) = (p, running_of (heap p)) ∷ fputs heap ps

unfoldable pub slimvm_reclaim_leaked_instances : (ℕ → Option ℕ) → Registry → Registry × List (ℕ × ℕ)
unfolding mark_loop
slimvm_reclaim_leaked_instances task_of st =
    let (heap, reclaim_list) = mark_loop task_of st.instances_list (st.heap, []) in
    (record st { heap = heap }, fputs heap reclaim_list)
