-- ===== src/Ept/Flush/Fields.antt =====
-- The flush of remote TLBs changes only vcpus and the count of interrupts.
use slimvm.Base.{ℕ, zero, suc, ◌+◌, ◌≡◌, refl, ◌∙◌, Bool, true, false, Option, none, some, List, []}
use slimvm.State.{vm_max_vcpus, vm_max_vcpus, Instance, Vcpu}
use slimvm.Ept.Flush.{Cpu, add_ipi, flush_round, flush_loop, flush_vcpu, ept_flush_remote_tlbs}

-- What of an instance the page tables and the notifier depend on.
abbrev pub tables_of : Instance → ℕ × ℕ × ℕ
tables_of instp = (instp.ept_root, instp.mmu_notifier_seq, instp.mmu_notifier_count)

add_ipi-tables :
    (o : Option ℕ) (instp : Instance) (cpus : List ℕ)
    → tables_of (add_ipi o (instp, cpus)).0 ≡ tables_of instp
add_ipi-tables none instp cpus = refl
add_ipi-tables (some c) instp cpus = refl

flush_round-tables :
    (cpu : Cpu) (b : Bool) (o : Option Vcpu) (i : ℕ) (instp : Instance) (cpus : List ℕ)
    → tables_of (flush_round cpu b o i (instp, cpus)).0 ≡ tables_of instp
unfolding flush_round
flush_round-tables cpu true (some v) i instp cpus = add_ipi-tables (flush_vcpu cpu v).1 _ cpus
flush_round-tables cpu true none i instp cpus = refl
flush_round-tables cpu false o i instp cpus = refl

pub flush_loop-tables :
    (cpu : Cpu) (k i : ℕ) (instp : Instance) (cpus : List ℕ)
    → tables_of (flush_loop cpu k i (instp, cpus)).0 ≡ tables_of instp
unfolding flush_loop
flush_loop-tables cpu zero i instp cpus = refl
flush_loop-tables cpu (suc k) i instp cpus =
    let (instp', cpus') = flush_round cpu (instp.vcpu_bitmap i) (instp.vcpus i) i (instp, cpus) in
    flush_loop-tables cpu k (i + 1) instp' cpus'
    ∙ flush_round-tables cpu (instp.vcpu_bitmap i) (instp.vcpus i) i instp cpus

pub flush-tables :
    (cpu : Cpu) (instp : Instance) → tables_of (ept_flush_remote_tlbs cpu instp).0 ≡ tables_of instp
unfolding ept_flush_remote_tlbs
flush-tables cpu instp = flush_loop-tables cpu vm_max_vcpus 0 instp []
