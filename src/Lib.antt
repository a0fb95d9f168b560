-- ===== src/Lib.antt =====
-- SlimVM is a Linux kernel module that runs sandbox processes in virtual machines: a device file takes
-- requests, an instance is one machine with its vcpus and memory regions, and an engine (VMX with EPT, SVM
-- with NPT) keeps the second-level page table in step with the process's own page table. This library models
-- the parts below and proves what makes each of them correct.
--
-- The files, and the code that they model:
-- - State: `struct instance`, `struct mem_region` and of a vcpu the fields that other parts use (instance.h,
--   mm.h, engine.h). Vm adds the memory of the page tables and what is done to the pages of the host; the
--   host's memory management is a record of answers.
-- - Engine: `struct slimvm_engine_ops` of engine.h, the interface between the shared code and an engine, as a
--   record of functions.
-- - Mm (mm.c): `check_mem_region`, `hva_to_gpa` and `gpa_to_hva`, with one definition for a loop and one for
--   the test of a region. Mm.Check and Mm.Translate prove what they do.
-- - Paging: four-level page tables in memory, the walk of `ept_lookup_gpa` and `npt_lookup_gpa` over any
--   entry format. Paging.Hardware is the processor's walk, written from the architecture; Paging.Tree the
--   invariant that the tables form a tree; the other children prove that a walk and a write keep it, and what
--   they map.
-- - Ept (ept.c): Entry has the bits of an entry, Lookup the operations on one entry, Flush the flush of the
--   other CPUs' TLBs, Fault the fault path, Notifier the MMU notifier. Map, Invalidate, Race, Counters,
--   Rounds and Stale prove what they do, and Flush.Requested what a flush does.
-- - Npt (npt.c): the same division, Entry with the encryption mask of the kernel, Lookup, Fault and Notifier.
--   Map, Live, Flags, Violation (which proves Answered), Invalidate, Rounds, Destroyed and Users prove what
--   they do. Functions that npt.c shares by text with ept.c have a definition in each; the loop of the TLB
--   flush is that of Ept.Flush.
-- - Vmx (vmx.c, vmx.h): Requests has the requests and modes of a vcpu, Guard the steps of a vcpu's entry into
--   the guest against a flush, with the store buffer of its CPU, Missed when a flush can be missed, Create
--   what a vcpu takes and gives back, Shutdown the end of an instance, Stop what it leaves, Syscall, Msr and
--   Xsetbv the handlers of those exits, and Exit the switch over the exits; Created and Dispatch prove what
--   creation and the switch do, the latter as Settled says.
-- - Svm (svm.c, svm.h): Asid has the identifiers by which a processor tags cached translations, with the
--   steps of vcpus on CPUs, Msrpm and Direct the permission map of the model-specific registers, Events what
--   is injected into the guest, Injected what becomes of it, Msr the exits of those registers, and Exit the
--   switch over the exits. Allotted, Entered and Isolated prove what the identifiers do, and Dispatch what
--   the switch does, as Settled says. Where svm.c repeats a function of vmx.c the definition is that of Vmx.
--   Enable switches SVM on and off on all CPUs, and Undone and Enabled prove what its error paths leave.
-- - VcpuTable (vcpu.c): each function by its own name; Interleaving makes each section under `vcpu_lock` one
--   step of several threads.
-- - Registry (instance.c): the table of all instances, with the memory of the instances as a partial function
--   of the address, so that a pointer to freed memory is one with no instance.
-- - Registry.Reclaim: the release of leaked instances (instance.c); Marked and Reclaimed prove which they
--   are.
-- - Init (core.c): loading and unloading the module, with the error paths.
-- - Device (core.c): `slimvm_enter` and the requests of `slimvm_dev_ioctl`, which call the parts above.
-- - Seccomp (seccomp.c): `do_seccomp_filter`.
-- - Base: shared types, tests on numbers, lists, words; Tests: runs at concrete values.
--
-- How the parts interact: Device calls VcpuTable, Mm and the engine's functions; Registry calls VcpuTable and
-- the engine; Ept and Npt translate addresses by Mm and mark vcpus of the instance; Vmx and Svm call Seccomp
-- and Ept or Npt for an exit.
--
-- Numbers are natural numbers with the wrap-around of 64-bit words written out. A frame number names a page
-- of a table; `|` of disjoint bits is a sum. A loop over the regions of an instance or the bits of a bitmap
-- is structural recursion; the loops of the MMU notifier run on fuel, one round more than the range has pages
-- (Ept.Rounds and Npt.Rounds show that it is enough for the loops over pages). The walk has four levels, and
-- its recursion is on the level.
--
-- Locks: what one lock protects is one step, and where a lock is released in between, the steps of other
-- threads come between (Ept.Race, VcpuTable.Interleaving, and in Npt.Notifier the parameter `resched`).
-- Memory barriers and the ordering of single stores are modelled in Vmx.Guard only, by the store buffer of
-- the vcpu's CPU.
--
-- Parameters, with what is assumed of them as hypotheses: the page allocator (its free frames), the bitmap
-- search of the kernel, user memory, the answers of get_user_pages and find_vma, the encryption mask and the
-- bits of cache modes, seccomp programs, the host's system calls, and the functions of the engine's table.
-- The handling of debug exceptions (exception.c) is a parameter of Vmx.Exit.
--
-- Not modelled: the set-up of the VMCS and the VMCB, the assembly of the guest's entry and the exceptions,
-- which are hardware access for the most part; the loops of `vmx_launch` and `svm_launch` around the steps
-- that are modelled; the creation of vcpus in svm.c; switching VMX on and off; the release of the page tables
-- in ept.c and npt.c; proc.c, which registers sysctl entries and prints.
pub mod Base
pub mod State
pub mod Mm
pub mod Paging
pub mod Vm
pub mod Engine
pub mod VcpuTable
pub mod Registry
pub mod Device
pub mod Ept
pub mod Npt
pub mod Vmx
pub mod Svm
pub mod Seccomp
pub mod Init
pub mod Tests
