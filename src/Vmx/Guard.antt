-- ===== src/Vmx/Guard.antt =====
-- A vcpu that enters the guest in `vmx_launch` (vmx.c) while another CPU's `ept_flush_remote_tlbs` (ept.c) asks
-- it to flush: each access to the shared fields is one step, in any order that the two threads allow. What a
-- processor stores waits in its store buffer, as on x86, and is seen by the other thread when it drains. The
-- flushing thread has its CPU mask, and the vcpu is on another CPU.
use slimvm.Base.{◌≡◌, Bool, true, false, not, ◌||◌, List, [], ◌∷◌, ◌++◌}
use slimvm.State.{Vcpu, Mode, outside_guest_mode, in_guest_mode}
use slimvm.Ept.Flush.{vmx_make_request_flush, vmx_vcpu_exiting_guest_mode, is_outside_guest}
use slimvm.Vmx.Requests.{vmx_set_vcpu_mode, vmx_check_request_flush, may_enter}

-- Where the vcpu's thread is in the loop of `vmx_launch`: before the requests are processed, between the test
-- of the flush request and `ept_sync_context`, after it, with the mode set and interrupts disabled, and
-- in the guest.
pub data Place : Type 0 where
  outside syncing ready entering inside : Place

abbrev pub interrupts_on : Place → Bool
interrupts_on entering = false
interrupts_on inside = false
interrupts_on _ = true

-- `vcpu` is what the memory holds, and `stores` what the vcpu's CPU has stored into `mode` and the memory does not
-- have yet, the oldest first. `remote` says that the flushing thread has made its request and not yet looked at
-- the mode, `ipi` that an interrupt is on its way to the vcpu's CPU, and `stale` that a flush has been asked
-- for, after a change of the page table, since the CPU's TLB was last flushed.
pub record System : Type 0 where
  pub vcpu : Vcpu
  pub stores : List Mode
  pub place : Place
  pub remote : Bool
  pub ipi : Bool
  pub stale : Bool

abbrev pub last_or : Mode → List Mode → Mode
last_or m [] = m
last_or m (x ∷ xs) = last_or x xs

-- The vcpu as its own CPU reads it.
abbrev pub own : System → Vcpu
own s = record s.vcpu { mode = last_or s.vcpu.mode s.stores }

-- `vmx_set_vcpu_mode` on the vcpu's CPU.
abbrev pub store_mode : System → Mode → System
store_mode s m = record s { stores = s.stores ++ ((vmx_set_vcpu_mode s.vcpu m).mode ∷ []) }

-- `fenced` says whether a full barrier stands after the store of the mode, before the requests are read. The
-- `smp_wmb` of `vmx_set_vcpu_mode` is none on x86.
pub data Step (fenced : Bool) (s : System) : System → Type 0 where
  -- `vmx_process_vcpu_requests`: the request is taken, then the TLB is flushed.
  take :
      s.place ≡ outside
      → (vmx_check_request_flush s.vcpu).0 ≡ true
      → Step fenced s (record s { vcpu = (vmx_check_request_flush s.vcpu).1; place = syncing })
  sync : s.place ≡ syncing → Step fenced s (record s { place = ready; stale = false })
  pass :
      s.place ≡ outside
      → (vmx_check_request_flush s.vcpu).0 ≡ false
      → Step fenced s (record s { place = ready })
  set_mode :
      s.place ≡ ready → Step fenced s (record (store_mode s in_guest_mode) { place = entering })
  -- The tests of `vmx_launch` and the entry into the guest.
  run :
      s.place ≡ entering
      → (fenced ≡ true → s.stores ≡ [])
      → may_enter false (own s) ≡ true
      → Step fenced s (record s { place = inside })
  -- Also where the thread is to be rescheduled.
  back :
      s.place ≡ entering
      → Step fenced s (record (store_mode s outside_guest_mode) { place = outside })
  exit :
      s.place ≡ inside
      → Step fenced s (record (store_mode s outside_guest_mode) { place = outside })
  -- The oldest store reaches the memory.
  drain :
      (m : Mode) (rest : List Mode)
      → s.stores ≡ m ∷ rest
      → Step fenced s (record s { vcpu = vmx_set_vcpu_mode s.vcpu m; stores = rest })
  -- An interrupt that arrives with interrupts enabled does nothing. In the guest it is an `exit`, after which it
  -- is delivered.
  deliver : interrupts_on s.place ≡ true → Step fenced s (record s { ipi = false })
  -- The flushing thread, after it changed the page table. Its accesses are locked, so that they are in order.
  make_request :
      s.remote ≡ false
      → Step fenced s
          (record s { vcpu = vmx_make_request_flush s.vcpu; remote = true; stale = true })
  exchange :
      s.remote ≡ true
      → Step fenced s (record s {
        vcpu = (vmx_vcpu_exiting_guest_mode s.vcpu).1;
        remote = false;
        ipi = s.ipi || not (is_outside_guest (vmx_vcpu_exiting_guest_mode s.vcpu).0);
      })

pub data Steps (fenced : Bool) (s : System) : System → Type 0 where
  start : {t : System} → t ≡ s → Steps fenced s t
  also : {t u : System} → Steps fenced s t → Step fenced t u → Steps fenced s u
