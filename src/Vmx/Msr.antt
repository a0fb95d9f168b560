-- ===== src/Vmx/Msr.antt =====
-- The model-specific registers that the guest reads and writes by exits (vmx.c). The vcpu keeps them in an
-- array `guest_msrs` of `nmsrs` entries, here a list.
use slimvm.Base.{
  ℕ, ◌+◌, ◌*◌, ◌/◌, ◌%◌, ◌^◌, ◌≡◌, ◌≢◌, refl, Bool, true, false, Option, none, some, List, [], ◌∷◌,
  arith, if◌then◌else◌, ◌==◌, update, is_some,
}
use slimvm.Seccomp.{rax, rdx}

-- `struct msr_entry`
pub record MsrEntry : Type 0 where
  pub index : ℕ
  pub data_ : ℕ

abbrev pub rcx : ℕ
rcx = 1

abbrev pub msr_cstar : ℕ
msr_cstar = 0xc0000083

-- `find_msr_entry`, with `__find_msr_index`: the first entry with the index.
unfoldable pub find_msr_entry : List MsrEntry → ℕ → Option MsrEntry
find_msr_entry [] msr = none
find_msr_entry (e ∷ es) msr =
    let rest = find_msr_entry es msr in if e.index == msr then some e else rest

-- `msr->data = data` for the entry that `find_msr_entry` gives.
unfoldable pub set_msr_entry : List MsrEntry → ℕ → ℕ → List MsrEntry
set_msr_entry [] msr v = []
set_msr_entry (e ∷ es) msr v =
    let rest = set_msr_entry es msr v in
    if e.index == msr then record e { data_ = v } ∷ es else e ∷ rest

abbrev pub low32 : ℕ → ℕ
low32 x = x % 2 ^ 32

abbrev pub read_into : (ℕ → ℕ) → Option MsrEntry → Bool × (ℕ → ℕ)
read_into regs none = (false, regs)
read_into regs (some e) = (true, update (update regs rax (low32 e.data_)) rdx (e.data_ / 2 ^ 32))

-- Whether it returns 0, and the registers.
unfoldable pub vmx_handle_msr_read : List MsrEntry → (ℕ → ℕ) → Bool × (ℕ → ℕ)
unfolding find_msr_entry
vmx_handle_msr_read msrs regs = read_into regs (find_msr_entry msrs (low32 (regs rcx)))

-- Whether it returns 0, and the entries.
unfoldable pub vmx_handle_msr_write : List MsrEntry → (ℕ → ℕ) → Bool × List MsrEntry
unfolding find_msr_entry set_msr_entry
vmx_handle_msr_write msrs regs =
    let msr_addr = low32 (regs rcx) in
    let msr_data = low32 (regs rax) + low32 (regs rdx) * 2 ^ 32 in
    if is_some (find_msr_entry msrs msr_addr)
    then (true, set_msr_entry msrs msr_addr msr_data)
    else if msr_addr == msr_cstar
    then (true, msrs)
    else (false, msrs)

find_msr_entry-set_msr_entry :
    (es : List MsrEntry) (msr v : ℕ) (e : MsrEntry)
    → find_msr_entry es msr ≡ some e
    → find_msr_entry (set_msr_entry es msr v) msr ≡ some (record e { data_ = v })
unfolding find_msr_entry set_msr_entry
find_msr_entry-set_msr_entry [] msr v e h = absurd (cc h)
find_msr_entry-set_msr_entry (x ∷ es) msr v e h =
    ground (arith, find_msr_entry-set_msr_entry es msr v e)

find_msr_entry-other :
    (es : List MsrEntry) (msr other v : ℕ)
    → other ≢ msr
    → find_msr_entry (set_msr_entry es msr v) other ≡ find_msr_entry es other
unfolding find_msr_entry set_msr_entry
find_msr_entry-other [] msr other v n = refl
find_msr_entry-other (x ∷ es) msr other v n = ground (arith, find_msr_entry-other es msr other v n)

-- What a write of a register that the vcpu keeps leaves: a read of it gives the two halves that were written,
-- and a read of any other register what it gave before.
pub record ReadsBack (msrs msrs' : List MsrEntry) (written : ℕ → ℕ) : Type 0 where
  pub same :
      (regs : ℕ → ℕ)
      → low32 (regs rcx) ≡ low32 (written rcx)
      → ((vmx_handle_msr_read msrs' regs).0 ≡ true)
        × ((vmx_handle_msr_read msrs' regs).1 rax ≡ low32 (written rax))
        × ((vmx_handle_msr_read msrs' regs).1 rdx ≡ low32 (written rdx))
  pub other :
      (regs : ℕ → ℕ)
      → low32 (regs rcx) ≢ low32 (written rcx)
      → vmx_handle_msr_read msrs' regs ≡ vmx_handle_msr_read msrs regs

-- A write of a register of the array succeeds. A later read of it gives what was written, in the lower halves of
-- `RAX` and `RDX`, and a read of another register what it gave before.
pub vmx_handle_msr_read-vmx_handle_msr_write :
    (msrs : List MsrEntry) (written : ℕ → ℕ) (e : MsrEntry)
    → find_msr_entry msrs (low32 (written rcx)) ≡ some e
    → ((vmx_handle_msr_write msrs written).0 ≡ true)
      × ReadsBack msrs (vmx_handle_msr_write msrs written).1 written
unfolding vmx_handle_msr_read vmx_handle_msr_write
vmx_handle_msr_read-vmx_handle_msr_write msrs written e h = rw h (
  refl,
  record {
    same = λ regs s.
        let f =
          find_msr_entry-set_msr_entry msrs (low32 (written rcx))
            (low32 (written rax) + low32 (written rdx) * 2 ^ 32) e h in
        rw (s, f) (refl, omega arith, omega arith);
    other = λ regs n. rw (find_msr_entry-other msrs (low32 (written rcx)) (low32 (regs rcx)) _ n);
  },
)
