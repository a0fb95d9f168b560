-- ===== src/Svm/Msr.antt =====
-- The model-specific registers that the guest reads and writes by exits of SVM (svm.c): five fields of the VMCB.
use slimvm.Base.{
  ℕ, ◌+◌, ◌*◌, ◌/◌, ◌^◌, ◌≡◌, Bool, true, false, Option, none, some, arith, if◌then◌else◌, ◌==◌,
  update,
}
use slimvm.Seccomp.{rax, rdx}
use slimvm.Vmx.Msr.{rcx, low32, msr_cstar}

-- Of `struct vmcb_save_area`
pub record Save : Type 0 where
  pub star : ℕ
  pub lstar : ℕ
  pub cstar : ℕ
  pub sfmask : ℕ
  pub kernel_gs_base : ℕ

abbrev pub msr_star : ℕ
msr_star = 0xc0000081

abbrev pub msr_lstar : ℕ
msr_lstar = 0xc0000082

abbrev pub msr_syscall_mask : ℕ
msr_syscall_mask = 0xc0000084

abbrev pub msr_kernel_gs_base : ℕ
msr_kernel_gs_base = 0xc0000102

-- The switch of `svm_handle_msr_read`
unfoldable pub read_save : Save → ℕ → Option ℕ
read_save s msr_addr =
    if msr_addr == msr_star
    then some s.star
    else if msr_addr == msr_lstar
    then some s.lstar
    else if msr_addr == msr_cstar
    then some s.cstar
    else if msr_addr == msr_kernel_gs_base
    then some s.kernel_gs_base
    else if msr_addr == msr_syscall_mask
    then some s.sfmask
    else none

-- The switch of `svm_handle_msr_write`
unfoldable pub write_save : Save → ℕ → ℕ → Option Save
write_save s msr_addr msr_data =
    if msr_addr == msr_star
    then some (record s { star = msr_data })
    else if msr_addr == msr_lstar
    then some (record s { lstar = msr_data })
    else if msr_addr == msr_cstar
    then some (record s { cstar = msr_data })
    else if msr_addr == msr_kernel_gs_base
    then some (record s { kernel_gs_base = msr_data })
    else if msr_addr == msr_syscall_mask
    then some (record s { sfmask = msr_data })
    else none

abbrev pub read_into : (ℕ → ℕ) → Option ℕ → Bool × (ℕ → ℕ)
read_into regs none = (false, regs)
read_into regs (some msr_data) =
    (true, update (update regs rax (low32 msr_data)) rdx (msr_data / 2 ^ 32))

-- Whether it returns 0, and the registers.
unfoldable pub svm_handle_msr_read : Save → (ℕ → ℕ) → Bool × (ℕ → ℕ)
unfolding read_save
svm_handle_msr_read s regs = read_into regs (read_save s (low32 (regs rcx)))

abbrev pub written_or : Save → Option Save → Bool × Save
written_or s none = (false, s)
written_or s (some s') = (true, s')

-- Whether it returns 0, and the fields.
unfoldable pub svm_handle_msr_write : Save → (ℕ → ℕ) → Bool × Save
unfolding write_save
svm_handle_msr_write s regs =
    let msr_data = low32 (regs rax) + low32 (regs rdx) * 2 ^ 32 in
    written_or s (write_save s (low32 (regs rcx)) msr_data)

-- A field that was written reads back.
read_save-write_save :
    (s s' : Save) (msr v : ℕ) → write_save s msr v ≡ some s' → read_save s' msr ≡ some v
unfolding read_save write_save
read_save-write_save s s' msr v h = ground (arith, h)
