-- ===== src/Vmx/Created.antt =====
-- What `vmx_create_vcpu` leaves (vmx.c): all of a vcpu or nothing of it, and that `vmx_destroy_vcpu` gives
-- back all.
use slimvm.Base.{
  ℕ, ◌+◌, ◌-◌, ◌<◌, ◌≡◌, ◌≢◌, inl, inr, refl, ap, Bool, true, false, Option, none, some, arith, ltb,
  ◌==◌, update, fun_ext, Bool-cases, if◌then◌else◌, ltb→lt, ==→ne, ==→eq,
}
use slimvm.Engine.{IsFindFirstZero}
use slimvm.Vmx.Create.{
  vmx_nr_vpids, Machine, Kernel, VmxVcpu, vmx_allocate_vpid, vmx_free_vpid, vmx_create_vcpu,
  vmx_destroy_vcpu,
}

-- All that a vcpu takes, but for `vmx_local_vcpu`, is as it was.
pub record GivenBack (m m' : Machine) : Type 0 where
  pub vmx_vpid_bitmap : m'.vmx_vpid_bitmap ≡ m.vmx_vpid_bitmap
  pub vcpus : m'.vcpus ≡ m.vcpus
  pub vmcs : m'.vmcs ≡ m.vmcs
  pub guest_msrs : m'.guest_msrs ≡ m.guest_msrs
  pub host_msrs : m'.host_msrs ≡ m.host_msrs

-- The vcpu's vpid was free and is a guest's.
pub record TakesVpid (m : Machine) (v : VmxVcpu) (m' : Machine) : Type 0 where
  pub range : v.vpid < vmx_nr_vpids
  pub not_host : v.vpid ≢ 0
  pub was_free : m.vmx_vpid_bitmap v.vpid ≡ false
  pub taken : m'.vmx_vpid_bitmap ≡ update m.vmx_vpid_bitmap v.vpid true

-- The outcome of a creation.
pub data Created (m : Machine) : Option VmxVcpu × Machine → Type 0 where
  failed : {m' : Machine} → GivenBack m m' → Created m (none, m')
  made :
      {v : VmxVcpu} {m' : Machine}
      → TakesVpid m v m'
      → GivenBack m (vmx_destroy_vcpu v m')
      → Created m (some v, m')

update_back :
    (bits : ℕ → Bool) (i : ℕ) → bits i ≡ false → update (update bits i true) i false ≡ bits
update_back bits i h = fun_ext λ j. ground arith

-- A vcpu with its four allocations gives them back.
destroy-GivenBack :
    (m : Machine) (v : VmxVcpu) (m' : Machine)
    → TakesVpid m v m'
    → m'.vcpus ≡ m.vcpus + 1
    → m'.vmcs ≡ m.vmcs + 1
    → m'.guest_msrs ≡ m.guest_msrs + 1
    → m'.host_msrs ≡ m.host_msrs + 1
    → GivenBack m (vmx_destroy_vcpu v m')
unfolding vmx_destroy_vcpu vmx_free_vpid
destroy-GivenBack m v m' x a b c d =
    let z : (v.vpid == 0) ≡ false = ground (arith, x.not_host) in
    let t : ltb v.vpid vmx_nr_vpids ≡ true = ground (arith, x.range) in
    record {
      vmx_vpid_bitmap = rw (z, t, x.taken) (update_back m.vmx_vpid_bitmap v.vpid x.was_free);
      vcpus = omega (arith, a);
      vmcs = omega (arith, b);
      guest_msrs = omega (arith, c);
      host_msrs = omega (arith, d);
    }

-- As `vmx_free_vpid` tests it.
freed_back :
    (bits : ℕ → Bool) (i : ℕ)
    → ltb i vmx_nr_vpids ≡ true
    → bits i ≡ false
    → (if ltb i vmx_nr_vpids then update (update bits i true) i false else update bits i true)
      ≡ bits
freed_back bits i t h = rw (t, update_back bits i h)

module _ (k : Kernel) (law : IsFindFirstZero k.find_first_zero_bit) (m : Machine)
    (reserved : m.vmx_vpid_bitmap 0 ≡ true) where
  abbrev vpid_of : ℕ
  vpid_of = k.find_first_zero_bit m.vmx_vpid_bitmap vmx_nr_vpids

  vpid_free : vpid_of < vmx_nr_vpids → m.vmx_vpid_bitmap vpid_of ≡ false
  vpid_free h = law.clear m.vmx_vpid_bitmap vmx_nr_vpids h

  vpid_guest : vpid_of < vmx_nr_vpids → (vpid_of == 0) ≡ false
  vpid_guest h = elim (Bool-cases (vpid_of == 0)) [
    | inr e ↦ e
    | inl e ↦ let z = ap m.vmx_vpid_bitmap (==→eq _ _ e) in absurd (cc (vpid_free h, z, reserved))
  ]

  same : GivenBack m m
  same = record {
    vmx_vpid_bitmap = refl;
    vcpus = refl;
    vmcs = refl;
    guest_msrs = refl;
    host_msrs = refl;
  }

  -- With the counts as they were, the bitmap is what is to be seen.
  counted :
      (m' : Machine)
      → m'.vmx_vpid_bitmap ≡ m.vmx_vpid_bitmap
      → m'.vcpus ≡ m.vcpus
      → m'.vmcs ≡ m.vmcs
      → m'.guest_msrs ≡ m.guest_msrs
      → m'.host_msrs ≡ m.host_msrs
      → GivenBack m m'
  counted m' a b c d e = record {
    vmx_vpid_bitmap = a;
    vcpus = b;
    vmcs = c;
    guest_msrs = d;
    host_msrs = e;
  }

  one_back : (n : ℕ) → n + 1 - 1 ≡ n
  one_back n = omega arith

  -- Where the bitmap is full.
  full-Created :
      (p vcpu_no : ℕ) → ltb vpid_of vmx_nr_vpids ≡ false → Created m (vmx_create_vcpu k p vcpu_no m)
  unfolding vmx_create_vcpu vmx_allocate_vpid
  full-Created p vcpu_no f = elim (Bool-cases k.vcpu) [
    | inr a ↦ rw a (failed same)
    | inl a ↦ elim (Bool-cases k.vmcs) [
      | inr b ↦ rw (a, b) (failed (counted _ refl (one_back _) refl refl refl))
      | inl b ↦ rw (f, a, b) (failed (counted _ refl (one_back _) (one_back _) refl refl))
    ]
  ]

  -- Where it is not.
  numbered-Created :
      (p vcpu_no : ℕ) → ltb vpid_of vmx_nr_vpids ≡ true → Created m (vmx_create_vcpu k p vcpu_no m)
  unfolding vmx_create_vcpu vmx_allocate_vpid
  numbered-Created p vcpu_no t =
      let z = vpid_guest (ltb→lt _ _ t) in
      let back = freed_back m.vmx_vpid_bitmap vpid_of t (vpid_free (ltb→lt _ _ t)) in
      let v : VmxVcpu = record { address = p; vcpu_no = vcpu_no; vpid = vpid_of } in
      let x : (m' : Machine)
          → m'.vmx_vpid_bitmap ≡ update m.vmx_vpid_bitmap vpid_of true
          → TakesVpid m v m' =
        λ m' e. record {
          range = ltb→lt _ _ t;
          not_host = ==→ne _ _ z;
          was_free = vpid_free (ltb→lt _ _ t);
          taken = e;
        } in
      elim (Bool-cases k.vcpu) [
        | inr a ↦ rw a (failed same)
        | inl a ↦ elim (Bool-cases k.vmcs) [
          | inr b ↦ rw (a, b) (failed (counted _ refl (one_back _) refl refl refl))
          | inl b ↦ elim (Bool-cases k.guest_msrs) [
            | inr c ↦
                rw (t, z, a, b, c) (failed (counted _ back (one_back _) (one_back _) refl refl))
            | inl c ↦ elim (Bool-cases k.host_msrs) [
              | inr d ↦
                  rw (t, z, a, b, c, d)
                    (failed (counted _ back (one_back _) (one_back _) (one_back _) refl))
              | inl d ↦ elim (Bool-cases k.initial_guest_state) [
                | inr e ↦
                    rw (t, z, a, b, c, d, e)
                      (failed (counted _ back (one_back _) (one_back _) (one_back _) (one_back _)))
                | inl e ↦
                    rw (t, z, a, b, c, d, e)
                      (made (x _ refl) (destroy-GivenBack m v _ (x _ refl) refl refl refl refl))
              ]
            ]
          ]
        ]
      ]

-- A creation gives a vcpu with a vpid that was free and is not the host's 0, and `vmx_destroy_vcpu` of it gives
-- back every allocation and the vpid; or it gives none, at whatever point it failed, and has given
-- everything back itself. The search of the bitmap is the kernel's, and bit 0 is reserved as
-- `vmx_hardware_enable_all` does it.
pub vmx_create_vcpu-Created :
    (k : Kernel) (p vcpu_no : ℕ) (m : Machine)
    → IsFindFirstZero k.find_first_zero_bit
    → m.vmx_vpid_bitmap 0 ≡ true
    → Created m (vmx_create_vcpu k p vcpu_no m)
vmx_create_vcpu-Created k p vcpu_no m law reserved =
    elim (Bool-cases (ltb (k.find_first_zero_bit m.vmx_vpid_bitmap vmx_nr_vpids) vmx_nr_vpids)) [
      | inl t ↦ numbered-Created k law m reserved p vcpu_no t
      | inr f ↦ full-Created k law m reserved p vcpu_no f
    ]
