-- ===== src/Tests/Data.antt =====
-- An instance with one memory region of 4M, its tables, and a page that a fault pins.
use slimvm.Base.{ℕ, true, false, none, some, [], ◌∷◌, if◌then◌else◌, ◌==◌, ok, err, enomem}
use slimvm.State.{MemRegion, Instance, Vcpu, outside_root_mode}
use slimvm.Paging.{Mem}
use slimvm.Vm.{Vm, Page}
use slimvm.Ept.Flush.{Cpu}
use slimvm.Ept.Fault.{Target}
use slimvm.Engine.{Engine}
use slimvm.Registry.{zero_instance}

abbrev pub region : MemRegion
region = record { hva = 0x40000000; gpa = 0; size = 0x400000 }

-- The root table is at frame 1.
abbrev pub guest : Instance
guest = record zero_instance { ept_root = 4103; memp = region ∷ []; mem_region_num = 1 }

abbrev pub empty_mem : Mem
empty_mem = record { entry = λ f i. 0; free_pages = 2 ∷ 3 ∷ 4 ∷ []; released = [] }

abbrev pub vm_of : Mem → Vm
vm_of m = record { instp = guest; mem = m; put_pages = []; dirty_pages = [] }

abbrev pub page : Page
page = record {
  pfn = 9;
  head_pfn = 9;
  reserved = false;
  trans_compound = false;
  anon = true;
  mapcount = 1;
  compound_mapcount = 0;
  compound = false;
  transhuge_dtor = false;
}

-- A writable small page, write-back.
abbrev pub target : Target
target = record { pfn = 9; page = some page; flags = 119 }

abbrev pub cpu : Cpu
cpu = record { me = 0; cpus_allocated = true }

-- Tables at the frames 1, 2 and 3, and a 2M entry at guest address 0.
abbrev pub huge_entry : ℕ
huge_entry = 2097399

abbrev pub huge_mem : Mem
huge_mem = record {
  entry = λ f i.
      if i == 0
      then if f == 1 then 8199 else if f == 2 then 12295 else if f == 3 then huge_entry else 0
      else 0;
  free_pages = 4 ∷ [];
  released = [];
}

abbrev pub vcpu : Vcpu
vcpu = record {
  cpu = none;
  mode = outside_root_mode;
  requests = record { tlb_flush = false; nmi = false };
  is_shutdown = false;
  nmi_pending = false;
}

-- An engine that makes every vcpu and launches it at once to its end, with any configuration.
abbrev pub engine : {C : Type 0} → Engine C
engine = record {
  create_vcpu = λ c i n. some vcpu;
  launch = λ i n c. (ok tt, c, i);
  set_vcpu_mode = λ v m. record v { mode = m };
  vcpu_is_shutdown = λ v. v.is_shutdown;
  make_nmi_request = λ v. record v { requests = record v.requests { nmi = true } };
  shutdown_all_vcpus = λ i. record i { shutdown = true };
  sync_all_vcpus = λ i. i;
  instance_alloc_ptp = λ i. (false, record i { ept_root = 4103 });
  instance_init_pt = λ i. (ok tt, i);
  instance_destroy_pt = λ i. record i { ept_root = 0 };
}

-- An engine that runs out of memory.
abbrev pub failing_engine : {C : Type 0} → Engine C
failing_engine {C} = record (engine {C = C}) {
  create_vcpu = λ c i n. none;
  instance_alloc_ptp = λ i. (true, i);
  instance_init_pt = λ i. (err enomem, i);
}
