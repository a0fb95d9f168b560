-- ===== src/Tests/Regions.antt =====
-- Runs of the memory regions and of the requests on the device file.
use slimvm.Base.{ℕ, ◌≡◌, refl, true, none, some, [], ◌∷◌, arith, take, ok, if◌then◌else◌, ◌==◌}
use slimvm.State.{Instance, Vcpu, in_root_mode}
use slimvm.Engine.{Engine}
use slimvm.Mm.{hva_to_gpa, gpa_to_hva}
use slimvm.Mm.Check.{IsWord}
use slimvm.Mm.Translate.{IsLayout, hva_to_gpa-gpa_to_hva, gpa_to_hva-hva_to_gpa}
use slimvm.Device.{Config, User, Task, req_run, slimvm_dev_ioctl, slimvm_enter, enter_at}
use slimvm.Device.Regions.{HasSaneRegions, OnFile, slimvm_dev_ioctl-HasSaneRegions}
use slimvm.Device.Enter.{CanEnter, slimvm_enter-CanEnter}
use slimvm.Tests.Data.{region, guest, vcpu, engine}

guest-IsLayout : IsLayout (take guest.mem_region_num guest.memp)
guest-IsLayout = record { fits = ground arith; hva_apart = (tt, tt); gpa_apart = (tt, tt) }

gpa-hva : gpa_to_hva guest 0x1234 ≡ 0x40001234
unfolding gpa_to_hva
gpa-hva = refl

hva_to_gpa-gpa_to_hva_example : hva_to_gpa guest (gpa_to_hva guest 0x1234) ≡ 0x1234
hva_to_gpa-gpa_to_hva_example =
    hva_to_gpa-gpa_to_hva guest 0x1234 guest-IsLayout (λ e. omega (arith, gpa-hva, e))

hva-gpa : hva_to_gpa guest 0x40001234 ≡ 0x1234
unfolding hva_to_gpa
hva-gpa = refl

gpa_to_hva-hva_to_gpa_example : gpa_to_hva guest (hva_to_gpa guest 0x40001234) ≡ 0x40001234
gpa_to_hva-hva_to_gpa_example =
    gpa_to_hva-hva_to_gpa guest 0x40001234 guest-IsLayout (λ e. omega (arith, hva-gpa, e))

region-IsWord : IsWord region
region-IsWord = record {
  hva_word = ground arith;
  gpa_word = ground arith;
  size_word = ground arith;
}

abbrev conf : Config (Unit {0})
conf = record { registers = tt; sid = 3; vcpu = 1; mem_region_num = 1; mem_region_addr = 0x7000 }

abbrev user : User (Unit {0})
user = record {
  read_config = some conf;
  read_int = none;
  read_regions = λ a n old. (true, region ∷ []);
  write_config = λ c. true;
}

-- An instance without regions yet, with the vcpu of number 1.
abbrev opened : Instance
opened = record guest {
  memp = [];
  mem_region_num = 0;
  vcpus = λ i. if i == 1 then some vcpu else none;
  vcpu_bitmap = λ i. i == 1;
}

abbrev device_engine : Engine (Config (Unit {0}))
device_engine = engine

abbrev task : Task
task = record { mm = 7; tgid = 8; tsk = some 9 }

slimvm_dev_ioctl-HasSaneRegions_example :
    OnFile HasSaneRegions
      (slimvm_dev_ioctl (λ b n. 0) engine user task req_run (some opened, λ m. 0)).1
slimvm_dev_ioctl-HasSaneRegions_example =
    slimvm_dev_ioctl-HasSaneRegions engine
      (record {
        init_memp = λ i. refl;
        init_num = λ i. refl;
        launch_memp = λ i n c. refl;
        launch_num = λ i n c. refl;
      })
      user (λ a n old. (region-IsWord, tt)) (λ b n. 0) task req_run (some opened) (λ m. 0)
      (record { sane = tt; bounded = ground arith })

entered : (slimvm_enter device_engine conf opened).0 ≡ ok tt
unfolding slimvm_enter enter_at
entered = refl

slimvm_enter-CanEnter_example :
    (n : ℕ) × (v : Vcpu) × CanEnter device_engine conf opened n v
    × (slimvm_enter device_engine conf opened
        ≡ device_engine.launch
            (record opened {
              vcpus = λ j.
                  if j == n
                  then some (device_engine.set_vcpu_mode v in_root_mode)
                  else opened.vcpus j;
            })
            n
            conf)
slimvm_enter-CanEnter_example = slimvm_enter-CanEnter device_engine conf opened entered
