-- ===== src/Registry/Release.antt =====
-- `instance_release` of instance.c.
use slimvm.Base.{
  ℕ, zero, suc, ◌≡◌, ◌≢◌, ◌+◌, refl, subst, sym, ◌∙◌, true, false, Option, none, some, List, [],
  NotIn, update, arith, if◌then◌else◌, leb, update-same, update-other, ◌-◌,
}
use slimvm.State.{Instance, Vcpu, vm_max_vcpus}
use slimvm.Engine.{Engine}
use slimvm.VcpuTable.{vcpu_release}
use slimvm.Registry.{
  Registry, instances_max_num, vfree, list_del, mmdrop, free_inst_id, release_round, release_vcpus,
  wind_down, instance_release,
}
use slimvm.Registry.Users.{
  IsIn, IsRegistry, users-update, live-update, live-list_del, Unique-list_del, users-list_del,
}

round-fields :
    (i : ℕ) (st : Instance × List Vcpu)
    → ((release_round i st).0.id ≡ st.0.id) × ((release_round i st).0.mm ≡ st.0.mm)
unfolding release_round vcpu_release
round-fields i (instp, ds) = ground arith

-- The loop keeps the id and the address space.
release_vcpus-fields :
    (k i : ℕ) (st : Instance × List Vcpu)
    → ((release_vcpus k i st).0.id ≡ st.0.id) × ((release_vcpus k i st).0.mm ≡ st.0.mm)
unfolding release_vcpus
release_vcpus-fields zero i st = (refl, refl)
release_vcpus-fields (suc k) i st =
    let here = round-fields i st in
    let rest = release_vcpus-fields k (i + 1) (release_round i st) in
    (rest.0 ∙ here.0, rest.1 ∙ here.1)

-- The engine leaves the id of an instance alone when it winds it down.
pub record KeepsIdDown {Config : Type 0} (ops : Engine Config) : Type 0 where
  pub shutdown : (instp : Instance) → (ops.shutdown_all_vcpus instp).id ≡ instp.id
  pub sync : (instp : Instance) → (ops.sync_all_vcpus instp).id ≡ instp.id
  pub destroy : (instp : Instance) → (ops.instance_destroy_pt instp).id ≡ instp.id

wind_down-id :
    {Config : Type 0} (ops : Engine Config) (instp : Instance)
    → KeepsIdDown ops
    → (wind_down ops instp).0.id ≡ instp.id
unfolding wind_down
wind_down-id ops instp keeps =
    let stopped = ops.shutdown_all_vcpus instp in
    let synced : Instance = if stopped.force_release then stopped else ops.sync_all_vcpus stopped in
    let same : synced.id ≡ stopped.id = ground (arith, keeps.sync stopped) in
    keeps.destroy (release_vcpus vm_max_vcpus 0 (synced, [])).0
    ∙ (release_vcpus-fields vm_max_vcpus 0 (synced, [])).0
    ∙ same
    ∙ keeps.shutdown instp

-- The address `p` is off the well-formed table `after`, and its id is free.
pub record Released (before after : Registry) (p i : ℕ) : Type 0 where
  pub well_formed : IsRegistry after
  pub not_listed : NotIn p after.instances_list
  pub freed : after.heap p ≡ none
  pub free_id : after.instances_bitmap i ≡ false
  pub others : (q : ℕ) → q ≢ p → after.heap q ≡ before.heap q
  pub other_ids : (j : ℕ) → j ≢ i → after.instances_bitmap j ≡ before.instances_bitmap j

-- Taking a listed instance off the table.
remove-IsRegistry :
    (st : Registry) (p i : ℕ) (instp : Instance)
    → IsIn p st.instances_list
    → st.heap p ≡ some instp
    → instp.id ≡ some i
    → IsRegistry st
    → IsRegistry (record st {
      instances_bitmap = update st.instances_bitmap i false;
      instances_list = list_del p st.instances_list;
      heap = update st.heap p none;
    })
remove-IsRegistry st p i instp here at_p id r =
    let u = Unique-list_del st.heap st.instances_list p r.unique in
    record {
      live =
          live-update st.heap (list_del p st.instances_list) p none u.1
            (live-list_del st.heap st.instances_list p r.live);
      unique = u.0;
      accounts = λ j.
          let rest = users-list_del st.heap st.instances_list p j here in
          rw (users-update st.heap (list_del p st.instances_list) p none j u.1)
            (let own = rw (at_p, id) at rest in ground (arith, own, r.accounts j));
      in_range = λ j. ground (arith, r.in_range j);
    }

mmdrop-IsRegistry : (mm : Option ℕ) (st : Registry) → IsRegistry st → IsRegistry (mmdrop mm st)
mmdrop-IsRegistry none st r = r
mmdrop-IsRegistry (some mm) st r = record {
  live = r.live;
  unique = r.unique;
  accounts = r.accounts;
  in_range = r.in_range;
}

-- The end of `instance_release`, by the id that the instance then has.
take_off : ℕ → Option ℕ → Option ℕ → Registry → Registry
unfolding free_inst_id
take_off p id mm st =
    let freed = vfree p (free_inst_id p id (mmdrop mm st)) in
    record freed { preempt_notifiers = freed.preempt_notifiers - 1 }

-- A listed instance's id is taken.
listed_id :
    (st : Registry) (p i : ℕ) (instp : Instance)
    → IsIn p st.instances_list
    → st.heap p ≡ some instp
    → instp.id ≡ some i
    → IsRegistry st
    → st.instances_bitmap i ≡ true
listed_id st p i instp here at_p id r =
    let own = rw (at_p, id) at (users-list_del st.heap st.instances_list p i here) in
    ground (arith, own, r.accounts i)

drop-Released :
    (st : Registry) (p i : ℕ) (instp : Instance)
    → IsIn p st.instances_list
    → st.heap p ≡ some instp
    → instp.id ≡ some i
    → IsRegistry st
    → Released st (take_off p (some i) none st) p i
unfolding take_off free_inst_id
drop-Released st p i instp here at_p id r =
    let t = remove-IsRegistry st p i instp here at_p id r in
    let bound = r.in_range i (listed_id st p i instp here at_p id r) in
    let u = Unique-list_del st.heap st.instances_list p r.unique in
    let test : leb instances_max_num i ≡ false = ground arith in
    rw test (record {
      well_formed = record {
        live = t.live;
        unique = t.unique;
        accounts = t.accounts;
        in_range = t.in_range;
      };
      not_listed = u.1;
      freed = update-same st.heap p none;
      free_id = update-same st.instances_bitmap i false;
      others = λ q n. update-other st.heap p none q n;
      other_ids = λ j n. update-other st.instances_bitmap i false j n;
    })

take_off-Released :
    (st : Registry) (p i : ℕ) (instp : Instance) (mm : Option ℕ)
    → IsIn p st.instances_list
    → st.heap p ≡ some instp
    → instp.id ≡ some i
    → IsRegistry st
    → Released st (take_off p (some i) mm st) p i
unfolding take_off
take_off-Released st p i instp none here at_p id r = drop-Released st p i instp here at_p id r
take_off-Released st p i instp (some m) here at_p id r =
    let d =
      drop-Released (mmdrop (some m) st) p i instp here at_p id (mmdrop-IsRegistry (some m) st r) in
    record {
      well_formed = d.well_formed;
      not_listed = d.not_listed;
      freed = d.freed;
      free_id = d.free_id;
      others = d.others;
      other_ids = d.other_ids;
    }

-- `instance_release` of a listed instance keeps the table well-formed, takes the instance off it, frees its
-- memory and its id, and touches no other instance and no other id, where the engine leaves the id alone.
pub instance_release-Released :
    {Config : Type 0} (ops : Engine Config) (st : Registry) (p i : ℕ) (instp : Instance)
    → KeepsIdDown ops
    → IsIn p st.instances_list
    → st.heap p ≡ some instp
    → instp.id ≡ some i
    → IsRegistry st
    → Released st (instance_release ops p instp st).0 p i
unfolding instance_release take_off
instance_release-Released ops st p i instp keeps here at_p id r =
    let w = wind_down-id ops instp keeps ∙ id in
    subst (λ o. Released st (take_off p o (wind_down ops instp).0.mm st) p i) (sym w)
      (take_off-Released st p i instp (wind_down ops instp).0.mm here at_p id r)
