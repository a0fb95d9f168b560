-- ===== src/Registry/Create.antt =====
-- `instance_create` of instance.c.
use slimvm.Base.{
  ℕ, ◌≡◌, ◌≢◌, ◌<◌, ◌+◌, ◌⊎◌, inl, inr, refl, sym, ◌∙◌, ap, Bool, true, false, Option, none, some,
  ◌∷◌, NotIn, update, arith, ltb, ltb→lt, ltb→ge, Bool-cases, ok, err, enomem, update-same,
}
use slimvm.State.{Instance, max_mem_region_num}
use slimvm.Engine.{Engine, IsFindFirstZero}
use slimvm.Registry.{
  Registry, instances_max_num, zero_instance, zero_regions, store, alloc_inst_id, create_ptp,
  create_id, instance_create,
}
use slimvm.Registry.Users.{IsRegistry, users-update, live-update, live-NotIn}

-- An address outside the list is written without harm.
store-IsRegistry :
    (st : Registry) (p : ℕ) (o : Option Instance)
    → NotIn p st.instances_list
    → IsRegistry st
    → IsRegistry (record st { heap = update st.heap p o })
store-IsRegistry st p o n r = record {
  live = live-update st.heap st.instances_list p o n r.live;
  unique = r.unique;
  accounts = λ i. rw (users-update st.heap st.instances_list p o i n) (r.accounts i);
  in_range = r.in_range;
}

-- The table with one more instance, under a free id.
add-IsRegistry :
    (st : Registry) (p i : ℕ) (instp : Instance)
    → NotIn p st.instances_list
    → i < instances_max_num
    → st.instances_bitmap i ≡ false
    → instp.id ≡ some i
    → IsRegistry st
    → IsRegistry (record st {
      instances_bitmap = update st.instances_bitmap i true;
      instances_list = p ∷ st.instances_list;
      heap = update st.heap p (some instp);
    })
add-IsRegistry st p i instp n lt free id r = record {
  live = (
    (instp, update-same st.heap p (some instp), rw id refl),
    live-update st.heap st.instances_list p (some instp) n r.live,
  );
  unique = (n, r.unique);
  accounts = λ j.
      rw
        (
          update-same st.heap p (some instp),
          users-update st.heap st.instances_list p (some instp) j n,
          id,
        )
        (ground (arith, r.accounts j, free));
  in_range = λ j. ground (arith, r.in_range j);
}

-- The instance as `instance_create` first fills it.
abbrev first_instance : Instance
first_instance = record zero_instance { memp = zero_regions max_mem_region_num; id = none }

-- The table with an id given.
abbrev given_id : ℕ → ℕ → Registry → Registry
given_id p i st = record st {
  instances_bitmap = update st.instances_bitmap i true;
  instances_list = p ∷ st.instances_list;
}

-- Either there is no id left, or the lowest free one is given.
alloc_inst_id-cases :
    (find : (ℕ → Bool) → ℕ → ℕ) (p : ℕ) (instp : Instance) (st : Registry)
    → IsFindFirstZero find
    → ((alloc_inst_id find p instp st ≡ (false, instp, st))
        × ((i : ℕ) → i < instances_max_num → st.instances_bitmap i ≡ true))
      ⊎ ((i : ℕ) × (i < instances_max_num)
          × (st.instances_bitmap i ≡ false)
          × (alloc_inst_id find p instp st ≡ (true, record instp { id = some i }, given_id p i st)))
unfolding alloc_inst_id
alloc_inst_id-cases find p instp st law =
    let m = find st.instances_bitmap instances_max_num in
    elim (Bool-cases (ltb m instances_max_num)) [
      | inl e ↦
          let lt = ltb→lt m instances_max_num e in
          inr (m, lt, law.clear st.instances_bitmap instances_max_num lt, rw e refl)
      | inr e ↦
          let ge = ltb→ge m instances_max_num e in
          inl
            (rw e refl, λ i lt. law.below st.instances_bitmap instances_max_num i (omega arith) lt)
    ]

-- The engine leaves the id of an instance alone when it allocates the root of the page table.
abbrev pub KeepsId : {Config : Type 0} → Engine Config → Type 0
KeepsId ops = (instp : Instance) → (ops.instance_alloc_ptp instp).1.id ≡ instp.id

-- A well-formed table `after` lists the address `p` first, with an id that was free in `before`.
pub record Created (before after : Registry) (p : ℕ) : Type 0 where
  pub well_formed : IsRegistry after
  pub listed : after.instances_list ≡ p ∷ before.instances_list
  pub fresh :
      (instp : Instance) × (i : ℕ) × (after.heap p ≡ some instp)
      × (instp.id ≡ some i)
      × (before.instances_bitmap i ≡ false)
  pub others : (q : ℕ) → q ≢ p → after.heap q ≡ before.heap q
  pub counted : after.preempt_notifiers ≡ before.preempt_notifiers + 1

module _ {Config : Type 0} (find : (ℕ → Bool) → ℕ → ℕ) (law : IsFindFirstZero find)
    (ops : Engine Config) (keeps : KeepsId ops) (p : ℕ) (st : Registry) (free : st.heap p ≡ none)
    (r : IsRegistry st) where
  -- The end of `instance_create`, with the id `i` given.
  ptp-Created :
      (i q : ℕ) (instp : Instance)
      → i < instances_max_num
      → st.instances_bitmap i ≡ false
      → instp.id ≡ some i
      → (create_ptp ops p instp (store p instp (given_id p i (store p first_instance st)))).0 ≡ ok q
      → (q ≡ p)
        × Created st
            (create_ptp ops p instp (store p instp (given_id p i (store p first_instance st)))).1
            p
  unfolding create_ptp
  ptp-Created i q instp lt clear id h =
      elim (Bool-cases
        (ops.instance_alloc_ptp
          (record instp { mmu_notifier_seq = 0; mmu_notifier_count = 0 })).0) [
            | inl e ↦ absurd (cc (rw (e, create_ptp) at h))
            | inr e ↦
                let made =
                  (ops.instance_alloc_ptp
                    (record instp { mmu_notifier_seq = 0; mmu_notifier_count = 0 })).1 in
                let kept =
                  keeps (record instp { mmu_notifier_seq = 0; mmu_notifier_count = 0 }) ∙ id in
                let n = live-NotIn st.heap st.instances_list p free r.live in
                let first = store-IsRegistry st p (some first_instance) n r in
                let second = store-IsRegistry (store p first_instance st) p (some instp) n first in
                let t =
                  add-IsRegistry (store p instp (store p first_instance st)) p i made n lt clear
                    kept second in
                let same : p ≡ q = cc (rw (e, create_ptp) at h) in
                (
                  sym same,
                  rw e (record {
                    well_formed = record {
                      live = t.live;
                      unique = t.unique;
                      accounts = t.accounts;
                      in_range = t.in_range;
                    };
                    listed = refl;
                    fresh = (
                      made,
                      i,
                      update-same (update (update st.heap p (some first_instance)) p (some instp)) p
                          (some made),
                      kept,
                      clear,
                    );
                    others = λ x x_ne. ground arith;
                    counted = refl;
                  }),
                )
          ]

  create-nomem : (instance_create find ops (some p) false st).0 ≡ err enomem
  unfolding instance_create
  create-nomem = refl

  create-with :
      (o : Bool × Instance × Registry)
      → alloc_inst_id find p first_instance (store p first_instance st) ≡ o
      → instance_create find ops (some p) true st ≡ create_id ops p o
  unfolding instance_create
  create-with o e = ap (create_id ops p) e

  -- `instance_create` that succeeds on a well-formed table, at an address of `vzalloc` that is not in use,
  -- gives that address, lists it in a well-formed table under an id that was free, and touches no other
  -- instance, where the engine leaves the id alone.
  pub instance_create-Created :
      (q : ℕ) (memp_given : Bool)
      → (instance_create find ops (some p) memp_given st).0 ≡ ok q
      → (q ≡ p) × Created st (instance_create find ops (some p) memp_given st).1 p
  unfolding create_id
  instance_create-Created q false h = absurd (cc (sym create-nomem ∙ h))
  instance_create-Created q true h =
      elim (alloc_inst_id-cases find p first_instance (store p first_instance st) law) [
        | inl c ↦ absurd (cc (rw (create-with _ c.0) at h))
        | inr c ↦
            let w =
              create-with
                (
                  true,
                  record first_instance { id = some c.0 },
                  given_id p c.0 (store p first_instance st),
                )
                c.3 in
            rw w
              (ptp-Created c.0 q (record first_instance { id = some c.0 }) c.1 c.2 refl (rw w at h))
      ]

  -- When the engine cannot allocate the root of the page table, `instance_create` returns -ENOMEM but leaves
  -- the freed instance in the list, where there was an id to give: the table is not well-formed any more.
  pub instance_create-dangling :
      (i : ℕ)
      → i < instances_max_num
      → st.instances_bitmap i ≡ false
      → ((instp : Instance) → (ops.instance_alloc_ptp instp).0 ≡ true)
      → ((instance_create find ops (some p) true st).0 ≡ err enomem)
        × ((instance_create find ops (some p) true st).1.instances_list ≡ p ∷ st.instances_list)
        × ((instance_create find ops (some p) true st).1.heap p ≡ none)
  unfolding create_id create_ptp
  instance_create-dangling i lt clear fails =
      elim (alloc_inst_id-cases find p first_instance (store p first_instance st) law) [
        | inl c ↦ absurd (cc (c.1 i lt))
        | inr c ↦
            let w =
              create-with
                (
                  true,
                  record first_instance { id = some c.0 },
                  given_id p c.0 (store p first_instance st),
                )
                c.3 in
            let f = fails (record first_instance { id = some c.0 }) in
            rw (w, f) (refl, refl, ground arith)
      ]
