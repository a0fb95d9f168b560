-- ===== src/Registry/Users.antt =====
-- Who uses an id: the instances in the list of instance.c, counted by their id.
use slimvm.Base.{
  ℕ, ◌+◌, ◌≡◌, ◌<◌, ◌⊎◌, inl, inr, refl, subst, ap, Bool, true, false, ◌==◌, Option, none, some,
  List, [], ◌∷◌, All, NotIn, is_some, bit, update, arith, Bool-cases, ==→ne, ==→eq,
}
use slimvm.State.{Instance}
use slimvm.Registry.{Registry, instances_max_num, list_del}

abbrev pub has_id : Option ℕ → ℕ → Bool
has_id none i = false
has_id (some j) i = j == i

-- Whether the instance at an address has the id.
abbrev pub uses : Option Instance → ℕ → Bool
uses none i = false
uses (some instp) i = has_id instp.id i

abbrev pub users : (ℕ → Option Instance) → List ℕ → ℕ → ℕ
users heap [] i = 0
users heap (p ∷ ps) i = bit (uses (heap p) i) + users heap ps i

-- No address is listed twice.
abbrev pub Unique : List ℕ → Type 0
Unique [] = Unit
Unique (p ∷ ps) = NotIn p ps × Unique ps

abbrev pub IsIn : ℕ → List ℕ → Type 0
IsIn p [] = ⊥
IsIn p (q ∷ qs) = (q ≡ p) ⊎ IsIn p qs

abbrev pub IsListed : (ℕ → Option Instance) → ℕ → Type 0
IsListed heap p = (instp : Instance) × (heap p ≡ some instp) × (is_some instp.id ≡ true)

-- The list has no dangling pointer and no address twice, and each bit stands for one listed instance.
pub record IsRegistry (st : Registry) : Type 0 where
  pub live : All (IsListed st.heap) st.instances_list
  pub unique : Unique st.instances_list
  pub accounts : (i : ℕ) → users st.heap st.instances_list i ≡ bit (st.instances_bitmap i)
  pub in_range : (i : ℕ) → st.instances_bitmap i ≡ true → i < instances_max_num

-- An address outside the list does not count.
pub users-update :
    (heap : ℕ → Option Instance) (ps : List ℕ) (p : ℕ) (o : Option Instance) (i : ℕ)
    → NotIn p ps
    → users (update heap p o) ps i ≡ users heap ps i
users-update heap [] p o i n = refl
users-update heap (q ∷ qs) p o i n = ground (arith, users-update heap qs p o i n.1)

pub live-update :
    (heap : ℕ → Option Instance) (ps : List ℕ) (p : ℕ) (o : Option Instance)
    → NotIn p ps
    → All (IsListed heap) ps
    → All (IsListed (update heap p o)) ps
live-update heap [] p o n h = tt
live-update heap (q ∷ qs) p o n h =
    ((h.0.0, ground (arith, n.0, h.0.1), h.0.2), live-update heap qs p o n.1 h.1)

-- A free address is not listed.
pub live-NotIn :
    (heap : ℕ → Option Instance) (ps : List ℕ) (p : ℕ)
    → heap p ≡ none
    → All (IsListed heap) ps
    → NotIn p ps
live-NotIn heap [] p e h = tt
live-NotIn heap (q ∷ qs) p e h = (λ s. ground (arith, h.0.1, ap heap s), live-NotIn heap qs p e h.1)

module _ (heap : ℕ → Option Instance) where
  pub NotIn-list_del : (ps : List ℕ) (p q : ℕ) → NotIn q ps → NotIn q (list_del p ps)
  NotIn-list_del [] p q n = tt
  NotIn-list_del (r ∷ rs) p q n = elim (Bool-cases (r == p)) [
    | inl e ↦ rw e n.1
    | inr e ↦ rw e (n.0, NotIn-list_del rs p q n.1)
  ]

  pub live-list_del :
      (ps : List ℕ) (p : ℕ) → All (IsListed heap) ps → All (IsListed heap) (list_del p ps)
  live-list_del [] p h = tt
  live-list_del (r ∷ rs) p h = elim (Bool-cases (r == p)) [
    | inl e ↦ rw e h.1
    | inr e ↦ rw e (h.0, live-list_del rs p h.1)
  ]

  pub Unique-list_del :
      (ps : List ℕ) (p : ℕ) → Unique ps → Unique (list_del p ps) × NotIn p (list_del p ps)
  Unique-list_del [] p u = (tt, tt)
  Unique-list_del (r ∷ rs) p u = elim (Bool-cases (r == p)) [
    | inl e ↦ rw e (u.1, subst (λ x. NotIn x rs) (==→eq r p e) u.0)
    | inr e ↦
        let rest = Unique-list_del rs p u.1 in
        rw e ((NotIn-list_del rs p r u.0, rest.0), (==→ne r p e, rest.1))
  ]

  -- What a listed instance adds to the count.
  pub users-list_del :
      (ps : List ℕ) (p i : ℕ)
      → IsIn p ps
      → users heap ps i ≡ bit (uses (heap p) i) + users heap (list_del p ps) i
  users-list_del [] p i h = absurd h
  users-list_del (r ∷ rs) p i h = elim (Bool-cases (r == p)) [
    | inl e ↦ rw (e, ==→eq r p e) refl
    | inr e ↦ elim h [
      | inl same ↦ absurd (==→ne r p e same)
      | inr later ↦ let rest = users-list_del rs p i later in rw e (omega arith)
    ]
  ]
