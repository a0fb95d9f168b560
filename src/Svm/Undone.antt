-- ===== src/Svm/Undone.antt =====
-- Allocating, enabling, disabling and giving back (svm.c): what undoing leaves of CPUs that were idle.
use slimvm.Base.{
  ◌≡◌, inl, inr, refl, sym, ap, ◌∙◌, subst, Bool, true, false, if◌then◌else◌, List, [], ◌∷◌, arith,
  Bool-cases,
}
use slimvm.Svm.Enable.{
  OneCpu, allocate_cpu_data, svm_cpu_uninit, svm_hardware_enable, svm_hardware_disable,
  allocate_all, enable_all, disable_all, uninit_all,
}

-- A CPU that the module has left alone. `EFER_SVME` may be set by someone else, with a save area.
pub record IsIdle (c : OneCpu) : Type 0 where
  pub no_data : c.cpu_data ≡ false
  pub no_hsave : c.svme ≡ false → c.hsave ≡ false
  pub not_enabled : c.svm_enabled ≡ false

abbrev pub AreIdle : List OneCpu → Type 0
AreIdle [] = Unit {0}
AreIdle (c ∷ cs) = IsIdle c × AreIdle cs

abbrev undone : OneCpu → OneCpu
undone c = svm_cpu_uninit (if c.online then svm_hardware_disable c else c)

abbrev pub enabled_if_online : OneCpu → OneCpu
enabled_if_online c = if c.online then (svm_hardware_enable c).1 else c

abbrev plain : Bool → Bool → Bool → Bool → Bool → OneCpu
plain online gives_data gives_page svme hsave = record {
  online = online;
  gives_data = gives_data;
  gives_page = gives_page;
  cpu_data = false;
  svme = svme;
  hsave = if svme then hsave else false;
  svm_enabled = false;
}

IsIdle-plain : (c : OneCpu) → IsIdle c → c ≡ plain c.online c.gives_data c.gives_page c.svme c.hsave
IsIdle-plain c h =
    let e : c.hsave ≡ (if c.svme then c.hsave else false) = ground (arith, h.no_hsave) in
    λ i. record {
      online = c.online;
      gives_data = c.gives_data;
      gives_page = c.gives_page;
      cpu_data = h.no_data i;
      svme = c.svme;
      hsave = e i;
      svm_enabled = h.not_enabled i;
    }

undone-plain : (o d p s v : Bool) → undone (plain o d p s v) ≡ plain o d p s v
unfolding svm_cpu_uninit svm_hardware_disable
undone-plain true d p s v = refl
undone-plain false d p s v = refl

undone_allocated :
    (o d p s v : Bool) → undone (allocate_cpu_data (plain o d p s v)).1 ≡ plain o d p s v
unfolding svm_cpu_uninit svm_hardware_disable allocate_cpu_data
undone_allocated true true true s v = refl
undone_allocated true true false s v = refl
undone_allocated true false p s v = refl
undone_allocated false true true s v = refl
undone_allocated false true false s v = refl
undone_allocated false false p s v = refl

undone_enabled :
    (o d p s v : Bool)
    → (allocate_cpu_data (plain o d p s v)).0 ≡ true
    → undone (enabled_if_online (allocate_cpu_data (plain o d p s v)).1) ≡ plain o d p s v
unfolding svm_cpu_uninit svm_hardware_disable allocate_cpu_data svm_hardware_enable
undone_enabled true true true true v a = refl
undone_enabled true true true false v a = refl
undone_enabled false true true s v a = refl
undone_enabled o true false s v a = absurd (cc a)
undone_enabled o false p s v a = absurd (cc a)

-- An idle CPU is as it was after its data is allocated and given back, and also with the enabling in between.
undone_self : (c : OneCpu) → IsIdle c → undone c ≡ c
undone_self c h =
    subst (λ x. undone x ≡ x) (sym (IsIdle-plain c h))
      (undone-plain c.online c.gives_data c.gives_page c.svme c.hsave)

allocate-undone : (c : OneCpu) → IsIdle c → undone (allocate_cpu_data c).1 ≡ c
allocate-undone c h =
    subst (λ x. undone (allocate_cpu_data x).1 ≡ x) (sym (IsIdle-plain c h))
      (undone_allocated c.online c.gives_data c.gives_page c.svme c.hsave)

enable-undone :
    (c : OneCpu)
    → IsIdle c
    → (allocate_cpu_data c).0 ≡ true
    → undone (enabled_if_online (allocate_cpu_data c).1) ≡ c
enable-undone c h =
    subst
      (λ x. (allocate_cpu_data x).0 ≡ true → undone (enabled_if_online (allocate_cpu_data x).1) ≡ x)
      (sym (IsIdle-plain c h)) (undone_enabled c.online c.gives_data c.gives_page c.svme c.hsave)

pub enable_all-cons :
    (c : OneCpu) (cs : List OneCpu)
    → (enable_all (c ∷ cs)).1 ≡ enabled_if_online c ∷ (enable_all cs).1
unfolding enable_all
enable_all-cons c cs = elim (Bool-cases c.online) [ inl e ↦ rw e refl | inr e ↦ rw e refl ]

abbrev pub undo : List OneCpu → List OneCpu
undo cs = uninit_all (disable_all cs)

undo_self : (cs : List OneCpu) → AreIdle cs → undo cs ≡ cs
unfolding uninit_all disable_all
undo_self [] h = refl
undo_self (c ∷ cs) (i, is) = rw (undone_self c i, undo_self cs is) refl

pub allocate_all-undo : (cs : List OneCpu) → AreIdle cs → undo (allocate_all cs).1 ≡ cs
unfolding allocate_all uninit_all disable_all
allocate_all-undo [] h = refl
allocate_all-undo (c ∷ cs) (i, is) = elim (Bool-cases (allocate_cpu_data c).0) [
  | inl e ↦ rw e (
      ap (λ x. x ∷ undo (allocate_all cs).1) (allocate-undone c i)
      ∙ ap (λ xs. c ∷ xs) (allocate_all-undo cs is))
  | inr e ↦ rw e (ap (λ x. x ∷ undo cs) (allocate-undone c i) ∙ ap (λ xs. c ∷ xs) (undo_self cs is))
]

-- Where all the allocations succeed, so does the first, and so do the rest.
pub allocate_all-cons :
    (c : OneCpu) (cs : List OneCpu)
    → (allocate_all (c ∷ cs)).0 ≡ true
    → ((allocate_cpu_data c).0 ≡ true)
      × ((allocate_all cs).0 ≡ true)
      × ((allocate_all (c ∷ cs)).1 ≡ (allocate_cpu_data c).1 ∷ (allocate_all cs).1)
unfolding allocate_all
allocate_all-cons c cs h = elim (Bool-cases (allocate_cpu_data c).0) [
  | inl e ↦ (e, rw e at h, rw e refl)
  | inr e ↦ absurd (cc (rw e at h))
]

pub enable_all-undo :
    (cs : List OneCpu)
    → AreIdle cs
    → (allocate_all cs).0 ≡ true
    → undo (enable_all (allocate_all cs).1).1 ≡ cs
unfolding uninit_all disable_all
enable_all-undo [] h a = unfold allocate_all enable_all in refl
enable_all-undo (c ∷ cs) (i, is) a =
    let (a', as', e) = allocate_all-cons c cs a in
    ap (λ xs. undo (enable_all xs).1) e
    ∙ ap undo (enable_all-cons (allocate_cpu_data c).1 (allocate_all cs).1)
    ∙ ap (λ x. x ∷ undo (enable_all (allocate_all cs).1).1) (enable-undone c i a')
    ∙ ap (λ xs. c ∷ xs) (enable_all-undo cs is as')
