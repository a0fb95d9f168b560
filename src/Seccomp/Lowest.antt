-- ===== src/Seccomp/Lowest.antt =====
-- The loop over the filters in seccomp.c.
use slimvm.Base.{
  ℕ, ◌≤◌, ◌<◌, ◌≡◌, ◌⊎◌, inl, inr, refl, sym, List, [], ◌∷◌, ◌++◌, arith, All, ltb, Bool-cases, ap,
  ltb→lt, ltb→ge,
}
use slimvm.Seccomp.{SeccompData, action, evaluate}

-- A filter of the list returns `ret`, and each one before it an action that is higher.
pub record IsFirst (sd : SeccompData) (fs : List (SeccompData → ℕ)) (ret : ℕ) : Type 0 where
  pub before : List (SeccompData → ℕ)
  pub filter : SeccompData → ℕ
  pub after : List (SeccompData → ℕ)
  pub split : fs ≡ before ++ (filter ∷ after)
  pub returned : filter sd ≡ ret
  pub higher : All (λ g. action ret < action (g sd)) before

-- `ret` is the value with the lowest action among `start` and what the filters return, the first such.
pub record IsLowest (sd : SeccompData) (fs : List (SeccompData → ℕ)) (start ret : ℕ) : Type 0 where
  pub lower : All (λ g. action ret ≤ action (g sd)) fs
  pub lower_start : action ret ≤ action start
  pub origin : (ret ≡ start) ⊎ (IsFirst sd fs ret × (action ret < action start))

module _ (sd : SeccompData) (f : SeccompData → ℕ) (fs : List (SeccompData → ℕ))
    (start ret : ℕ) where
  -- The head of the list replaces the start.
  lower-step :
      action (f sd) < action start → IsLowest sd fs (f sd) ret → IsLowest sd (f ∷ fs) start ret
  lower-step lt rest = record {
    lower = (rest.lower_start, rest.lower);
    lower_start = omega arith;
    origin = (elim rest.origin [
      | inl e ↦ inr (
        record { before = []; filter = f; after = fs; split = refl; returned = sym e; higher = tt },
        rw e lt,
      )
      | inr h ↦ inr (
        record {
          before = f ∷ h.0.before;
          filter = h.0.filter;
          after = h.0.after;
          split = ap (λ l. f ∷ l) h.0.split;
          returned = h.0.returned;
          higher = (h.1, h.0.higher);
        },
        omega arith,
      )
    ]);
  }

  -- The head of the list is passed over.
  pass-step :
      action start ≤ action (f sd) → IsLowest sd fs start ret → IsLowest sd (f ∷ fs) start ret
  pass-step ge rest = record {
    lower = (omega arith, rest.lower);
    lower_start = rest.lower_start;
    origin = (elim rest.origin [
      | inl e ↦ inl e
      | inr h ↦ inr (
        record {
          before = f ∷ h.0.before;
          filter = h.0.filter;
          after = h.0.after;
          split = ap (λ l. f ∷ l) h.0.split;
          returned = h.0.returned;
          higher = (omega arith, h.0.higher);
        },
        h.1,
      )
    ]);
  }

-- `evaluate` from a value `start` returns the value whose action is the lowest among `start` and what the
-- filters return, and of several with that action `start` or else the first filter's.
pub evaluate-IsLowest :
    (sd : SeccompData) (fs : List (SeccompData → ℕ)) (start : ℕ)
    → IsLowest sd fs start (evaluate sd fs start)
unfolding evaluate
evaluate-IsLowest sd [] start = record { lower = tt; lower_start = omega arith; origin = inl refl }
evaluate-IsLowest sd (f ∷ fs) start = elim (Bool-cases (ltb (action (f sd)) (action start))) [
  | inl e ↦ rw e (
      lower-step sd f fs start (evaluate sd fs (f sd)) (ltb→lt (action (f sd)) (action start) e)
        (evaluate-IsLowest sd fs (f sd)))
  | inr e ↦ rw e (
      pass-step sd f fs start (evaluate sd fs start) (ltb→ge (action (f sd)) (action start) e)
        (evaluate-IsLowest sd fs start))
]
