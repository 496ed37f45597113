-- ===== src/Calls/Plans.antt =====
-- How a plan of calls ends.
use oasis_nvr.Prelude.{
  ◌≡◌, ◌⊎◌, refl, ap, Bool, true, false, List, [], ◌∷◌, ◌++◌, All, Bool-cases, inl, inr,
}
use oasis_nvr.Outcome.{gstreamer, err}
use oasis_nvr.Calls.{Calls, attempt, perform}

module _ {ℓ κ} {C : Type ℓ} {A : Type κ} (works : C → Bool) where
  -- A plan in two parts.
  pub perform-append :
      (xs ys : List C) (rest : Calls C A)
      → perform works (xs ++ ys) rest ≡ perform works xs (perform works ys rest)
  unfolding perform
  perform-append [] ys rest = refl
  perform-append (x ∷ xs) ys rest = ap (attempt works x) (perform-append xs ys rest)

  -- A plan whose calls all succeed is carried out.
  pub perform-all :
      (xs : List C) (rest : Calls C A)
      → All (λ c. works c ≡ true) xs
      → perform works xs rest ≡ (xs ++ rest.0, rest.1)
  unfolding perform
  perform-all [] rest h = refl
  perform-all (x ∷ xs) rest h = rw (h.0, perform-all xs rest h.1) refl

  -- Otherwise it ends with the first call that fails.
  pub perform-fails :
      (xs ys : List C) (c : C) (rest : Calls C A)
      → All (λ c. works c ≡ true) xs
      → works c ≡ false
      → perform works (xs ++ (c ∷ ys)) rest ≡ (xs ++ (c ∷ []), err gstreamer)
  unfolding perform
  perform-fails [] ys c rest h f = rw f refl
  perform-fails (x ∷ xs) ys c rest h f = rw (h.0, perform-fails xs ys c rest h.1 f) refl

-- Every call of the plan succeeded, and then came the rest.
pub record Completes {ℓ κ} {C : Type ℓ} {A : Type κ} (works : C → Bool) (plan : List C)
    (rest run : Calls C A) : Type (ℓ ⊔ κ) where
  pub all_work : All (λ c. works c ≡ true) plan
  pub run_is : run ≡ (plan ++ rest.0, rest.1)

-- The run is the plan up to the first call that fails, and ends there.
pub record Breaks {ℓ κ} {C : Type ℓ} {A : Type κ} (works : C → Bool) (plan : List C)
    (run : Calls C A) : Type (ℓ ⊔ κ) where
  pub before : List C
  pub failing : C
  pub never_made : List C
  pub plan_is : plan ≡ before ++ (failing ∷ never_made)
  pub all_work : All (λ c. works c ≡ true) before
  pub fails : works failing ≡ false
  pub run_is : run ≡ (before ++ (failing ∷ []), err gstreamer)

-- The one or the other.
pub perform-ends {ℓ κ} :
    {C : Type ℓ} {A : Type κ} (works : C → Bool) (plan : List C) (rest : Calls C A)
    → Completes works plan rest (perform works plan rest)
      ⊎ Breaks works plan (perform works plan rest)
unfolding perform
perform-ends works [] rest = inl (record { all_work = tt; run_is = refl })
perform-ends works (c ∷ cs) rest = elim (Bool-cases (works c)) [
  | inr f ↦ inr (record {
    before = [];
    failing = c;
    never_made = cs;
    plan_is = refl;
    all_work = tt;
    fails = f;
    run_is = rw f refl;
  })
  | inl t ↦ elim (perform-ends works cs rest) [
    | inl h ↦ inl (record { all_work = (t, h.all_work); run_is = rw (t, h.run_is) refl })
    | inr b ↦ inr (record {
      before = c ∷ b.before;
      failing = b.failing;
      never_made = b.never_made;
      plan_is = ap (◌∷◌ c) b.plan_is;
      all_work = (t, b.all_work);
      fails = b.fails;
      run_is = rw (t, b.run_is) refl;
    })
  ]
]
