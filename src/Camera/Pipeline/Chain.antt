-- ===== src/Camera/Pipeline/Chain.antt =====
-- Which chain the handler of `pad-added` builds.
use oasis_nvr.Prelude.{
  ◌≡◌, ◌≢◌, ◌⊎◌, refl, arith, All_mono, ap, Bool, true, false, Option, none, some, List, [], ◌∷◌,
  ◌++◌, All, Bool-cases, inl, inr, append_assoc, ◌∙◌, sym, if◌then◌else◌,
}
use oasis_nvr.Prelude.Cases.{Option-cases}
use oasis_nvr.Outcome.{ok}
use oasis_nvr.Calls.{Calls, perform}
use oasis_nvr.Calls.Plans.{Completes, Breaks, perform-ends}
use oasis_nvr.Camera.Pipeline.{
  Encoding, h264, av1, PadCall, make, add, sync_state_with_parent, set_config_interval, link,
  static_sink, static_src, link_pad, request_video, link_splitmux, video, Structure, is_text,
  encoding_of, depay, parse, link_chain, configure, build_chain, pad_added,
}

-- The encoding of a pad that is to be recorded.
abbrev pub recorded : Option (Option Structure) → Option Encoding
recorded (some (some s)) = if is_text s.media video then encoding_of s.encoding_name else none
recorded (some none) = none
recorded none = none

abbrev pub makes : Encoding → List PadCall
makes e = make (depay e) ∷ make (parse e) ∷ []

abbrev pub properties : Encoding → List PadCall
properties h264 = set_config_interval ∷ []
properties av1 = []

abbrev pub links : Encoding → List PadCall
links e =
    add (depay e)
    ∷ sync_state_with_parent (depay e)
    ∷ add (parse e)
    ∷ sync_state_with_parent (parse e)
    ∷ link (depay e) (parse e)
    ∷ static_sink (depay e)
    ∷ link_pad (depay e)
    ∷ request_video
    ∷ static_src (parse e)
    ∷ link_splitmux (parse e)
    ∷ []

-- The chain of an encoding.
abbrev pub chain : Encoding → List PadCall
chain e = makes e ++ (properties e ++ links e)

-- A call succeeds, or is the one that cannot fail.
abbrev pub Succeeds : (PadCall → Bool) → PadCall → Type 0
Succeeds works c = (works c ≡ true) ⊎ (c ≡ set_config_interval)

-- The run ends at the first call that fails. Only when that is the first of the chain, the making of
-- the depayloader, one more call is made: the making of the parser.
pub record Broken (works : PadCall → Bool) (e : Encoding) (run : List PadCall × Bool) : Type 0 where
  pub before : List PadCall
  pub failing : PadCall
  pub never_made : List PadCall
  pub before_work : All (Succeeds works) before
  pub fails : works failing ≡ false
  pub chain_is : chain e ≡ before ++ (failing ∷ never_made)
  pub run_is :
      ((before ≡ []) × (run ≡ (makes e, false)))
      ⊎ ((before ≢ []) × (run ≡ (before ++ (failing ∷ []), false)))

pub record Linked (works : PadCall → Bool) (e : Encoding) (run : List PadCall × Bool) : Type 0 where
  pub all_work : All (λ c. works c ≡ true) (makes e ++ links e)
  pub run_is : run ≡ (chain e, true)

module _ (works : PadCall → Bool) where
  abbrev linking : Encoding → Calls PadCall (Unit {0})
  linking e = perform works (links e) ([], ok tt)

  ends :
      (e : Encoding)
      → Completes works (links e) ([], ok tt) (linking e) ⊎ Breaks works (links e) (linking e)
  ends e = perform-ends works (links e) ([], ok tt)

  configure-perform :
      (e : Encoding) → configure works e ≡ (properties e ++ (linking e).0, (linking e).1)
  unfolding configure link_chain perform
  configure-perform h264 = refl
  configure-perform av1 = refl

  all_succeed : (cs : List PadCall) → All (λ c. works c ≡ true) cs → All (Succeeds works) cs
  all_succeed cs h = All_mono _ _ cs (λ c t. inl t) h

  properties_succeed :
      (e : Encoding) (cs : List PadCall)
      → All (λ c. works c ≡ true) cs
      → All (Succeeds works) (properties e ++ cs)
  properties_succeed h264 cs h = (inr refl, all_succeed cs h)
  properties_succeed av1 cs h = all_succeed cs h

  break-Broken :
      (e : Encoding)
      → works (make (depay e)) ≡ true
      → works (make (parse e)) ≡ true
      → Breaks works (links e) (linking e)
      → Broken works e (build_chain works e)
  unfolding build_chain
  break-Broken e t u b = record {
    before = makes e ++ (properties e ++ b.before);
    failing = b.failing;
    never_made = b.never_made;
    before_work = (inl t, (inl u, properties_succeed e b.before b.all_work));
    fails = b.fails;
    chain_is =
        ap (λ (cs : List PadCall). makes e ++ cs)
          (ap (λ (ls : List PadCall). properties e ++ ls) b.plan_is
            ∙ sym (append_assoc (properties e) b.before (b.failing ∷ b.never_made)));
    run_is = inr (
      (λ q. absurd (ground arith)),
      rw (build_chain, t, u, configure-perform e, b.run_is)
          (ap (λ (cs : List PadCall). (makes e ++ cs, false))
            (sym (append_assoc (properties e) b.before (b.failing ∷ [])))),
    );
  }

  build_chain-ends :
      (e : Encoding) → Linked works e (build_chain works e) ⊎ Broken works e (build_chain works e)
  unfolding build_chain
  build_chain-ends e = elim (Bool-cases (works (make (depay e)))) [
    | inr f ↦ inr (record {
      before = [];
      failing = make (depay e);
      never_made = make (parse e) ∷ (properties e ++ links e);
      before_work = tt;
      fails = f;
      chain_is = refl;
      run_is = inl (refl, rw (build_chain, f) refl);
    })
    | inl t ↦ elim (Bool-cases (works (make (parse e)))) [
      | inr f ↦ inr (record {
        before = make (depay e) ∷ [];
        failing = make (parse e);
        never_made = properties e ++ links e;
        before_work = (inl t, tt);
        fails = f;
        chain_is = refl;
        run_is = inr ((λ q. absurd (ground arith)), rw (build_chain, t, f) refl);
      })
      | inl u ↦ elim (ends e) [
        | inl h ↦ inl (record {
          all_work = (t, (u, h.all_work));
          run_is = rw (build_chain, t, u, configure-perform e, h.run_is) refl;
        })
        | inr b ↦ inr (break-Broken e t u b)
      ]
    ]
  ]

  -- A pad is left alone unless its caps are video of a supported encoding. For such a pad either
  -- every call succeeds, the whole chain of the encoding was built in order, and the camera is
  -- recorded; or exactly the calls of the chain up to the first that failed were made, all before it
  -- having succeeded, and the camera is not recorded. Only when that is the making of the
  -- depayloader, the first of all, the parser is made after it all the same.
  pub pad_added-Chain :
      (caps : Option (Option Structure))
      → ((recorded caps ≡ none) × (pad_added works caps ≡ ([], false)))
        ⊎ ((e : Encoding) × (recorded caps ≡ some e)
            × (Linked works e (pad_added works caps) ⊎ Broken works e (pad_added works caps)))
  unfolding pad_added
  pad_added-Chain none = inl (refl, refl)
  pad_added-Chain (some none) = inl (refl, refl)
  pad_added-Chain (some (some s)) = elim (Bool-cases (is_text s.media video)) [
    | inr f ↦ inl (rw (recorded, f) refl, rw (pad_added, f) refl)
    | inl t ↦ elim (Option-cases (encoding_of s.encoding_name)) [
      | inl n ↦ inl (rw (recorded, t, n) refl, rw (pad_added, t, n) refl)
      | inr e ↦ inr (e.0, rw (recorded, t, e.1) refl, rw (pad_added, t, e.1) (build_chain-ends e.0))
    ]
  ]
