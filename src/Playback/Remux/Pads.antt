-- ===== src/Playback/Remux/Pads.antt =====
-- What the signals of the demuxers add to the pipeline of an export.
use oasis_nvr.Prelude.{
  ℕ, suc, ◌≡◌, refl, Bool, true, false, Option, none, some, List, [], ◌∷◌, ◌++◌, map, keep, All,
  Bool-cases, inl, inr,
}
use oasis_nvr.Prelude.Cases.{Option-cases}
use oasis_nvr.Utf8.{Text}
use oasis_nvr.Outcome.{Result, ok, err, panic}
use oasis_nvr.Calls.{Calls, perform}
use oasis_nvr.Playback.Remux.{
  concat, mp4mux, parser, Parser, Call, make, add, sync_state_with_parent, link, link_pad, Pad,
  is_video, guard_of, parser_for, insert_parser, resolve_parser, pad_added,
}

-- The signals one after the other, the first of them number `k`; what succeeds may change from one
-- to the next.
unfoldable pub pads_run :
    (ℕ → Call → Bool) → ℕ → Option Parser → List Pad → List Call × Option Parser
pads_run works k guard [] = ([], guard)
pads_run works k guard (pad ∷ pads) =
    let (calls, guard') = pad_added (works k) guard pad in
    let (more, guard'') = pads_run works (suc k) guard' pads in (calls ++ more, guard'')

-- The links of the video pads of these, each to the pad of `concat` for its own segment.
abbrev pub links : List Pad → List Call
links pads = map (λ (p : Pad). link_pad p.segment) (keep is_video pads)

-- The calls that insert a parser between `concat` and `mp4mux`.
abbrev pub parser_calls : Parser → List Call
parser_calls p =
    make (parser p)
    ∷ add (parser p)
    ∷ sync_state_with_parent (parser p)
    ∷ link concat (parser p)
    ∷ link (parser p) mp4mux
    ∷ []

-- Once there is a parser, pads are only linked.
pads_run-some :
    (works : ℕ → Call → Bool) (k : ℕ) (p : Parser) (pads : List Pad)
    → pads_run works k (some p) pads ≡ (links pads, some p)
unfolding pads_run pad_added resolve_parser
pads_run-some works k p [] = refl
pads_run-some works k p (pad ∷ pads) = elim (Bool-cases (is_video pad)) [
  | inl t ↦ rw (pads_run, t, pads_run-some works (suc k) p pads) refl
  | inr f ↦ rw (pads_run, f, pads_run-some works (suc k) p pads) refl
]

resolve_parser-all :
    (works : Call → Bool) (name : Text) (p : Parser)
    → ((c : Call) → works c ≡ true)
    → parser_for name ≡ some p
    → resolve_parser works none (some (some name)) ≡ (parser_calls p, some p)
unfolding resolve_parser insert_parser
resolve_parser-all works name p all e =
    rw
      (
        resolve_parser,
        e,
        all (make (parser p)),
        all (add (parser p)),
        all (sync_state_with_parent (parser p)),
        all (link concat (parser p)),
        all (link (parser p) mp4mux),
      )
      refl

-- Where every call succeeds, and the first video pad names a supported format, the demuxers' pads
-- are all linked to the pads of `concat` for their own segments, in the order in which they appear,
-- and exactly one parser, that of the first video pad's format, is inserted, right after that pad
-- was linked; pads that are not video are left alone.
pub pads_run-parser :
    (works : ℕ → Call → Bool) (k : ℕ) (before : List Pad) (first : Pad) (pads : List Pad)
    (name : Text) (p : Parser)
    → ((j : ℕ) (c : Call) → works j c ≡ true)
    → All (λ pad. is_video pad ≡ false) before
    → is_video first ≡ true
    → first.caps ≡ some (some name)
    → parser_for name ≡ some p
    → pads_run works k none (before ++ (first ∷ pads))
      ≡ (link_pad first.segment ∷ (parser_calls p ++ links pads), some p)
unfolding pads_run pad_added
pads_run-parser works k [] first pads name p all h v c e =
    rw
      (
        pads_run,
        v,
        c,
        resolve_parser-all (works k) name p (all k) e,
        pads_run-some works (suc k) p pads,
      )
      refl
pads_run-parser works k (pad ∷ before) first pads name p all h v c e =
    rw (pads_run, h.0, pads_run-parser works (suc k) before first pads name p all h.1 v c e) refl

-- A link of a video pad, rather than a call for a parser.
abbrev pub is_pad_link : Call → Bool
is_pad_link (link_pad i) = true
is_pad_link _ = false

keep-append :
    (xs ys : List Call) → keep is_pad_link (xs ++ ys) ≡ keep is_pad_link xs ++ keep is_pad_link ys
keep-append [] ys = refl
keep-append (x ∷ xs) ys = elim (Bool-cases (is_pad_link x)) [
  | inl t ↦ rw (keep, t, keep-append xs ys) refl
  | inr f ↦ rw (keep, f, keep-append xs ys) refl
]

perform-keep :
    (works : Call → Bool) (cs : List Call) (r : Result Parser)
    → All (λ c. is_pad_link c ≡ false) cs
    → keep is_pad_link (perform works cs ([], r)).0 ≡ []
unfolding perform
perform-keep works [] r h = refl
perform-keep works (c ∷ cs) r h = elim (Bool-cases (works c)) [
  | inl t ↦ rw (perform, t, keep, h.0, perform-keep works cs r h.1) refl
  | inr f ↦ rw (perform, f, keep, h.0) refl
]

guard_of-calls :
    (m : Calls Call Parser) → keep is_pad_link m.0 ≡ [] → keep is_pad_link (guard_of m).0 ≡ []
guard_of-calls (cs, ok p) h = h
guard_of-calls (cs, err e) h = h
guard_of-calls (cs, panic) h = h

insert_parser-keep :
    (works : Call → Bool) (p : Parser) → keep is_pad_link (insert_parser works p).0 ≡ []
unfolding insert_parser perform
insert_parser-keep works p =
    guard_of-calls (perform works (parser_calls p) ([], ok p))
      (perform-keep works (parser_calls p) (ok p) (refl, (refl, (refl, (refl, (refl, tt))))))

resolve_parser-keep :
    (works : Call → Bool) (guard : Option Parser) (caps : Option (Option Text))
    → keep is_pad_link (resolve_parser works guard caps).0 ≡ []
unfolding resolve_parser
resolve_parser-keep works (some p) caps = refl
resolve_parser-keep works none none = refl
resolve_parser-keep works none (some none) = refl
resolve_parser-keep works none (some (some name)) = elim (Option-cases (parser_for name)) [
  | inl e ↦ rw (resolve_parser, e) refl
  | inr e ↦ rw (resolve_parser, e.1) (insert_parser-keep works e.0)
]

-- Whatever fails on the way to a parser, each video pad is linked to the pad of `concat` for its own
-- segment, and no other pad is.
pub pads_run-links :
    (works : ℕ → Call → Bool) (k : ℕ) (guard : Option Parser) (pads : List Pad)
    → keep is_pad_link (pads_run works k guard pads).0 ≡ links pads
unfolding pads_run pad_added
pads_run-links works k guard [] = refl
pads_run-links works k guard (pad ∷ pads) = elim (Bool-cases (is_video pad)) [
  | inl t ↦
      rw
        (
          pads_run,
          t,
          keep-append (resolve_parser (works k) guard pad.caps).0
              (pads_run works (suc k) (resolve_parser (works k) guard pad.caps).1 pads).0,
          resolve_parser-keep (works k) guard pad.caps,
          pads_run-links works (suc k) (resolve_parser (works k) guard pad.caps).1 pads,
        )
        refl
  | inr f ↦ rw (pads_run, f, pads_run-links works (suc k) guard pads) refl
]
