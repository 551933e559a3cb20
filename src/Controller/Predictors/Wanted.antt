-- ===== src/Controller/Predictors/Wanted.antt =====
-- Which keys of models a spec asks for.
use aom.Base.{
  Bool, true, false, Text, List, [], ◌∷◌, ◌++◌, map, Option, none, some, ◌≡◌, inl, inr, refl, ap,
  subst, ◌∙◌, Result, ok, err, panic, if◌then◌else◌, arith, Option-cases,
}
use aom.Base.Dict.{Dict, mem, lookup, mem-append}
use aom.Base.Shuffle.{Shuffle, nothing, under, exchange, after}
use aom.Basetype.{Metric, Model, with_model_key}
use aom.Controller.Models.Keys.{wmks_of, spec_wmks}
use aom.Controller.Predictors.{MdlMtrc, wmk_of, pairs}

-- Whether a model of the spec, with the metric of its key, has the key `j`.
unfoldable pub wants : Text → Dict Metric → Dict (List Model) → Bool
wants j metrics [] = false
wants j metrics ((k, models) ∷ rest) =
    let more = wants j metrics rest in
    elim (lookup k metrics) [
      | none ↦ more
      | some metric ↦ if mem j (wmks_of metric models) then true else more
    ]

pub wants-Shuffle :
    (j : Text) (metrics : Dict Metric) {d e : Dict (List Model)}
    → Shuffle d e
    → wants j metrics d ≡ wants j metrics e
unfolding wants
wants-Shuffle j metrics nothing = refl
wants-Shuffle j metrics (under (k, models) p) = ground (arith, wants-Shuffle j metrics p)
wants-Shuffle j metrics (exchange (k, ms) (l, ns) d) = ground arith
wants-Shuffle j metrics (after p q) = wants-Shuffle j metrics p ∙ wants-Shuffle j metrics q

-- The list has `j` exactly if `b` says so.
Tells : Text → Bool → Option (List Text) → Type 0
Tells j b none = Unit
Tells j b (some ws) = mem j ws ≡ b

spec_wmks-Tells :
    (j : Text) (metrics : Dict Metric) (d : Dict (List Model))
    → Tells j (wants j metrics d) (spec_wmks metrics d)
unfolding wants mem Tells
spec_wmks-Tells j metrics [] = refl
spec_wmks-Tells j metrics ((k, models) ∷ rest) = elim (Option-cases (lookup k metrics)) [
  | inl e ↦ rw (e, spec_wmks) tt
  | inr (metric, e) ↦
      rw (e, spec_wmks, wants)
        (elim (spec_wmks metrics rest)
            as (λ (o : Option (List Text)).
              Tells j (wants j metrics rest) o
              → Tells j (if mem j (wmks_of metric models) then true else wants j metrics rest)
                  (elim o [ none ↦ none | some ws ↦ some (wmks_of metric models ++ ws) ])) [
                    | none ↦ λ h. tt
                    | some ws ↦ λ h. ground (arith, mem-append j (wmks_of metric models) ws)
                  ]
          (spec_wmks-Tells j metrics rest))
]

-- The keys of `handleModels` in these terms.
pub mem-spec_wmks :
    (j : Text) (metrics : Dict Metric) (d : Dict (List Model)) {ws : List Text}
    → spec_wmks metrics d ≡ some ws
    → mem j ws ≡ wants j metrics d
unfolding Tells
mem-spec_wmks j metrics d e = subst (Tells j (wants j metrics d)) e (spec_wmks-Tells j metrics d)

map-wmk_of :
    (metric : Metric) (models : List Model) (ps : List MdlMtrc)
    → map wmk_of (map (λ m. record { model = m; metric = metric }) models ++ ps)
      ≡ wmks_of metric models ++ map wmk_of ps
map-wmk_of metric [] ps = refl
map-wmk_of metric (m ∷ ms) ps = ap (◌∷◌ (with_model_key metric m.type)) (map-wmk_of metric ms ps)

TellsPairs : Text → Bool → Result (List MdlMtrc) → Type 0
TellsPairs j b (ok ps) = mem j (map wmk_of ps) ≡ b
TellsPairs j b (err e) = Unit
TellsPairs j b panic = Unit

pairs-TellsPairs :
    (j : Text) (metrics : Dict Metric) (d : Dict (List Model))
    → TellsPairs j (wants j metrics d) (pairs metrics d)
unfolding pairs wants mem TellsPairs
pairs-TellsPairs j metrics [] = refl
pairs-TellsPairs j metrics ((k, models) ∷ rest) = elim (Option-cases (lookup k metrics)) [
  | inl e ↦ rw (e, pairs) tt
  | inr (metric, e) ↦
      rw (e, pairs, wants)
        (elim (pairs metrics rest)
            as (λ (r : Result (List MdlMtrc)).
              TellsPairs j (wants j metrics rest) r
              → TellsPairs j (if mem j (wmks_of metric models) then true else wants j metrics rest)
                  (elim r [
                    | ok more ↦ ok (map (λ m. record { model = m; metric = metric }) models ++ more)
                    | err x ↦ err x
                    | panic ↦ panic
                  ])) [
                    | ok more ↦ λ h.
                        ap (mem j) (map-wmk_of metric models more)
                        ∙ ground (arith, mem-append j (wmks_of metric models) (map wmk_of more))
                    | err x ↦ λ h. tt
                    | panic ↦ λ h. tt
                  ]
          (pairs-TellsPairs j metrics rest))
]

pub mem-pairs :
    (j : Text) (metrics : Dict Metric) (d : Dict (List Model)) {ps : List MdlMtrc}
    → pairs metrics d ≡ ok ps
    → mem j (map wmk_of ps) ≡ wants j metrics d
unfolding TellsPairs
mem-pairs j metrics d e = subst (TellsPairs j (wants j metrics d)) e (pairs-TellsPairs j metrics d)
