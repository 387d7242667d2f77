-- ===== src/Log/Cap.antt =====
-- The cap on the facts of a parse.
use mathlib.Core.List.{append_assoc, append-nil}
use pdfv.Base.{
  ℕ, zero, suc, ◌-◌, ◌≤◌, true, List, [], ◌∷◌, ◌++◌, ◌≡◌, refl, inl, inr, arith, ltb, le→ltb,
  if◌then◌else◌, length, take, length-append, Bool-cases,
}
use pdfv.Limits.{ResourceLimits}
use pdfv.Fact.{ParseFact, parse_fact_cap_reached}
use pdfv.Log.{Log, push_fact, push_facts, has_cap_warning}

take-nil : (n : ℕ) → take {A = ParseFact} n [] ≡ []
take-nil zero = refl
take-nil (suc n) = refl

ltb-suc : (a b : ℕ) → ltb (suc a) (suc b) ≡ ltb a b
ltb-suc a b = ground arith

-- With the cap reached and the warning there, nothing more is kept.
push_facts-full :
    (limits : ResourceLimits) (facts : List ParseFact) (log : Log)
    → limits.max_parse_facts ≤ length log.parse_facts
    → has_cap_warning log.warnings ≡ true
    → push_facts limits facts log ≡ log
unfolding push_facts
push_facts-full limits [] log full warned = refl
push_facts-full limits (fact ∷ facts) log full warned =
    rw (le→ltb _ _ full, warned) (push_facts-full limits facts log full warned)

abbrev room : ResourceLimits → List ParseFact → ℕ
room limits kept = limits.max_parse_facts - length kept

push_facts-room :
    (limits : ResourceLimits) (facts kept : List ParseFact)
    → length kept ≤ limits.max_parse_facts
    → push_facts limits facts (record { parse_facts = kept; warnings = [] }) ≡ record {
      parse_facts = kept ++ take (room limits kept) facts;
      warnings =
          if ltb (room limits kept) (length facts)
          then parse_fact_cap_reached limits.max_parse_facts ∷ []
          else [];
    }
unfolding push_facts push_fact
push_facts-room limits [] kept inside =
    let small = le→ltb (room limits kept) 0 (omega arith) in
    rw (take-nil (room limits kept), append-nil kept, small) refl
push_facts-room limits (fact ∷ facts) kept inside =
    elim (Bool-cases (ltb (length kept) limits.max_parse_facts)) [
      | inl opens ↦
          let size = length-append kept (fact ∷ []) in
          let left : room limits kept ≡ suc (room limits (kept ++ fact ∷ [])) = ground arith in
          let counted : ltb (suc (room limits (kept ++ fact ∷ []))) (suc (length facts))
              ≡ ltb (room limits (kept ++ fact ∷ [])) (length facts) =
            ltb-suc _ _ in
          rw
            (
              opens,
              left,
              counted,
              ← append_assoc kept (fact ∷ []) (take (room limits (kept ++ fact ∷ [])) facts),
            )
            (push_facts-room limits facts (kept ++ fact ∷ []) (ground arith))
      | inr full ↦
          let left : room limits kept ≡ 0 = ground arith in
          let reached : limits.max_parse_facts ≤ length kept = ground arith in
          let more : ltb 0 (suc (length facts)) ≡ true = ground arith in
          rw (full, left, append-nil kept, more) (push_facts-full limits facts _ reached refl)
    ]

-- Of the facts that are pushed on an empty log, the first ones up to the cap are kept, in order, and a
-- single warning says when there were more.
pub push_facts-take :
    (limits : ResourceLimits) (facts : List ParseFact)
    → push_facts limits facts (record { parse_facts = []; warnings = [] }) ≡ record {
      parse_facts = take limits.max_parse_facts facts;
      warnings =
          if ltb limits.max_parse_facts (length facts)
          then parse_fact_cap_reached limits.max_parse_facts ∷ []
          else [];
    }
push_facts-take limits facts =
    let same : limits.max_parse_facts - 0 ≡ limits.max_parse_facts = omega arith in
    rw (same) at (push_facts-room limits facts [] (omega arith))
