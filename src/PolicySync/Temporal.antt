-- ===== src/PolicySync/Temporal.antt =====
-- When the temporal check passes.
use neuromesh.Prelude.{
  ℕ, ◌+◌, ◌≤◌, ◌<◌, ◌≡◌, ◌↔◌, inl, inr, some, arith, ◌==◌, Bool-cases, Option-cases,
}
use neuromesh.Prelude.Result.{ok}
use neuromesh.IdentityAllow.{ParsedPolicyBundle}
use neuromesh.PolicySync.{verify_bundle_temporal_with_skew, time_end}

-- The bundle has schema 3 and both bounds, the clock lies between them up to the skew, and no sum
-- leaves the range of `SystemTime`.
pub record IsTimely (parsed : ParsedPolicyBundle) (now skew : ℕ) : Type 0 where
  pub schema : parsed.schema_version ≡ 3
  pub begins : ℕ
  pub ends : ℕ
  pub has_begin : parsed.not_before ≡ some begins
  pub has_end : parsed.not_after ≡ some ends
  pub begun : begins ≤ now + skew
  pub unfinished : now ≤ ends + skew
  pub now_fits : now + skew < time_end
  pub end_fits : ends + skew < time_end

-- The check passes exactly if the bundle has schema 3 and both bounds, the clock lies between them
-- up to the skew, and neither sum leaves the range of `SystemTime`.
pub verify_bundle_temporal_with_skew_iff :
    (parsed : ParsedPolicyBundle) (now skew : ℕ)
    → (verify_bundle_temporal_with_skew parsed now skew ≡ ok tt) ↔ IsTimely parsed now skew
unfolding verify_bundle_temporal_with_skew
verify_bundle_temporal_with_skew_iff parsed now skew = (
  λ h. elim (Bool-cases (parsed.schema_version == 3)) [
    | inr other ↦ absurd (ground arith)
    | inl three ↦ elim (Option-cases parsed.not_before) [
      | inl missing ↦ absurd (ground arith)
      | inr (nb, has_nb) ↦ elim (Option-cases parsed.not_after) [
        | inl missing ↦ absurd (ground arith)
        | inr (na, has_na) ↦ record {
          schema = ground arith;
          begins = nb;
          ends = na;
          has_begin = has_nb;
          has_end = has_na;
          begun = ground arith;
          unfinished = ground arith;
          now_fits = ground arith;
          end_fits = ground arith;
        }
      ]
    ]
  ],
  λ t.
      let schema = t.schema in
      let has_begin = t.has_begin in
      let has_end = t.has_end in
      let begun = t.begun in
      let unfinished = t.unfinished in
      let now_fits = t.now_fits in let end_fits = t.end_fits in ground arith,
)
