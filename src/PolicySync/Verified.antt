-- ===== src/PolicySync/Verified.antt =====
-- Nothing is applied that was not fetched, signed, parsed and in time.
use neuromesh.Prelude.{
  ◌≤◌, ◌<◌, ◌≡◌, ◌∙◌, refl, sym, ap, ◌⊎◌, inl, inr, true, false, not, ◌&&◌, ◌||◌, Option, none,
  some, arith, ltb, leb, ◌==◌, is_empty, Bool-cases, Option-cases,
}
use neuromesh.Prelude.Result.{Result, ok, err, bail_if, >>=-eq-ok, Result-cases}
use neuromesh.Bytes.{Bytes}
use neuromesh.Text.{Str, trim}
use neuromesh.IdentityAllow.{ParsedPolicyBundle, parse_policy_bundle_json_at}
use neuromesh.IdentityAllow.Bundle.{>>-eq-ok}
use neuromesh.PolicySync.{
  SyncError, bad_bundle, signature_invalid, empty_bearer_token, get_failed, body_unreadable,
  http_status, read_body, rate_limited, parse_retry_after_secs, authentication_rejected, Env, Round,
  World, Response, FetchedBundle, non_empty_trim, fetch_policy_bundle, verify_bundle_signature,
  verify_bundle_temporal_with_skew, fetch_and_verify, sync_once, map_err,
}
use neuromesh.PolicySync.Temporal.{IsTimely, verify_bundle_temporal_with_skew_iff}

-- The token was sent, the engine answered with success and a body, the signature over exactly this
-- body is good, the body parses to the bundle, and the bundle is in time.
pub record Verified (env : Env) (round : Round) (parsed : ParsedPolicyBundle) : Type 0 where
  pub has_token : is_empty (trim env.bearer_token) ≡ false
  pub response : Response
  pub replied : round.reply ≡ some response
  pub succeeded : (200 ≤ response.status) × (response.status < 300)
  pub body : Bytes
  pub has_body : response.text ≡ some body
  pub signature : Str
  pub has_signature : non_empty_trim (non_empty_trim response.signature) ≡ some signature
  pub signed : env.verify_cosign_blob_signature env.public_key_pem body signature ≡ true
  pub parses :
      parse_policy_bundle_json_at env.from_str env.parse_from_rfc3339 body round.parsed_at
      ≡ ok parsed
  pub timely : IsTimely parsed round.verified_at env.skew

-- What a fetch that succeeds had.
fetch_policy_bundle-ok :
    (token : Str) (reply : Option Response) (f : FetchedBundle)
    → fetch_policy_bundle token reply ≡ ok f
    → (is_empty (trim token) ≡ false)
      × (r : Response) × (reply ≡ some r)
      × (200 ≤ r.status)
      × (r.status < 300)
      × (r.text ≡ some f.body)
      × (f.signature_b64 ≡ non_empty_trim r.signature)
unfolding fetch_policy_bundle
fetch_policy_bundle-ok token none f h =
    let (_, h') = >>-eq-ok (is_empty (trim token)) empty_bearer_token (err get_failed) h in
    absurd (cc h')
fetch_policy_bundle-ok token (some r) f h =
    let (has_token, h₁) = >>-eq-ok _ _ _ h in
    let (_, h₂) =
      >>-eq-ok (r.status == 429) (rate_limited (parse_retry_after_secs r.retry_after)) _ h₁ in
    let (_, h₃) = >>-eq-ok (r.status == 401 || r.status == 403) authentication_rejected _ h₂ in
    let (good, h₄) =
      >>-eq-ok (not (leb 200 r.status && ltb r.status 300)) (http_status r.status) (read_body r)
        h₃ in
    elim (Option-cases r.text) [
      | inl unreadable ↦
          let stuck : err body_unreadable ≡ ok f = rw (unreadable, read_body) at h₄ in
          absurd (cc stuck)
      | inr (body, readable) ↦
          let made : ok (record { body = body; signature_b64 = non_empty_trim r.signature })
              ≡ ok f =
            rw (readable, read_body) at h₄ in
          let same : record { body = body; signature_b64 = non_empty_trim r.signature } ≡ f =
            cc made in
          (
            has_token,
            r,
            refl,
            ground arith,
            ground arith,
            readable ∙ ap (λ (x : FetchedBundle). some x.body) same,
            sym (ap (λ (x : FetchedBundle). x.signature_b64) same),
          )
    ]

verify_bundle_signature-ok :
    (env : Env) (f : FetchedBundle)
    → verify_bundle_signature env f ≡ ok tt
    → (sig : Str) × (non_empty_trim f.signature_b64 ≡ some sig)
      × (env.verify_cosign_blob_signature env.public_key_pem f.body sig ≡ true)
unfolding verify_bundle_signature
verify_bundle_signature-ok env f h = elim (Option-cases (non_empty_trim f.signature_b64)) [
  | inl missing ↦ absurd (cc (missing, h))
  | inr (sig, present) ↦
      elim (Bool-cases (env.verify_cosign_blob_signature env.public_key_pem f.body sig)) [
        | inl good ↦ (sig, present, good)
        | inr bad ↦
            let h' : bail_if (not (env.verify_cosign_blob_signature env.public_key_pem f.body sig))
                  signature_invalid
                ≡ ok tt =
              rw (present, verify_bundle_signature) at h in
            absurd (cc (bad, h'))
      ]
]

map_err-ok : {E F A : Type 0} (f : E → F) (r : Result E A) {a : A} → map_err f r ≡ ok a → r ≡ ok a
map_err-ok f (ok a) h = cc h
map_err-ok f (err e) h = absurd (cc h)

-- A bundle that comes out of the checks is verified.
pub fetch_and_verify-Verified :
    (env : Env) (round : Round) (parsed : ParsedPolicyBundle)
    → fetch_and_verify env round ≡ ok parsed
    → Verified env round parsed
unfolding fetch_and_verify
fetch_and_verify-Verified env round parsed h =
    let (f, fetched, h₁) = >>=-eq-ok (fetch_policy_bundle env.bearer_token round.reply) _ h in
    let (_, signed, h₂) = >>=-eq-ok (verify_bundle_signature env f) _ h₁ in
    let (p, read, h₃) =
      >>=-eq-ok
        (map_err bad_bundle
          (parse_policy_bundle_json_at env.from_str env.parse_from_rfc3339 f.body round.parsed_at))
        _ h₂ in
    let (_, timely, made) =
      >>=-eq-ok (verify_bundle_temporal_with_skew p round.verified_at env.skew) _ h₃ in
    let same : p ≡ parsed = cc made in
    let (has_token, r, replied, low, high, has_body, sig_there) =
      fetch_policy_bundle-ok env.bearer_token round.reply f fetched in
    let (sig, has_sig, good) = verify_bundle_signature-ok env f signed in
    record {
      has_token = has_token;
      response = r;
      replied = replied;
      succeeded = (low, high);
      body = f.body;
      has_body = has_body;
      signature = sig;
      has_signature = ap non_empty_trim (sym sig_there) ∙ has_sig;
      signed = good;
      parses = map_err-ok bad_bundle _ read ∙ ap ok same;
      timely =
          (verify_bundle_temporal_with_skew_iff parsed round.verified_at env.skew).0
            (rw (sym same) timely);
    }

-- Either a round leaves everything as it was and reports an error, or a verified bundle came in: a
-- token was sent, the engine answered with success and a body, the signature over exactly this
-- body is good, the body parses to the bundle, and the bundle is in time.
pub sync_once-Verified :
    (env : Env) (round : Round) (w : World)
    → (((sync_once env round w).0 ≡ w) × (e : SyncError) × ((sync_once env round w).1 ≡ err e))
      ⊎ ((parsed : ParsedPolicyBundle) × Verified env round parsed)
unfolding sync_once
sync_once-Verified env round w = elim (Result-cases (fetch_and_verify env round)) [
  | inl (parsed, good) ↦ inr (parsed, fetch_and_verify-Verified env round parsed good)
  | inr (e, bad) ↦ inl (rw (bad, sync_once) (refl, e, refl))
]
