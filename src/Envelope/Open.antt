-- ===== src/Envelope/Open.antt =====
-- `open_request` of src/envelope.rs against a description of the encapsulated request.
use verifiable_rpc_sidecar.Crates.Crypto.{Crypto, aes_gcm_256}
use verifiable_rpc_sidecar.Envelope.{
  EnvelopeError, envelope_error, ResponseContext, confidential_suite, request_label, response_label,
  request_info, seal_response, open_suite, open_sealed, open_request,
}
use verifiable_rpc_sidecar.Prelude.{
  refl, ltb-false→le, le→leb, false, ltb, leb, if◌then◌else◌, and-true, Bool-cases, length, take,
  drop, length-take, length-drop, Result, ◌>>=◌, ok_or, ok_or-bind, Bytes, bytes_eq, bytes_eq→eq,
  bytes_eq_iff, ok, err, panic, ◌≤◌, ◌≡◌, sym, ap, ◌∙◌, ◌≢◌, ◌↔◌, inl, inr, Bool, true, ◌&&◌, some,
  [], ◌∷◌, ◌++◌, append-nil, arith,
}

-- The info string of RFC 9458 §4.3: label, zero byte, header.
abbrev pub info_string : Bytes
info_string = request_label ++ 0 ∷ confidential_suite.hdr

-- What an accepted request is: header ‖ enc ‖ ct, which the receiver's key opens, and what the
-- response context holds: enc, the exported secret, and the suite's sealing function.
pub record Opens (c : Crypto) (sk_r body plaintext : Bytes) (ctx : ResponseContext) : Type 0 where
  pub is_long : 55 ≤ length body
  pub hdr : take 7 body ≡ confidential_suite.hdr
  pub sk : c.PrivateKey
  pub enc : c.EncappedKey
  pub receiver : c.ReceiverContext
  pub sk_eq : c.private_key_from_bytes sk_r ≡ some sk
  pub enc_eq : c.encapped_key_from_bytes (take 32 (drop 7 body)) ≡ some enc
  pub receiver_eq : c.setup_receiver aes_gcm_256 sk enc info_string ≡ some receiver
  pub exported : c.context_export receiver response_label 32 ≡ some ctx.secret
  pub opened : c.context_open receiver (drop 32 (drop 7 body)) [] ≡ some plaintext
  pub ctx_enc : ctx.enc ≡ take 32 (drop 7 body)
  pub ctx_secret_len : ctx.secret_len ≡ 32
  pub ctx_seal : ctx.seal ≡ seal_response c confidential_suite

-- The header of a body that is long enough is a slice in range.
pub hdr-fits : (body : Bytes) → ltb (length body) 55 ≡ false → leb 7 (length body) ≡ true
hdr-fits body h = ground arith

module _ (c : Crypto) (sk_r body : Bytes) where
  long_enough : Bool
  long_enough = leb 55 (length body) && bytes_eq (take 7 body) confidential_suite.hdr

  -- The steps after the header check, with the copies done.
  steps : Result (Bytes × ResponseContext) EnvelopeError
  steps = do
    sk ← ok_or envelope_error (c.private_key_from_bytes sk_r)
    enc ← ok_or envelope_error (c.encapped_key_from_bytes (take 32 (drop 7 body)))
    ctx ← ok_or envelope_error (c.setup_receiver aes_gcm_256 sk enc info_string)
    exported ← ok_or envelope_error (c.context_export ctx response_label 32)
    plaintext ← ok_or envelope_error (c.context_open ctx (drop 32 (drop 7 body)) [])
    ok (
      plaintext,
      record {
        enc = take 32 (drop 7 body);
        secret = exported;
        secret_len = 32;
        seal = seal_response c confidential_suite;
      },
    )

  enc_length : 55 ≤ length body → length (take 32 (drop 7 body)) ≡ 32
  enc_length h = omega (arith, length-take 32 (drop 7 body), length-drop 7 body)

  short_not_enough : ltb (length body) 55 ≡ true → long_enough ≡ false
  unfolding long_enough
  short_not_enough h = ground arith

  enough_by_hdr :
      ltb (length body) 55 ≡ false → bytes_eq (take 7 body) confidential_suite.hdr ≡ long_enough
  unfolding long_enough
  enough_by_hdr h = ground arith

  -- The slices of a body that is long enough are in range.
  enc-fits : 55 ≤ length body → leb 32 (length (drop 7 body)) ≡ true
  enc-fits h = le→leb 32 (length (drop 7 body)) (omega (arith, length-drop 7 body))

  sealed-steps : ltb (length body) 55 ≡ false → open_sealed c confidential_suite sk_r body ≡ steps
  unfolding open_sealed request_info steps
  sealed-steps h =
      let long : 55 ≤ length body = ltb-false→le (length body) 55 h in
      simp (hdr-fits body h, enc-fits long, enc_length long, append-nil)

  long_of_enough : long_enough ≡ true → 55 ≤ length body
  unfolding long_enough
  long_of_enough h = ground arith

  hdr_of_enough : long_enough ≡ true → take 7 body ≡ confidential_suite.hdr
  unfolding long_enough
  hdr_of_enough h = bytes_eq→eq _ _ (and-true (leb 55 (length body)) _ h).1

  open-steps : open_request c sk_r body ≡ (if long_enough then steps else err envelope_error)
  unfolding open_request open_suite
  open-steps = elim (Bool-cases (ltb (length body) 55)) [
    | inl s ↦ rw (s, short_not_enough s) refl
    | inr s ↦ rw (s, hdr-fits body s) (rw (enough_by_hdr s) (rw (sealed-steps s) refl))
  ]

  steps_of_ok : {r : Bytes × ResponseContext} → open_request c sk_r body ≡ ok r → steps ≡ ok r
  steps_of_ok h = ground (arith, open-steps)

  enough_of_Opens :
      {plaintext : Bytes} {ctx : ResponseContext}
      → Opens c sk_r body plaintext ctx
      → long_enough ≡ true
  unfolding long_enough
  enough_of_Opens o = ground (arith, (bytes_eq_iff (take 7 body) confidential_suite.hdr).1 o.hdr)

  enough_of_ok :
      {r : Bytes × ResponseContext} → open_request c sk_r body ≡ ok r → long_enough ≡ true
  enough_of_ok h = ground (arith, open-steps)

  ok_pair-injective :
      {p p' : Bytes} {x x' : ResponseContext}
      → ◌≡◌ {A = Result (Bytes × ResponseContext) EnvelopeError} (ok (p, x)) (ok (p', x'))
      → (p ≡ p') × (x ≡ x')
  ok_pair-injective h = (cc, cc)

  -- `open_request` accepts exactly the requests that `Opens` describes.
  pub open_request-Opens :
      (plaintext : Bytes) (ctx : ResponseContext)
      → open_request c sk_r body ≡ ok (plaintext, ctx)
      → Opens c sk_r body plaintext ctx
  unfolding steps
  open_request-Opens plaintext ctx h =
      let e = enough_of_ok h in
      let (sk, sk_eq, h) =
        ok_or-bind envelope_error (c.private_key_from_bytes sk_r) _ (steps_of_ok h) in
      let (enc, enc_eq, h) =
        ok_or-bind envelope_error (c.encapped_key_from_bytes (take 32 (drop 7 body))) _ h in
      let (receiver, receiver_eq, h) =
        ok_or-bind envelope_error (c.setup_receiver aes_gcm_256 sk enc info_string) _ h in
      let (exported, exported_eq, h) =
        ok_or-bind envelope_error (c.context_export receiver response_label 32) _ h in
      let (opened, opened_eq, h) =
        ok_or-bind envelope_error (c.context_open receiver (drop 32 (drop 7 body)) []) _ h in
      let same = ok_pair-injective h in
      record {
        is_long = long_of_enough e;
        hdr = hdr_of_enough e;
        sk = sk;
        enc = enc;
        receiver = receiver;
        sk_eq = sk_eq;
        enc_eq = enc_eq;
        receiver_eq = receiver_eq;
        exported = exported_eq ∙ ap (λ r. some r.secret) same.1;
        opened = opened_eq ∙ ap some same.0;
        ctx_enc = ap (λ r. r.enc) (sym same.1);
        ctx_secret_len = ap (λ r. r.secret_len) (sym same.1);
        ctx_seal = ap (λ r. r.seal) (sym same.1);
      }

  pub Opens-open_request :
      (plaintext : Bytes) (ctx : ResponseContext)
      → Opens c sk_r body plaintext ctx
      → open_request c sk_r body ≡ ok (plaintext, ctx)
  unfolding steps
  Opens-open_request plaintext ctx o =
      rw (open-steps, enough_of_Opens o, o.sk_eq, o.enc_eq, o.receiver_eq, o.exported, o.opened)
        (ap (λ x. ok (plaintext, x))
          (λ i. record {
            enc = sym o.ctx_enc i;
            secret = ctx.secret;
            secret_len = sym o.ctx_secret_len i;
            seal = sym o.ctx_seal i;
          }))

  -- No request makes the sidecar panic: every index of the framing is in range.
  pub open_request-ne-panic : open_request c sk_r body ≢ panic
  unfolding steps
  open_request-ne-panic = rw open-steps (ground arith)

-- `open_request` accepts exactly the requests that `Opens` describes, with the plaintext and the
-- response context that it describes.
pub open_request_iff :
    (c : Crypto) (sk_r body plaintext : Bytes) (ctx : ResponseContext)
    → (open_request c sk_r body ≡ ok (plaintext, ctx)) ↔ Opens c sk_r body plaintext ctx
open_request_iff c sk_r body plaintext ctx =
    (open_request-Opens c sk_r body plaintext ctx, Opens-open_request c sk_r body plaintext ctx)
