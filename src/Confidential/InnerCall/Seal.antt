-- ===== src/Confidential/InnerCall/Seal.antt =====
-- `seal_inner` of src/confidential.rs: it never panics, and what a sealed body holds.
use mathlib.Core.List.{foldl}
use verifiable_rpc_sidecar.Crates.Bhttp.{Bhttp}
use verifiable_rpc_sidecar.Confidential.Inner.Encode.{concat}
use verifiable_rpc_sidecar.Envelope.{
  response_nonce_len, tag_len, EnvelopeError, ResponseContext, seal, seal_in_place, wipe_on_error,
}
use verifiable_rpc_sidecar.Confidential.Errors.{InnerError, OutcomeClass, class, status}
use verifiable_rpc_sidecar.Confidential.Inner.{
  Buffer, extend, count_write, encode_with_nonce, encode_response, error_response,
}
use verifiable_rpc_sidecar.Crates.Crypto.{Crypto, CryptoLaws}
use verifiable_rpc_sidecar.Confidential.InnerCall.{Sealed, seal_encoded, seal_inner}
use verifiable_rpc_sidecar.Envelope.Seal.{
  IsSealable, sealed_response, seal-sealed_response, seal_in_place-sealed_response, seal-ne-panic,
}
use verifiable_rpc_sidecar.Prelude.{
  Option-cases, length, first, Result, ◌>>=◌, ◌>>◌, ok_or, map_err, ok_or-bind, >>=-ok_inv,
  map_err-ok, ok-injective, FailsOnly, ok_or-FailsOnly, map_err-FailsOnly, >>=-FailsOnly,
  to_option-some, Bytes, checked_add, ok, err, panic, ℕ, ◌≡◌, refl, sym, ap, ◌∙◌, subst, ◌≢◌, inl,
  inr, false, none, some, List, [], ◌∷◌, ◌++◌, append-nil, append_assoc,
}

foldl-extend_bytes :
    (written : List Bytes) (buf : Buffer)
    → (foldl extend buf written).bytes ≡ buf.bytes ++ concat written
unfolding extend
foldl-extend_bytes [] buf = sym (append-nil _)
foldl-extend_bytes (c ∷ cs) buf =
    foldl-extend_bytes cs (extend buf c) ∙ append_assoc buf.bytes c (concat cs)

module _ (b : Bhttp) (msg : b.Message) (nonce : Bytes) (buf : Buffer) where
  -- What is encoded behind a nonce is the nonce and then the message.
  pub encode_with_nonce-bytes :
      encode_with_nonce b msg nonce ≡ some buf
      → (written : List Bytes) × (b.write_bhttp msg ≡ some written)
        × (buf.bytes ≡ nonce ++ concat written)
  unfolding encode_with_nonce extend
  encode_with_nonce-bytes e =
      let (first, e0, e1) =
        ok_or-bind {E = Unit {0}} tt (b.write_bhttp msg) _ (to_option-some _ e) in
      let (n, e2, e3) =
        ok_or-bind {E = Unit {0}} tt (checked_add response_nonce_len (foldl count_write 0 first)) _
          e1 in
      let (capacity, e4, e5) = ok_or-bind {E = Unit {0}} tt (checked_add n tag_len) _ e3 in
      let (written, e6, e7) = ok_or-bind {E = Unit {0}} tt (b.write_bhttp msg) _ e5 in
      let start : Buffer = record { bytes = []; capacity = capacity; moved = false } in
      (
        written,
        e6,
        sym (ap (λ x. x.bytes) (ok-injective e7)) ∙ foldl-extend_bytes written (extend start nonce),
      )

-- What a sealed body holds for the result of an inner call, with the class and the inner status:
-- the encoding of the upstream's answer, or of the error.
pub data Replies (b : Bhttp) (nonce : Bytes) (result : Result (ℕ × b.Message) InnerError)
    : OutcomeClass → ℕ → Bytes → Type 0 where
  relayed :
      (code : ℕ) (msg : b.Message) (written : List Bytes)
      → result ≡ ok (code, msg)
      → b.write_bhttp msg ≡ some written
      → Replies b nonce result OutcomeClass.success code (concat written)
  refused :
      (e : InnerError) (encoded : Bytes)
      → result ≡ err e
      → encode_response b (error_response e) ≡ some encoded
      → Replies b nonce result (class e) (status e) encoded
  unencodable :
      (code : ℕ) (msg : b.Message) (encoded : Bytes)
      → result ≡ ok (code, msg)
      → encode_with_nonce b msg nonce ≡ none
      → encode_response b (error_response InnerError.internal) ≡ some encoded
      → Replies b nonce result (class InnerError.internal) (status InnerError.internal) encoded

module _ (c : Crypto) (laws : CryptoLaws c) (b : Bhttp) (ctx : ResponseContext)
    (s : IsSealable c ctx) (nonce : Bytes) (n : length nonce ≡ 32) where
  -- A buffer that holds the nonce and a plaintext is sealed in place as `seal` seals the plaintext.
  sealed_in_place :
      (plain : Bytes) (k : Bytes → Sealed)
      → (map_err {F = Unit {0}} (λ e. tt) (seal_in_place ctx (nonce ++ plain)).0
          >> ok (k (seal_in_place ctx (nonce ++ plain)).1))
        ≡ (map_err (λ e. tt) (seal ctx nonce plain) >>= λ body. ok (k body))
  sealed_in_place plain k =
      rw
        (
          seal_in_place-sealed_response c laws ctx s nonce plain n,
          seal-sealed_response c laws ctx s nonce plain n,
        )
        (by_formula (sealed_response c ctx.enc ctx.secret nonce plain))
    where
      by_formula :
          (r : Result Bytes EnvelopeError)
          → (map_err {F = Unit {0}} (λ e. tt) (wipe_on_error r (nonce ++ plain)).0
              >> ok (k (wipe_on_error r (nonce ++ plain)).1))
            ≡ (map_err (λ e. tt) r >>= λ body. ok (k body))
      by_formula (ok out) = refl
      by_formula (err e) = refl
      by_formula panic = refl

  abbrev AnyError : Unit {0} → Type 0
  AnyError e = Unit

  abbrev relayed_as : ℕ → Bytes → Sealed
  relayed_as code body = record { class = OutcomeClass.success; inner_status = code; body = body }

  abbrev refused_as : InnerError → Bytes → Sealed
  refused_as e body = record { class = class e; inner_status = status e; body = body }

  -- Both branches of `seal_inner`, in terms of `seal`.
  relayed-seal :
      (code : ℕ) (msg : b.Message) (buf : Buffer) (written : List Bytes)
      → buf.bytes ≡ nonce ++ concat written
      → seal_encoded b ctx nonce (ok (code, buf)) ≡ (
          map_err (λ e. tt) (seal ctx nonce (concat written)) >>= λ body. ok (relayed_as code body))
  relayed-seal code msg buf written e = rw e (sealed_in_place (concat written) (relayed_as code))

  -- A reply that was sealed, with the class and the inner status of the reply.
  abbrev pub IsSealedReply : Result (ℕ × b.Message) InnerError → Sealed → Type 0
  IsSealedReply result sealed =
      (plain : Bytes) × Replies b nonce result sealed.class sealed.inner_status plain
      × (seal ctx nonce plain ≡ ok sealed.body)

  seal_plain :
      (plain : Bytes) (k : Bytes → Sealed) (sealed : Sealed)
      → (map_err {F = Unit {0}} (λ e. tt) (seal ctx nonce plain) >>= λ body. ok (k body))
        ≡ ok sealed
      → (body : Bytes) × (seal ctx nonce plain ≡ ok body) × (k body ≡ sealed)
  seal_plain plain k sealed h =
      let (body, done, made) =
        >>=-ok_inv (map_err {F = Unit {0}} (λ e. tt) (seal ctx nonce plain)) _ h in
      (body, map_err-ok _ _ done, ok-injective made)

  refused-IsSealedReply :
      (result : Result (ℕ × b.Message) InnerError) (e : InnerError) (sealed : Sealed)
      → ((encoded : Bytes)
          → encode_response b (error_response e) ≡ some encoded
          → Replies b nonce result (class e) (status e) encoded)
      → seal_encoded b ctx nonce (err e) ≡ ok sealed
      → IsSealedReply result sealed
  unfolding error_response
  refused-IsSealedReply result e sealed reply h =
      let (encoded, written, h) =
        ok_or-bind {E = Unit {0}} tt (encode_response b (error_response e)) _ h in
      let (body, done, made) = seal_plain encoded (refused_as e) sealed h in
      subst (IsSealedReply result) made (encoded, reply encoded written, done)

  -- A sealed body is a sealed reply to the result of the inner call.
  pub seal_inner-IsSealedReply :
      (result : Result (ℕ × b.Message) InnerError) (sealed : Sealed)
      → seal_inner b ctx nonce result ≡ ok sealed
      → IsSealedReply result sealed
  unfolding seal_inner
  seal_inner-IsSealedReply (ok (code, msg)) sealed h =
      elim (Option-cases (encode_with_nonce b msg nonce)) [
        | inl e ↦
            refused-IsSealedReply (ok (code, msg)) InnerError.internal sealed
              (λ encoded w. unencodable code msg encoded refl e w) (rw e at h)
        | inr (buf, e) ↦
            let (written, w, bytes) = encode_with_nonce-bytes b msg nonce buf e in
            let (body, done, made) =
              seal_plain (concat written) (relayed_as code) sealed
                (sym (relayed-seal code msg buf written bytes) ∙ (rw e at h)) in
            subst (IsSealedReply (ok (code, msg))) made
              (concat written, relayed code msg written refl w, done)
      ]
  seal_inner-IsSealedReply (err e) sealed h =
      refused-IsSealedReply (err e) e sealed (λ encoded w. refused e encoded refl w) h
  seal_inner-IsSealedReply panic sealed h = cc

  sealed-FailsOnly :
      (plain : Bytes) (k : Bytes → Sealed)
      → FailsOnly AnyError
          (map_err {F = Unit {0}} (λ e. tt) (seal ctx nonce plain) >>= λ body. ok (k body))
  sealed-FailsOnly plain k =
      >>=-FailsOnly AnyError (map_err {F = Unit {0}} (λ e. tt) (seal ctx nonce plain)) _
        (map_err-FailsOnly AnyError _ (seal ctx nonce plain)
          (seal-ne-panic c laws ctx s nonce plain n) λ e. tt)
        λ body e. tt

  refused-FailsOnly : (e : InnerError) → FailsOnly AnyError (seal_encoded b ctx nonce (err e))
  unfolding error_response
  refused-FailsOnly e =
      >>=-FailsOnly AnyError (ok_or tt (encode_response b (error_response e))) _
        (ok_or-FailsOnly AnyError _ (encode_response b (error_response e)) tt)
        λ encoded w. sealed-FailsOnly encoded (refused_as e)

  -- Sealing a result that is no panic never panics.
  pub seal_inner-FailsOnly :
      (result : Result (ℕ × b.Message) InnerError)
      → result ≢ panic
      → FailsOnly (λ e. Unit) (seal_inner b ctx nonce result)
  unfolding seal_inner
  seal_inner-FailsOnly (ok (code, msg)) p = elim (Option-cases (encode_with_nonce b msg nonce)) [
    | inl e ↦ rw e (refused-FailsOnly InnerError.internal)
    | inr (buf, e) ↦
        let (written, w, bytes) = encode_with_nonce-bytes b msg nonce buf e in
        rw e (
          subst (FailsOnly AnyError) (sym (relayed-seal code msg buf written bytes))
            (sealed-FailsOnly (concat written) (relayed_as code)))
  ]
  seal_inner-FailsOnly (err e) p = refused-FailsOnly e
  seal_inner-FailsOnly panic p = absurd (p refl)
