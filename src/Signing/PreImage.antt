-- ===== src/Signing/PreImage.antt =====
-- The layout of the canonical pre-image of src/signing.rs (`build_pre_image`).
use verifiable_rpc_sidecar.Prelude.{
  length, length-append, append-injective, Result, >>=-ok, Bytes, copy_into_step, IsU64,
  to_le_bytes, length-le_bytes, le_bytes-injective, ok, ℕ, ◌≡◌, refl, sym, ap, ◌∙◌, [], ◌++◌,
  append-nil, append_assoc, arith,
}
use verifiable_rpc_sidecar.Signing.{SigningError, build_pre_image}

-- The layout that the file's header documents.
abbrev pub layout : Bytes → Bytes → Bytes → ℕ → Bytes
layout chain_id_hash request_hash response_hash timestamp_ms =
    chain_id_hash ++ (request_hash ++ (response_hash ++ to_le_bytes timestamp_ms))

module _ (chain_id_hash request_hash response_hash : Bytes) (timestamp_ms : ℕ)
    (p : length chain_id_hash ≡ 32) (q : length request_hash ≡ 32)
    (r : length response_hash ≡ 32) where
  cq_length : length (chain_id_hash ++ request_hash) ≡ 64
  cq_length = omega (arith, length-append chain_id_hash request_hash)

  cqr_length : length ((chain_id_hash ++ request_hash) ++ response_hash) ≡ 96
  cqr_length = omega (arith, cq_length, length-append (chain_id_hash ++ request_hash) response_hash)

  filled :
      build_pre_image chain_id_hash request_hash response_hash timestamp_ms
      ≡ ok (layout chain_id_hash request_hash response_hash timestamp_ms)
  unfolding build_pre_image
  filled =
      let c = chain_id_hash in
      let cq = c ++ request_hash in
      let cqr = cq ++ response_hash in
      >>=-ok _ _ (copy_into_step [] c 0 32 32 72 refl p refl)
      ∙ >>=-ok _ _ (copy_into_step c request_hash 32 64 32 40 p q refl)
      ∙ >>=-ok _ _ (copy_into_step cq response_hash 64 96 32 8 cq_length r refl)
      ∙ copy_into_step cqr (to_le_bytes timestamp_ms) 96 104 8 0 cqr_length
          (length-le_bytes 8 timestamp_ms) refl
      ∙ ap ok (simp (append-nil, append_assoc))

  -- On three 32-byte hashes no copy panics, and the 104 bytes are the hashes in order and the
  -- timestamp's little-endian bytes.
  pub build_pre_image-layout :
      (build_pre_image chain_id_hash request_hash response_hash timestamp_ms
        ≡ ok (layout chain_id_hash request_hash response_hash timestamp_ms))
      × (length (layout chain_id_hash request_hash response_hash timestamp_ms) ≡ 104)
  build_pre_image-layout = (
    filled,
    omega (
      arith,
      length-append chain_id_hash (request_hash ++ (response_hash ++ to_le_bytes timestamp_ms)),
      length-append request_hash (response_hash ++ to_le_bytes timestamp_ms),
      length-append response_hash (to_le_bytes timestamp_ms),
      length-le_bytes 8 timestamp_ms,
    ),
  )

layout-injective :
    (c c' q q' r r' : Bytes) (t t' : ℕ)
    → length c ≡ 32
    → length c' ≡ 32
    → length q ≡ 32
    → length q' ≡ 32
    → length r ≡ 32
    → length r' ≡ 32
    → IsU64 t
    → IsU64 t'
    → layout c q r t ≡ layout c' q' r' t'
    → (c ≡ c') × (q ≡ q') × (r ≡ r') × (t ≡ t')
layout-injective c c' q q' r r' t t' hc hc' hq hq' hr hr' ht ht' h =
    let (ec, h1) = append-injective c c' (omega arith) h in
    let (eq, h2) = append-injective q q' (omega arith) h1 in
    let (er, h3) = append-injective r r' (omega arith) h2 in
    (ec, eq, er, le_bytes-injective 8 t t' (omega arith) (omega arith) h3)

-- Two pre-images of 32-byte hashes and u64 timestamps agree only if all four parts do: no byte of
-- one part can be read as a byte of another.
pub build_pre_image_injective :
    (c c' q q' r r' : Bytes) (t t' : ℕ)
    → length c ≡ 32
    → length c' ≡ 32
    → length q ≡ 32
    → length q' ≡ 32
    → length r ≡ 32
    → length r' ≡ 32
    → IsU64 t
    → IsU64 t'
    → build_pre_image c q r t ≡ build_pre_image c' q' r' t'
    → (c ≡ c') × (q ≡ q') × (r ≡ r') × (t ≡ t')
build_pre_image_injective c c' q q' r r' t t' hc hc' hq hq' hr hr' ht ht' h =
    layout-injective c c' q q' r r' t t' hc hc' hq hq' hr hr' ht ht' (
      ok-injective (
        sym (build_pre_image-layout c q r t hc hq hr).0
        ∙ h
        ∙ (build_pre_image-layout c' q' r' t' hc' hq' hr').0))
  where
    ok-injective : {a b : Bytes} → ◌≡◌ {A = Result Bytes SigningError} (ok a) (ok b) → a ≡ b
    ok-injective e = cc
