-- ===== src/Crates/Samples/PlainCrypto.antt =====
-- A `Crypto` that computes and has the laws, with no secrecy: a hash is a padded copy, a signature
-- the key and a sum of the message, and encryption leaves the text as it is. Hex is real.
use verifiable_rpc_sidecar.Crates.Crypto.{Crypto, CryptoLaws}
use verifiable_rpc_sidecar.Prelude.{
  ltb, leb, if◌then◌else◌, length, take, replicate, length-append, length-take, length-replicate,
  All, All-append, take-append_of_length, Bytes, IsByte, AreBytes, bytes_eq, bytes_eq_refl, zeros,
  Text, ℕ, zero, suc, ◌+◌, ◌-◌, ◌*◌, ◌/◌, ◌%◌, ◌<◌, ◌≡◌, refl, sym, ap, subst, ◌&&◌, Option, none,
  some, [], ◌∷◌, ◌++◌, arith,
}

-- Each number modulo 256.
abbrev low_bytes : Bytes → Bytes
low_bytes [] = []
low_bytes (b ∷ bs) = (b % 256) ∷ low_bytes bs

abbrev pad : ℕ → Bytes → Bytes
pad n m = take n (low_bytes m ++ zeros n)

low_bytes-AreBytes : (m : Bytes) → AreBytes (low_bytes m)
low_bytes-AreBytes [] = tt
low_bytes-AreBytes (b ∷ bs) = (omega arith, low_bytes-AreBytes bs)

zeros-AreBytes : (n : ℕ) → AreBytes (zeros n)
zeros-AreBytes zero = tt
zeros-AreBytes (suc n) = (omega arith, zeros-AreBytes n)

take-AreBytes : (n : ℕ) (m : Bytes) → AreBytes m → AreBytes (take n m)
take-AreBytes zero m h = tt
take-AreBytes (suc n) [] h = tt
take-AreBytes (suc n) (b ∷ bs) h = (h.0, take-AreBytes n bs h.1)

pad-AreBytes : (n : ℕ) (m : Bytes) → AreBytes (pad n m)
pad-AreBytes n m =
    take-AreBytes n _
      (All-append IsByte (low_bytes m) (zeros n) (low_bytes-AreBytes m) (zeros-AreBytes n))

length-pad : (n : ℕ) (m : Bytes) → length (pad n m) ≡ n
length-pad n m = omega (
  arith,
  length-take n (low_bytes m ++ zeros n),
  length-append (low_bytes m) (zeros n),
  length-replicate n (zero),
)

-- The sum of the bytes, modulo 256.
abbrev checksum : Bytes → ℕ
checksum [] = 0
checksum (b ∷ bs) = (b + checksum bs) % 256

abbrev hex_digit : ℕ → ℕ
hex_digit d = if ltb d 10 then b'0' + d else b'a' + d - 10

abbrev hex_value : ℕ → Option ℕ
hex_value c =
    if leb b'0' c && leb c b'9'
    then some (c - b'0')
    else if leb b'a' c && leb c b'f'
    then some (c - b'a' + 10)
    else if leb b'A' c && leb c b'F'
    then some (c - b'A' + 10)
    else none

abbrev hex_encode : Bytes → Text
hex_encode [] = []
hex_encode (b ∷ bs) = hex_digit (b / 16) ∷ hex_digit (b % 16) ∷ hex_encode bs

abbrev hex_pair : Option ℕ → Option ℕ → Option Bytes → Option Bytes
hex_pair (some a) (some b) (some bs) = some ((a * 16 + b) ∷ bs)
hex_pair _ _ _ = none

abbrev hex_decode : Text → Option Bytes
hex_decode [] = some []
hex_decode (a ∷ []) = none
hex_decode (a ∷ b ∷ cs) = hex_pair (hex_value a) (hex_value b) (hex_decode cs)

hex_value-hex_digit : (d : ℕ) → d < 16 → hex_value (hex_digit d) ≡ some d
hex_value-hex_digit d h = ground arith

hex_decode-encode : (b : Bytes) → AreBytes b → hex_decode (hex_encode b) ≡ some b
hex_decode-encode [] h = refl
hex_decode-encode (b ∷ bs) h =
    rw
      (
        hex_value-hex_digit (b / 16) (omega arith),
        hex_value-hex_digit (b % 16) (omega arith),
        hex_decode-encode bs h.1,
      )
      (ap (λ (x : ℕ). some (x ∷ bs)) (omega arith))

length-hex_encode : (b : Bytes) → length (hex_encode b) ≡ 2 * length b
length-hex_encode [] = omega arith
length-hex_encode (b ∷ bs) = omega (arith, length-hex_encode bs)

hex_encode-ascii : (b : Bytes) → AreBytes b → All (λ d. d < 0x80) (hex_encode b)
hex_encode-ascii [] h = tt
hex_encode-ascii (b ∷ bs) h = (
  digit-ascii (b / 16) (omega arith),
  (digit-ascii (b % 16) (omega arith), hex_encode-ascii bs h.1),
)
  where
    digit-ascii : (d : ℕ) → d < 16 → hex_digit d < 0x80
    digit-ascii d k = ground arith

some-length : {a b : Bytes} {n : ℕ} → some a ≡ some b → length a ≡ n → length b ≡ n
some-length {a} {b} {n} p q = subst (λ x. length x ≡ n) (some-eq p) q
  where
    some-eq : {x y : Bytes} → some x ≡ some y → x ≡ y
    some-eq h = cc

some_pair-injective :
    {a b x y : Bytes}
    → ◌≡◌ {A = Option (Bytes × Bytes)} (some (a, x)) (some (b, y))
    → (a ≡ b) × (x ≡ y)
some_pair-injective h = (cc, cc)

length-encrypted :
    (m ct tag : Bytes)
    → ◌≡◌ {A = Option (Bytes × Bytes)} (some (m, replicate 16 1)) (some (ct, tag))
    → (length ct ≡ length m) × (length tag ≡ 16)
length-encrypted m ct tag h =
    let (p, q) = some_pair-injective h in (ap length (sym p), ap length (sym q))

cut-padded : (m : Bytes) → take (length (m ++ zeros 16) - 16) (m ++ zeros 16) ≡ m
cut-padded m =
    take-append_of_length m (zeros 16) (length (m ++ zeros 16) - 16)
      (omega (arith, length-append m (zeros 16)))

abbrev pub plain_crypto : Crypto
plain_crypto = record {
  sha256 = pad 32;
  verifying_key = pad 32;
  ed25519_sign = λ seed m. pad 64 (pad 32 seed ++ (checksum m ∷ []));
  ed25519_verify = λ pk m s. bytes_eq s (pad 64 (pk ++ (checksum m ∷ [])));
  to_scalar_bytes = λ seed. replicate 32 0xff;
  to_montgomery = λ seed. 0xf8 ∷ (replicate 30 0xff ++ 0x7f ∷ []);
  PrivateKey = Bytes;
  EncappedKey = Bytes;
  ReceiverContext = Bytes;
  private_key_from_bytes = some;
  sk_to_pk = λ sk. sk;
  encapped_key_from_bytes = some;
  setup_receiver = λ a sk e info. some e;
  context_export = λ x label n. some (zeros n);
  context_open = λ x ct aad. some (take (length ct - 16) ct);
  sender_enc = λ a pk info rnd. zeros 32;
  sender_seal = λ a pk info rnd m. m ++ zeros 16;
  sender_export = λ a pk info rnd label n. zeros n;
  hkdf_expand = λ salt ikm label n. some (zeros n);
  Cipher = Bytes;
  key_size = λ a. 32;
  cipher_from_slice = λ a k. some k;
  nonce_from_slice = λ a n. some n;
  encrypt_detached = λ k n aad m. some (m, replicate 16 1);
  decrypt_detached = λ k n aad ct tag. some ct;
  hex_encode = hex_encode;
  hex_decode = hex_decode;
}

pub plain_crypto-laws : CryptoLaws plain_crypto
plain_crypto-laws = record {
  length-sha256 = length-pad 32;
  length-verifying_key = length-pad 32;
  length-ed25519_sign = λ seed m. length-pad 64 (pad 32 seed ++ (checksum m ∷ []));
  verify-sign = λ seed m. bytes_eq_refl (pad 64 (pad 32 seed ++ (checksum m ∷ [])));
  verifying_key-AreBytes = pad-AreBytes 32;
  ed25519_sign-AreBytes = λ seed m. pad-AreBytes 64 (pad 32 seed ++ (checksum m ∷ []));
  length-to_scalar_bytes = λ seed. refl;
  to_scalar_bytes-AreBytes = λ seed. omega arith;
  length-context_export = λ x label n out h. some-length h (length-replicate n zero);
  length-hkdf_expand = λ salt ikm label n out h. some-length h (length-replicate n zero);
  length-encrypt_detached = λ k nonce aad m ct tag h. length-encrypted m ct tag h;
  length-sender_enc = λ a pk info rnd. refl;
  length-sender_seal = λ a pk info rnd m. length-append m (zeros 16);
  length-sender_export = λ a pk info rnd label n. length-replicate n zero;
  receiver-opens = λ a sk info rnd.
      (zeros 32, zeros 32, refl, refl, λ m. ap some (cut-padded m), λ label n. refl);
  decrypt-encrypt = λ k nonce aad m ct tag h. ap some (sym (some_pair-injective h).0);
  key_size-aes_gcm_256 = refl;
  hex_decode-encode = hex_decode-encode;
  length-hex_encode = length-hex_encode;
  hex_encode-ascii = hex_encode-ascii;
}
