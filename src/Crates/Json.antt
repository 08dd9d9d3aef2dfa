-- ===== src/Crates/Json.antt =====
-- The crates `serde` and `serde_json`: a sequence access, and the call that opens one.
use verifiable_rpc_sidecar.Prelude.{ℕ, ◌<◌, ◌≡◌, Option, none, some, suc, Bytes}

-- `SeqAccess::next_element::<IgnoredAny>()`
pub data Next (A : Type 0) : Type 0 where
  next_element : A → Next A
  end_of_seq : Next A
  next_error : Next A

pub record Json : Type 1 where
  pub SeqAccess : Type 0
  pub next : SeqAccess → Next SeqAccess
  -- `Deserializer::from_slice(body).deserialize_seq(visitor)`, given the visitor's `visit_seq`
  pub deserialize_seq : Bytes → (SeqAccess → Option ℕ) → Option ℕ
  -- the access that the call hands to the visitor, if the body is an array's beginning to it
  pub access : Bytes → Option SeqAccess
  -- the bytes that a sequence access has not read
  pub unread : SeqAccess → ℕ

-- A sequence access that yields `n` elements and then the end.
pub data Yields (j : Json) : j.SeqAccess → ℕ → Type 0 where
  ends : (a : j.SeqAccess) → j.next a ≡ end_of_seq → Yields j a 0
  element :
      (a b : j.SeqAccess) (n : ℕ) → j.next a ≡ next_element b → Yields j b n → Yields j a (suc n)

pub record JsonLaws (j : Json) : Type 0 where
  -- an element is one byte at least
  pub next-reads : (a a' : j.SeqAccess) → j.next a ≡ next_element a' → j.unread a' < j.unread a
  -- without an access the call fails
  pub deserialize_seq-none :
      (body : Bytes) (visit : j.SeqAccess → Option ℕ)
      → j.access body ≡ none
      → j.deserialize_seq body visit ≡ none
  -- it fails when the visitor does
  pub deserialize_seq-fails :
      (body : Bytes) (visit : j.SeqAccess → Option ℕ) (a : j.SeqAccess)
      → j.access body ≡ some a
      → visit a ≡ none
      → j.deserialize_seq body visit ≡ none
  -- where the sequence is there to its end, the result is the visitor's
  pub deserialize_seq-visits :
      (body : Bytes) (visit : j.SeqAccess → Option ℕ) (a : j.SeqAccess) (n : ℕ)
      → j.access body ≡ some a
      → Yields j a n
      → j.deserialize_seq body visit ≡ visit a
