-- ===== src/Confidential/Inner/Batch.antt =====
-- `batch_size` of src/confidential/inner.rs: the loop over the elements ends, and what it counts.
use verifiable_rpc_sidecar.Crates.Json.{
  Json, JsonLaws, Yields, ends, element, Next, next_element, end_of_seq, next_error,
}
use verifiable_rpc_sidecar.Confidential.Inner.{
  visit_seq, count_elements, at_least_one, is_json_space, opens_array, batch_size,
}
use verifiable_rpc_sidecar.Prelude.{
  Bool-cases, Option-cases, true, false, find, Bytes, ok, err, ℕ, zero, suc, ◌+◌, ◌≤◌, ◌<◌, ◌≡◌,
  refl, ap, ◌∙◌, ◌⊎◌, inl, inr, not, Option, none, some, arith,
}

module _ (j : Json) where
  -- A sequence access that meets an error.
  pub data Breaks : j.SeqAccess → Type 0 where
    breaks : (a : j.SeqAccess) → j.next a ≡ next_error → Breaks a
    later : (a b : j.SeqAccess) → j.next a ≡ next_element b → Breaks b → Breaks a

module _ (j : Json) (laws : JsonLaws j) where
  visit_seq-element :
      (fuel : ℕ) (a b : j.SeqAccess) (n : ℕ)
      → j.next a ≡ next_element b
      → visit_seq j (suc fuel) a n ≡ visit_seq j fuel b (n + 1)
  unfolding visit_seq
  visit_seq-element fuel a b n e = rw (e, visit_seq) refl

  visit_seq-end :
      (fuel : ℕ) (a : j.SeqAccess) (n : ℕ)
      → j.next a ≡ end_of_seq
      → visit_seq j (suc fuel) a n ≡ ok n
  unfolding visit_seq
  visit_seq-end fuel a n e = rw (e, visit_seq) refl

  visit_seq-error :
      (fuel : ℕ) (a : j.SeqAccess) (n : ℕ)
      → j.next a ≡ next_error
      → visit_seq j (suc fuel) a n ≡ err tt
  unfolding visit_seq
  visit_seq-error fuel a n e = rw (e, visit_seq) refl

  -- Fuel above the unread bytes is enough: the loop counts the elements from `n` on, or meets an
  -- error.
  visit_seq-ends :
      (fuel : ℕ) (a : j.SeqAccess) (n : ℕ)
      → j.unread a < fuel
      → ((k : ℕ) × Yields j a k × (visit_seq j fuel a n ≡ ok (n + k)))
        ⊎ (Breaks j a × (visit_seq j fuel a n ≡ err tt))
  visit_seq-ends zero a n h = absurd (omega arith)
  visit_seq-ends (suc fuel) a n h = by_next (j.next a) refl (λ b. visit_seq-ends fuel b (n + 1))
    where
      by_next :
          (r : Next j.SeqAccess)
          → j.next a ≡ r
          → ((b : j.SeqAccess)
              → j.unread b < fuel
              → ((k : ℕ) × Yields j b k × (visit_seq j fuel b (n + 1) ≡ ok (n + 1 + k)))
                ⊎ (Breaks j b × (visit_seq j fuel b (n + 1) ≡ err tt)))
          → ((k : ℕ) × Yields j a k × (visit_seq j (suc fuel) a n ≡ ok (n + k)))
            ⊎ (Breaks j a × (visit_seq j (suc fuel) a n ≡ err tt))
      by_next end_of_seq e rec = inl (0, ends a e, visit_seq-end fuel a n e ∙ ap ok (omega arith))
      by_next next_error e rec = inr (breaks a e, visit_seq-error fuel a n e)
      by_next (next_element b) e rec = elim (rec b (omega (arith, laws.next-reads a b e))) [
        | inl (k, y, v) ↦
            inl (suc k, element a b k e y, visit_seq-element fuel a b n e ∙ v ∙ ap ok (omega arith))
        | inr (y, v) ↦ inr (later a b e y, visit_seq-element fuel a b n e ∙ v)
      ]

  -- Why a body counts as one call: its first byte but for spaces does not open an array, no access
  -- is opened, or an error comes before the end.
  pub data IsOther (body : Bytes) : Type 0 where
    no_array : opens_array (find (λ b. not (is_json_space b)) body) ≡ false → IsOther body
    no_access : j.access body ≡ none → IsOther body
    broken : (a : j.SeqAccess) → j.access body ≡ some a → Breaks j a → IsOther body

  -- A body that opens an array and is read to its end.
  pub record IsArrayOf (body : Bytes) (k : ℕ) : Type 0 where
    pub opens : opens_array (find (λ b. not (is_json_space b)) body) ≡ true
    pub access : j.SeqAccess
    pub accessed : j.access body ≡ some access
    pub yields : Yields j access k

  count_elements-ends :
      (a : j.SeqAccess)
      → ((k : ℕ) × Yields j a k × (count_elements j a ≡ some k))
        ⊎ (Breaks j a × (count_elements j a ≡ none))
  count_elements-ends a = elim (visit_seq-ends (suc (j.unread a)) a 0 (omega arith)) [
    | inl (k, y, v) ↦ inl (k, y, rw v (ap some {x = 0 + k} {y = k} (omega arith)))
    | inr (y, v) ↦ inr (y, rw v refl)
  ]

  -- What a body counts as: the elements of its array, one at least, if it opens one that is read to
  -- its end; and one for any other body.
  pub batch_size_lem :
      (body : Bytes)
      → ((k : ℕ) × IsArrayOf body k × (batch_size j body ≡ at_least_one (some k)))
        ⊎ (IsOther body × (batch_size j body ≡ 1))
  unfolding batch_size
  batch_size_lem body = elim (Bool-cases (opens_array (find (λ b. not (is_json_space b)) body))) [
    | inr t ↦ inr (no_array t, rw t refl)
    | inl t ↦ elim (Option-cases (j.access body)) [
      | inl e ↦
          inr (no_access e, rw t (rw (laws.deserialize_seq-none body (count_elements j) e) refl))
      | inr (a, e) ↦ elim (count_elements-ends a) [
        | inl (k, y, v) ↦ inl (
          k,
          record { opens = t; access = a; accessed = e; yields = y },
          rw t (rw (laws.deserialize_seq-visits body (count_elements j) a k e y ∙ v) refl),
        )
        | inr (y, v) ↦ inr (
          broken a e y,
          rw t (rw (laws.deserialize_seq-fails body (count_elements j) a e v) refl),
        )
      ]
    ]
  ]

  at_least_one-pos : (o : Option ℕ) → 1 ≤ at_least_one o
  at_least_one-pos none = omega arith
  at_least_one-pos (some zero) = omega arith
  at_least_one-pos (some (suc n)) = omega arith

  -- A batch counts as one call at least.
  pub batch_size-pos : (body : Bytes) → 1 ≤ batch_size j body
  batch_size-pos body = elim (batch_size_lem body) [
    | inl (k, v, e) ↦ rw e (at_least_one-pos (some k))
    | inr (v, e) ↦ rw e (omega arith)
  ]
