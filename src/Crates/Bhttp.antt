-- ===== src/Crates/Bhttp.antt =====
-- The crate `bhttp` (Binary HTTP, RFC 9292), as src/confidential/inner.rs and
-- src/confidential/upstream.rs call it.
use verifiable_rpc_sidecar.Prelude.{ℕ, ◌≡◌, Option, List, [], ◌∷◌, ◌++◌, Bytes}

pub record Bhttp : Type 1 where
  pub Message : Type 0
  pub read_bhttp : Bytes → Option Message
  -- `control().method()`, `control().path()`
  pub control_method : Message → Option Bytes
  pub control_path : Message → Option Bytes
  -- `header().iter()`: name and value of each field
  pub header : Message → List (Bytes × Bytes)
  pub content : Message → Bytes
  -- `StatusCode::try_from`
  pub status_code : ℕ → Option ℕ
  pub response : ℕ → Message
  pub put_header : Message → Bytes → Bytes → Message
  pub write_content : Message → Bytes → Message
  -- `write_bhttp(Mode::KnownLength, w)`: the buffers handed to the writer in turn, or the error of
  -- a message that has no encoding
  pub write_bhttp : Message → Option (List Bytes)

pub record BhttpLaws (b : Bhttp) : Type 0 where
  pub header-response : (s : ℕ) → b.header (b.response s) ≡ []
  pub content-response : (s : ℕ) → b.content (b.response s) ≡ []
  pub header-put_header :
      (m : b.Message) (name value : Bytes)
      → b.header (b.put_header m name value) ≡ b.header m ++ (name, value) ∷ []
  pub content-put_header :
      (m : b.Message) (name value : Bytes) → b.content (b.put_header m name value) ≡ b.content m
  pub header-write_content :
      (m : b.Message) (d : Bytes) → b.header (b.write_content m d) ≡ b.header m
  pub content-write_content :
      (m : b.Message) (d : Bytes) → b.content (b.write_content m d) ≡ b.content m ++ d
