-- ===== src/Util.antt =====
-- src/util.rs
use verifiable_rpc_sidecar.Crates.Crypto.{Crypto}
use verifiable_rpc_sidecar.Prelude.{Bytes, Text, codes, ◌++◌}

-- `prefixed_hex`: `0x` and the lowercase hex of the bytes.
unfoldable pub prefixed_hex : Crypto → Bytes → Text
prefixed_hex c bytes = codes "0x" ++ c.hex_encode bytes
