-- ===== src/AuditChain/Crypto.antt =====
-- What anima/kernel/audit_chain.py takes from `json`, `hashlib` and `cryptography`: the canonical
-- encoding of a record, its digest and its signature under the key of the chain.
use anima.Prelude.{true, some, List, String, ℕ, Option, ◌≡◌, Bool}

-- A JSON object, in insertion order, over the JSON values `Json`.
abbrev pub Payload : Type 0 → Type 0
Payload Json = List (String × Json)

pub record Crypto : Type 1 where
  pub Json : Type 0
  pub text : String → Json
  -- `_canonical(seq, ts_ms, prev_hash, payload)`
  pub canonical : ℕ → ℕ → String → Payload Json → String
  -- `_hash_bytes`
  pub hash_bytes : String → String
  -- `_sign(private_key, data).hex()`, `bytes.fromhex`, and `_verify_sig(public_key, data, sig)`
  pub sign_hex : String → String
  pub fromhex : String → Option (List ℕ)
  pub verify_sig : String → List ℕ → Bool

-- A signature made with the private key is hexadecimal text and verifies under the public key.
pub record IsSigner (k : Crypto) : Type 0 where
  pub signed :
      (bytes : String)
      → (b : List ℕ) × (k.fromhex (k.sign_hex bytes) ≡ some b) × (k.verify_sig bytes b ≡ true)
