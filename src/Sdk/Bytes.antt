-- ===== src/Sdk/Bytes.antt =====
-- `encodeBytes`: a value is bytes or a text, and a text is sent as UTF-8.
-- Code: sdk/typescript/src/index.ts. A text is a sequence of Unicode scalar values: a text with a lone
-- surrogate, for which `TextEncoder` sends U+FFFD, is left out.
pub mod Utf8
use Prim.Native.Char.{code}
use Prim.Native.String
use pgapp.Common.{ℕ, ◌+◌, ◌/◌, ◌%◌, String, List, [], ◌∷◌, ◌++◌, ltb, if◌then◌else◌}
use pgapp.Wire.{Bytes}

-- `Uint8Array | string`.
pub data Value : Type 0 where
  bytes : Bytes → Value
  text : String → Value

-- `new TextEncoder().encode(value)`, one scalar value at a time.
unfoldable pub utf8_code : ℕ → Bytes
utf8_code c =
    if ltb c 0x80
    then c ∷ []
    else if ltb c 0x800
    then (0xc0 + c / 64) ∷ (0x80 + c % 64) ∷ []
    else if ltb c 0x10000
    then (0xe0 + c / 4096) ∷ (0x80 + c / 64 % 64) ∷ (0x80 + c % 64) ∷ []
    else (0xf0 + c / 262144) ∷ (0x80 + c / 4096 % 64) ∷ (0x80 + c / 64 % 64) ∷ (0x80 + c % 64) ∷ []

unfoldable pub utf8 : String → Bytes
unfolding utf8_code
utf8 String.[] = []
utf8 (String.◌∷◌ c s) = utf8_code (code c) ++ utf8 s

unfoldable pub encode_bytes : Value → Bytes
unfolding utf8
encode_bytes (bytes b) = b
encode_bytes (text s) = utf8 s
