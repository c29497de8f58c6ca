-- ===== src/Scanner/Hashes.antt =====
-- The hash of a symbol and the newlines of a source: remy-cc/scanner-core/src/hashes.rs.
pub mod Newlines
use remy_cc.Prelude.{
  ℕ, ◌+◌, ◌/◌, ◌%◌, Bool, true, false, not, ◌&&◌, ◌||◌, List, [], ◌∷◌, ◌++◌, Text, select_if,
  any_if, if◌then◌else◌, leb, ltb, ◌==◌,
}
use remy_cc.Scanner.Config.{is_whitespace}

unfoldable pub is_python_whitespace : ℕ → Bool
unfolding is_whitespace
is_python_whitespace c = is_whitespace c || (leb 28 c && leb c 31)

-- `as_bytes`, UTF-8
unfoldable pub bytes_of : ℕ → List ℕ
bytes_of c =
    if ltb c 128
    then c ∷ []
    else if ltb c 2048
    then (192 + c / 64) ∷ (128 + c % 64) ∷ []
    else if ltb c 65536
    then (224 + c / 4096) ∷ (128 + c / 64 % 64) ∷ (128 + c % 64) ∷ []
    else (240 + c / 262144) ∷ (128 + c / 4096 % 64) ∷ (128 + c / 64 % 64) ∷ (128 + c % 64) ∷ []

unfoldable pub as_bytes : Text → List ℕ
unfolding bytes_of
as_bytes [] = []
as_bytes (c ∷ cs) = bytes_of c ++ as_bytes cs

abbrev pub hex_digit : ℕ → ℕ
hex_digit n = if ltb n 10 then 48 + n else 87 + n

-- `{byte:02x}` for each byte.
unfoldable pub hex : List ℕ → Text
hex [] = []
hex (byte ∷ bytes) = hex_digit (byte / 16) ∷ hex_digit (byte % 16) ∷ hex bytes

-- `digest` is the MD5 of the crate `md5`.
unfoldable pub md5_hex : (List ℕ → List ℕ) → List ℕ → Text
unfolding hex
md5_hex digest bytes = hex (digest bytes)

unfoldable pub symbol_hash : (List ℕ → List ℕ) → Text → Text
unfolding select_if is_python_whitespace as_bytes md5_hex
symbol_hash digest hash_input =
    md5_hex digest (as_bytes (select_if (λ c. not (is_python_whitespace c)) hash_input))

unfoldable pub struct_hash : (List ℕ → List ℕ) → Text → Text
unfolding as_bytes md5_hex
struct_hash digest source = md5_hex digest (as_bytes source)

-- The loop, which looks one character ahead at a carriage return.
unfoldable pub translate_from : Text → Text
translate_from [] = []
translate_from (c ∷ []) = (if c == 13 then 10 else c) ∷ []
translate_from (c ∷ d ∷ cs) =
    let behind = translate_from cs in
    let next = translate_from (d ∷ cs) in
    if c == 13 then if d == 10 then 10 ∷ behind else 10 ∷ next else c ∷ next

unfoldable pub translate_newlines : Text → Text
unfolding any_if translate_from
translate_newlines text = if not (any_if (λ c. c == 13) text) then text else translate_from text
