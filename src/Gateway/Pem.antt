-- ===== src/Gateway/Pem.antt =====
-- gateway/src/pem.rs: DER of Ed25519 keys, and PEM armor. Base64 is a library's: its encoder is an
-- argument. A byte is a number, and a text its code points.
pub mod RoundTrip
use rust_web_fullstack.Prelude.{
  ℕ, zero, suc, ◌+◌, ◌-◌, ltb, min, length, take, drop, Text, codes, List, [], ◌∷◌, ◌++◌,
  if◌then◌else◌,
}

unfoldable pub ed25519_pkcs8_der : List ℕ → List ℕ
ed25519_pkcs8_der seed =
    0x30 ∷ 0x2e ∷ 0x02 ∷ 0x01 ∷ 0x00 ∷ 0x30 ∷ 0x05 ∷ 0x06 ∷ 0x03 ∷ 0x2b ∷ 0x65 ∷ 0x70 ∷ 0x04 ∷ 0x22
    ∷ 0x04 ∷ 0x20 ∷ seed

unfoldable pub ed25519_spki_der : List ℕ → List ℕ
ed25519_spki_der public_key =
    0x30 ∷ 0x2a ∷ 0x30 ∷ 0x05 ∷ 0x06 ∷ 0x03 ∷ 0x2b ∷ 0x65 ∷ 0x70 ∷ 0x03 ∷ 0x21 ∷ 0x00 ∷ public_key

abbrev pub newline : ℕ
newline = 0xa

unfoldable pub begin_line : Text → Text
begin_line label = codes "-----BEGIN " ++ label ++ codes "-----\n"

end_line : Text → Text
end_line label = codes "-----END " ++ label ++ codes "-----\n"

-- What the loop pushes from `pos` on. Each round moves on by a character at least.
push_lines : ℕ → Text → ℕ → Text
push_lines zero b64 pos = []
push_lines (suc fuel) b64 pos =
    let end = min (pos + 64) (length b64) in
    let rest = push_lines fuel b64 end in
    if ltb pos (length b64) then take (end - pos) (drop pos b64) ++ newline ∷ rest else []

module _ (base64_encode : List ℕ → Text) where
  unfoldable pub pem_encode : Text → List ℕ → Text
  unfolding push_lines begin_line end_line
  pem_encode label der =
      let b64 = base64_encode der in
      begin_line label ++ push_lines (length b64) b64 0 ++ end_line label
