-- ===== src/Hex/Tests.antt =====
-- The hex conversions on concrete texts.
use matterbridge.Base.{ℕ, ◌≡◌, refl, List, [], ◌∷◌, arith, length, ok, err, trim}
use matterbridge.Hex.{
  odd_length, not_hex, byte_to_hex, buffer_to_hex, is_hex, all_hex, hex_value, hex_pairs,
  hex_to_buffer,
}
use matterbridge.Hex.Laws.{hex_to_buffer-buffer_to_hex}

conversions : Unit {0}
unfolding byte_to_hex buffer_to_hex is_hex all_hex hex_value hex_pairs hex_to_buffer trim
conversions = tt

-- " 0aFf\n"
abbrev spaced : List ℕ
spaced = 32 ∷ 48 ∷ 97 ∷ 70 ∷ 102 ∷ 10 ∷ []

hex_to_buffer-spaced : hex_to_buffer spaced ≡ ok (10 ∷ 255 ∷ [])
unfolding conversions
hex_to_buffer-spaced = refl

hex_to_buffer_odd : hex_to_buffer (48 ∷ []) ≡ err odd_length
unfolding conversions
hex_to_buffer_odd = refl

hex_to_buffer_bad : hex_to_buffer (48 ∷ 103 ∷ []) ≡ err not_hex
unfolding conversions
hex_to_buffer_bad = refl

hex_to_buffer-buffer_to_hex_example :
    (hex_to_buffer (buffer_to_hex (10 ∷ 255 ∷ [])) ≡ ok (10 ∷ 255 ∷ []))
    × (length (buffer_to_hex (10 ∷ 255 ∷ [])) ≡ 4)
hex_to_buffer-buffer_to_hex_example = hex_to_buffer-buffer_to_hex (10 ∷ 255 ∷ []) (omega arith)
