-- ===== src/Auth/Token/Hex.antt =====
-- Hashes are compared by their hexadecimal text: `hex` of token.rs loses nothing.
use mandrake.Common.{ℕ, ◌/◌, ◌%◌, ◌<◌, ◌≡◌, refl, List, [], ◌∷◌, arith, All}
use mandrake.Auth.Token.{hex, hex_digit}

digit_injective : (d e : ℕ) → d < 16 → e < 16 → hex_digit d ≡ hex_digit e → d ≡ e
digit_injective d e h k p = ground arith

byte_injective :
    (x y : ℕ)
    → x < 256
    → y < 256
    → hex_digit (x / 16) ≡ hex_digit (y / 16)
    → hex_digit (x % 16) ≡ hex_digit (y % 16)
    → x ≡ y
byte_injective x y p q high low = omega (
  arith,
  digit_injective (x / 16) (y / 16) (omega arith) (omega arith) high,
  digit_injective (x % 16) (y % 16) (omega arith) (omega arith) low,
)

-- Two sequences of bytes with the same hexadecimal text are the same.
pub hex_injective :
    (a b : List ℕ) → All (λ x. x < 256) a → All (λ x. x < 256) b → hex a ≡ hex b → a ≡ b
unfolding hex
hex_injective [] [] p q e = refl
hex_injective [] (y ∷ b) p q e = cc
hex_injective (x ∷ a) [] p q e = cc
hex_injective (x ∷ a) (y ∷ b) p q e =
    cc (byte_injective x y p.0 q.0 (first e) (second e), hex_injective a b p.1 q.1 (third e))
  where
    first : hex (x ∷ a) ≡ hex (y ∷ b) → hex_digit (x / 16) ≡ hex_digit (y / 16)
    first f = cc

    second : hex (x ∷ a) ≡ hex (y ∷ b) → hex_digit (x % 16) ≡ hex_digit (y % 16)
    second f = cc

    third : hex (x ∷ a) ≡ hex (y ∷ b) → hex a ≡ hex b
    third f = cc
