-- ===== src/Hash/Words.antt =====
-- Words of bytes (ios/Classes/sha2.h): the reversal macros, and `^` on them.
use flutter_sdk.Base.{ℕ, ◌+◌, ◌*◌, ◌/◌, ◌^◌, ◌<◌, ◌≡◌, refl, arith, ap, ap₂, ◌∙◌}
use flutter_sdk.Base.{List, [], ◌∷◌, length, AllBelow, u32, Bool, true, false}
use flutter_sdk.Base.{bit_and, bit_or, bit_and-parts, bit_or-parts}
use flutter_sdk.Base.{bit_and-zero, bit_and-ones, bit_or-zero, zero-bit_or}
use Prim.Native.Nat.{bit_and-bitwise}
use flutter_sdk.Hash.{le_word, be_word, reverse32}

-- `|` of two words in which every byte is zero in one.
or_byte :
    (x y a b : ℕ)
    → x < 256
    → y < 256
    → bit_or (x + 256 * a) (y + 256 * b) ≡ bit_or x y + 256 * bit_or a b
or_byte x y a b h k =
    let ea : a * 2 ^ 8 + x ≡ x + 256 * a = omega arith in
    let eb : b * 2 ^ 8 + y ≡ y + 256 * b = omega arith in
    omega (arith, bit_or-parts 8 a b x y (omega arith) (omega arith), ap₂ bit_or ea eb)

and_byte :
    (x y a b : ℕ)
    → x < 256
    → y < 256
    → bit_and (x + 256 * a) (y + 256 * b) ≡ bit_and x y + 256 * bit_and a b
and_byte x y a b h k =
    let ea : a * 2 ^ 8 + x ≡ x + 256 * a = omega arith in
    let eb : b * 2 ^ 8 + y ≡ y + 256 * b = omega arith in
    omega (arith, bit_and-parts 8 a b x y (omega arith) (omega arith), ap₂ bit_and ea eb)

-- Keeping or clearing bytes, by a mask, and joining bytes.
unfoldable pub mask_word : List Bool → ℕ
mask_word [] = 0
mask_word (true ∷ m) = 255 + 256 * mask_word m
mask_word (false ∷ m) = 0 + 256 * mask_word m

unfoldable pub keep : List Bool → List ℕ → List ℕ
keep (true ∷ m) (x ∷ xs) = x ∷ keep m xs
keep (false ∷ m) (x ∷ xs) = 0 ∷ keep m xs
keep _ _ = []

pub bit_and-mask :
    (m : List Bool) (xs : List ℕ)
    → AllBelow 256 xs
    → bit_and (le_word xs) (mask_word m) ≡ le_word (keep m xs)
unfolding le_word mask_word keep
bit_and-mask [] [] all = refl
bit_and-mask [] (x ∷ xs) all = bit_and-zero _
bit_and-mask (true ∷ m) [] all = bit_and-bitwise 0 _
bit_and-mask (false ∷ m) [] all = bit_and-bitwise 0 _
bit_and-mask (true ∷ m) (x ∷ xs) all = omega (
  arith,
  and_byte x 255 (le_word xs) (mask_word m) all.0 (omega arith),
  bit_and-ones 8 x,
  bit_and-mask m xs all.1,
)
bit_and-mask (false ∷ m) (x ∷ xs) all = omega (
  arith,
  and_byte x 0 (le_word xs) (mask_word m) all.0 (omega arith),
  bit_and-zero x,
  bit_and-mask m xs all.1,
)

unfoldable pub zip_or : List ℕ → List ℕ → List ℕ
zip_or (x ∷ xs) (y ∷ ys) = bit_or x y ∷ zip_or xs ys
zip_or _ _ = []

pub bit_or-bytes :
    (xs ys : List ℕ)
    → length xs ≡ length ys
    → AllBelow 256 xs
    → AllBelow 256 ys
    → bit_or (le_word xs) (le_word ys) ≡ le_word (zip_or xs ys)
unfolding le_word zip_or
bit_or-bytes [] [] e h k = refl
bit_or-bytes [] (y ∷ ys) e h k = absurd (omega arith)
bit_or-bytes (x ∷ xs) [] e h k = absurd (omega arith)
bit_or-bytes (x ∷ xs) (y ∷ ys) e h k =
    omega (
      arith,
      or_byte x y (le_word xs) (le_word ys) h.0 k.0,
      bit_or-bytes xs ys (omega arith) h.1 k.1,
    )

-- REVERSE32 turns the little-endian word of four bytes into the big-endian one.
pub reverse32-le_word :
    (a b c d : ℕ)
    → AllBelow 256 (a ∷ b ∷ c ∷ d ∷ [])
    → reverse32 (le_word (a ∷ b ∷ c ∷ d ∷ [])) ≡ be_word 0 (a ∷ b ∷ c ∷ d ∷ [])
unfolding reverse32 le_word be_word keep zip_or mask_word
reverse32-le_word a b c d all =
    let w : ℕ = le_word (a ∷ b ∷ c ∷ d ∷ []) in
    let joined : bit_or (w / 2 ^ 16) (u32 (w * 2 ^ 16)) ≡ le_word (c ∷ d ∷ a ∷ b ∷ []) =
      ap₂ bit_or (omega arith) (omega arith)
      ∙ bit_or-bytes (c ∷ d ∷ 0 ∷ 0 ∷ []) (0 ∷ 0 ∷ a ∷ b ∷ []) refl (omega arith) (omega arith)
      ∙ simp (bit_or-zero, zero-bit_or) in
    let t : ℕ = le_word (c ∷ d ∷ a ∷ b ∷ []) in
    let odd : bit_and t 0xff00ff00 / 2 ^ 8 ≡ le_word (d ∷ 0 ∷ b ∷ 0 ∷ []) =
      ap (λ (x : ℕ). x / 2 ^ 8)
        (bit_and-mask (false ∷ true ∷ false ∷ true ∷ []) (c ∷ d ∷ a ∷ b ∷ []) (omega arith))
      ∙ omega arith in
    let even : bit_and t 0x00ff00ff * 2 ^ 8 ≡ le_word (0 ∷ c ∷ 0 ∷ a ∷ []) =
      ap (λ (x : ℕ). x * 2 ^ 8)
        (bit_and-mask (true ∷ false ∷ true ∷ false ∷ []) (c ∷ d ∷ a ∷ b ∷ []) (omega arith))
      ∙ omega arith in
    let crossed : bit_or (le_word (d ∷ 0 ∷ b ∷ 0 ∷ [])) (le_word (0 ∷ c ∷ 0 ∷ a ∷ []))
        ≡ le_word (d ∷ c ∷ b ∷ a ∷ []) =
      bit_or-bytes (d ∷ 0 ∷ b ∷ 0 ∷ []) (0 ∷ c ∷ 0 ∷ a ∷ []) refl (omega arith) (omega arith)
      ∙ simp (bit_or-zero, zero-bit_or) in
    let result : bit_or (bit_and t 0xff00ff00 / 2 ^ 8) (bit_and t 0x00ff00ff * 2 ^ 8)
        ≡ le_word (d ∷ c ∷ b ∷ a ∷ []) =
      ap₂ bit_or odd even ∙ crossed in
    ap (λ (x : ℕ). u32 (bit_or (bit_and x 0xff00ff00 / 2 ^ 8) (bit_and x 0x00ff00ff * 2 ^ 8)))
      joined
    ∙ ap u32 result
    ∙ omega arith
