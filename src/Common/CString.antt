-- ===== src/Common/CString.antt =====
-- The C string functions that the sources call, on lists of bytes without the closing zero.
use Prim.Native.Nat.{ℕ, zero, suc, ◌+◌, ◌-◌, ◌*◌, ◌%◌, min, pred}
use Prim.Native.String.{String, [] as []ˢ, ◌∷◌ as ◌∷ˢ◌}
use Prim.Native.Char.{code}
use mathlib.Core.Bool.{Bool, true, false, ◌&&◌, ◌||◌}
use mathlib.Core.Option.{Option, none, some}
use mathlib.Core.List.{List, [], ◌∷◌}
use mtrdma_artifact.Common.Tests.{leb, ◌==◌, if◌then◌else◌}
use mtrdma_artifact.Common.Words.{u64_mod}

abbrev pub take {ℓ} : {A : Type ℓ} → ℕ → List A → List A
take zero xs = []
take (suc n) [] = []
take (suc n) (x ∷ xs) = x ∷ take n xs

abbrev pub drop {ℓ} : {A : Type ℓ} → ℕ → List A → List A
drop zero xs = xs
drop (suc n) [] = []
drop (suc n) (x ∷ xs) = drop n xs

-- A line of at most `n` bytes with its newline, and the bytes behind it.
unfoldable pub line_of : ℕ → List ℕ → List ℕ × List ℕ
line_of zero xs = ([], xs)
line_of (suc n) [] = ([], [])
line_of (suc n) (x ∷ xs) =
    let (line, rest) = line_of n xs in if x == 10 then (x ∷ [], xs) else (x ∷ line, rest)

-- `fgets` with a buffer of `size` bytes; `none` at the end of the file.
unfoldable pub fgets : ℕ → List ℕ → Option (List ℕ × List ℕ)
unfolding line_of
fgets size [] = none
fgets size (x ∷ xs) = some (line_of (pred size) (x ∷ xs))

-- The text from the last `c` on.
unfoldable pub strrchr : ℕ → List ℕ → Option (List ℕ)
strrchr c [] = none
strrchr c (x ∷ xs) = elim (strrchr c xs) [
  | some p ↦ some p
  | none ↦ if x == c then some (x ∷ xs) else none
]

-- `strtok_r(p, " ", …)`: the next token and the text behind it.
token : List ℕ → List ℕ × List ℕ
token [] = ([], [])
token (x ∷ xs) = let (t, rest) = token xs in if x == b' ' then ([], xs) else (x ∷ t, rest)

unfoldable pub strtok : List ℕ → Option (List ℕ × List ℕ)
unfolding token
strtok [] = none
strtok (x ∷ xs) = let next = strtok xs in if x == b' ' then next else some (token (x ∷ xs))

-- The text behind `n` tokens, `none` if there are fewer.
unfoldable pub skip_tokens : ℕ → List ℕ → Option (List ℕ)
unfolding strtok
skip_tokens zero p = some p
skip_tokens (suc n) p = elim (strtok p) [ none ↦ none | some (_, rest) ↦ skip_tokens n rest ]

abbrev pub is_space : ℕ → Bool
is_space c = c == b' ' || (leb 9 c && leb c 13)

abbrev is_digit : ℕ → Bool
is_digit c = leb b'0' c && leb c b'9'

unfoldable pub skip_spaces : List ℕ → List ℕ
skip_spaces [] = []
skip_spaces (x ∷ xs) = let rest = skip_spaces xs in if is_space x then rest else x ∷ xs

-- The value of the leading digits.
unfoldable pub digits_value : ℕ → List ℕ → ℕ
digits_value acc [] = acc
digits_value acc (x ∷ xs) =
    let rest = digits_value (acc * 10 + (x - b'0')) xs in if is_digit x then rest else acc

-- `strtoull(s, NULL, 10)`: out of range it is the largest value, and a minus sign negates.
saturated : List ℕ → ℕ
unfolding digits_value
saturated s = min (digits_value 0 s) (u64_mod - 1)

signed_value : List ℕ → ℕ
unfolding saturated
signed_value [] = 0
signed_value (x ∷ xs) =
    if x == b'-'
    then if leb u64_mod (digits_value 0 xs) then u64_mod - 1 else (u64_mod - saturated xs) % u64_mod
    else if x == b'+'
    then saturated xs
    else saturated (x ∷ xs)

unfoldable pub strtoull : List ℕ → ℕ
unfolding skip_spaces signed_value
strtoull s = signed_value (skip_spaces s)

-- The bytes of a literal.
abbrev pub codes : String → List ℕ
codes []ˢ = []
codes (c ∷ˢ s) = code c ∷ codes s

-- `strcmp(xs, name) == 0`
unfoldable pub streq : String → List ℕ → Bool
streq []ˢ [] = true
streq []ˢ (x ∷ xs) = false
streq (c ∷ˢ s) [] = false
streq (c ∷ˢ s) (x ∷ xs) = (code c == x) && streq s xs
