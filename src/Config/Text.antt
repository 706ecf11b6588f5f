-- ===== src/Config/Text.antt =====
-- src/config.c: the strings of the configuration: trimming, comparison without case, numbers.
use Prim.Native.String.{String, [] as []ˢ, ◌∷◌ as ◌∷ˢ◌}
use Prim.Native.Char.{code}
use Prim.Native.Nat.{min}
use mtrdma_artifact.Common.{
  ℕ, suc, ◌+◌, Bool, true, false, ◌&&◌, ◌||◌, Option, none, some, List, [], ◌∷◌, if◌then◌else◌, ltb,
  leb, ◌==◌, u32_mod,
}
use mtrdma_artifact.Common.CString.{is_space, skip_spaces, digits_value}

to_lower : ℕ → ℕ
to_lower c = if leb b'A' c && leb c b'Z' then c + 32 else c

-- `strcasecmp(xs, name) == 0`
unfoldable pub strcaseeq : String → List ℕ → Bool
unfolding to_lower
strcaseeq []ˢ [] = true
strcaseeq []ˢ (x ∷ xs) = false
strcaseeq (c ∷ˢ s) [] = false
strcaseeq (c ∷ˢ s) (x ∷ xs) = to_lower (code c) == to_lower x && strcaseeq s xs

-- The text without the characters of a kind at its end.
unfoldable pub drop_end : (ℕ → Bool) → List ℕ → List ℕ
drop_end kind [] = []
drop_end kind (x ∷ xs) = elim (drop_end kind xs) [
  | [] ↦ if kind x then [] else x ∷ []
  | y ∷ ys ↦ x ∷ y ∷ ys
]

unfoldable pub drop_start : (ℕ → Bool) → List ℕ → List ℕ
drop_start kind [] = []
drop_start kind (x ∷ xs) = let rest = drop_start kind xs in if kind x then rest else x ∷ xs

unfoldable pub trim_whitespace : List ℕ → List ℕ
unfolding drop_end drop_start
trim_whitespace s = drop_end (λ c. is_space c) (drop_start (λ c. is_space c) s)

unfoldable pub length : List ℕ → ℕ
length [] = 0
length (x ∷ xs) = suc (length xs)

-- `strtol(s, NULL, 10)`: whether it is negative, and its size.
signed_size : List ℕ → Bool × ℕ
unfolding digits_value
signed_size [] = (false, 0)
signed_size (x ∷ xs) =
    if x == b'-'
    then (ltb 0 (digits_value 0 xs), min (digits_value 0 xs) 9223372036854775808)
    else if x == b'+'
    then (false, min (digits_value 0 xs) 9223372036854775807)
    else (false, min (digits_value 0 (x ∷ xs)) 9223372036854775807)

unfoldable pub strtol : List ℕ → Bool × ℕ
unfolding skip_spaces signed_size
strtol s = signed_size (skip_spaces s)

-- `val <= 0 || val > UINT32_MAX` is refused.
unfoldable pub parse_positive : List ℕ → Option ℕ
parse_positive value =
    let (negative, n) = strtol value in
    if (negative || n == 0) || leb u32_mod n then none else some n

-- `val < 0 || val > UINT32_MAX` is refused.
unfoldable pub parse_unsigned : List ℕ → Option ℕ
parse_unsigned value =
    let (negative, n) = strtol value in if negative || leb u32_mod n then none else some n

unfoldable pub parse_bool : List ℕ → Option Bool
parse_bool text =
    let value = skip_spaces text in
    if strcaseeq "true" value
      || strcaseeq "yes" value
      || strcaseeq "on" value
      || strcaseeq "1" value
    then some true
    else if strcaseeq "false" value
        || strcaseeq "no" value
        || strcaseeq "off" value
        || strcaseeq "0" value
    then some false
    else none

unfoldable pub parse_log_level_value : List ℕ → Option ℕ
parse_log_level_value text =
    let value = skip_spaces text in
    if strcaseeq "debug" value
    then some 0
    else if strcaseeq "info" value
    then some 1
    else if strcaseeq "warn" value || strcaseeq "warning" value
    then some 2
    else if strcaseeq "error" value
    then some 3
    else if strcaseeq "fatal" value
    then some 4
    else none

abbrev is_quote : ℕ → Bool
is_quote c = is_space c || c == b'"' || c == b'\''

-- For an array of 256 bytes.
unfoldable pub parse_string : List ℕ → Option (List ℕ)
parse_string value =
    let s = drop_end (λ c. is_quote c) (drop_start (λ c. is_quote c) value) in
    if leb 256 (length s) then none else some s
