-- ===== src/Base/Text.antt =====
-- What the source uses of Go's strings: ==, <, len, +, strings.TrimSpace and fmt.Sprintf("%d").
use Prim.Native.Char.{Char, code}
use Prim.Native.Nat.{Ordering}
use Prim.Native.String.{String, compare, len as bytes}
use Prim.Native.String
use text.Mathlib.Text.{◌==◌ as eq}
use xiuxian.Base.{
  ℕ, zero, suc, ◌/◌, ◌%◌, Bool, true, false, ◌&&◌, ◌||◌, List, [], ◌∷◌, ltb, leb, ◌==◌, get_or,
  if◌then◌else◌, ◌≡◌, refl, Option, none, some,
}

abbrev pub str_eq : String → String → Bool
str_eq s t = eq s t

abbrev pub str_lt : String → String → Bool
str_lt s t = elim (compare s t) [ Ordering.lt ↦ true | _ ↦ false ]

-- len(s)
abbrev pub str_len : String → ℕ
str_len s = bytes s

infixr 66 ◌⊕◌
abbrev pub ◌⊕◌ : String → String → String
s ⊕ t = String.◌++◌ s t

-- unicode.IsSpace
is_space : ℕ → Bool
is_space c =
    leb 9 c && leb c 13
    || c == 32
    || c == 0x85
    || c == 0xa0
    || c == 0x1680
    || leb 0x2000 c && leb c 0x200a
    || c == 0x2028
    || c == 0x2029
    || c == 0x202f
    || c == 0x205f
    || c == 0x3000

trim_left : String → String
unfolding is_space
trim_left String.[] = String.[]
trim_left (String.◌∷◌ c s) =
    let rest = trim_left s in if is_space (code c) then rest else String.◌∷◌ c s

-- A text of spaces alone becomes empty.
trim_right : String → String
unfolding is_space
trim_right String.[] = String.[]
trim_right (String.◌∷◌ c s) =
    let rest = trim_right s in
    if is_space (code c) && eq rest "" then String.[] else String.◌∷◌ c rest

unfoldable pub trim_space : String → String
unfolding trim_left trim_right
trim_space s = trim_right (trim_left s)

-- strings.TrimSpace(s) == ""
unfoldable pub is_blank : String → Bool
unfolding trim_space
is_blank s = eq (trim_space s) ""

abbrev pub digits : List Char
digits = "0" ∷ "1" ∷ "2" ∷ "3" ∷ "4" ∷ "5" ∷ "6" ∷ "7" ∷ "8" ∷ "9" ∷ []

unfoldable pub digits_onto : ℕ → ℕ → String → String
digits_onto zero n rest = rest
digits_onto (suc fuel) n rest =
    let more = digits_onto fuel (n / 10) (String.◌∷◌ (get_or digits (n % 10) "0") rest) in
    if ltb n 10 then String.◌∷◌ (get_or digits n "0") rest else more

-- %d: a number has at most as many digits as it counts, and one.
unfoldable pub decimal : ℕ → String
unfolding digits_onto
decimal n = digits_onto (suc n) n ""

decimal_runs : ("role_" ⊕ decimal 2050) ≡ "role_2050"
unfolding decimal
decimal_runs = refl

trim_space_runs : trim_space "  a b  " ≡ "a b"
unfolding trim_space
trim_space_runs = refl

-- strings.HasPrefix and strings.TrimPrefix in one: what follows the prefix, if the text has it.
unfoldable pub after_prefix : String → String → Option String
after_prefix String.[] s = some s
after_prefix (String.◌∷◌ c p) String.[] = none
after_prefix (String.◌∷◌ c p) (String.◌∷◌ d s) =
    let rest = after_prefix p s in if code c == code d then rest else none

-- strings.Split(s, ",")[0]
unfoldable pub before_comma : String → String
before_comma String.[] = String.[]
before_comma (String.◌∷◌ c s) =
    let rest = before_comma s in if code c == b',' then String.[] else String.◌∷◌ c rest

trim_quotes_left : String → String
trim_quotes_left String.[] = String.[]
trim_quotes_left (String.◌∷◌ c s) =
    let rest = trim_quotes_left s in if code c == b'"' then rest else String.◌∷◌ c s

trim_quotes_right : String → String
trim_quotes_right String.[] = String.[]
trim_quotes_right (String.◌∷◌ c s) =
    let rest = trim_quotes_right s in
    if code c == b'"' && eq rest "" then String.[] else String.◌∷◌ c rest

-- strings.Trim(s, `"`)
unfoldable pub trim_quotes : String → String
unfolding trim_quotes_left trim_quotes_right
trim_quotes s = trim_quotes_right (trim_quotes_left s)
