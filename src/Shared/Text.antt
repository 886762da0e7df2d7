-- ===== src/Shared/Text.antt =====
-- What the services use of Go's `strings` package, over native texts.
use Prim.Native.Char.{Char, code}
use Prim.Native.String.{[], ◌∷◌}
use moneymate_backend.Shared.{
  ℕ, ◌+◌, String, ◌≡◌, refl, Bool, true, false, ◌&&◌, ◌||◌, str_eq, ◌==◌, leb, if◌then◌else◌,
}

-- `unicode.IsSpace`
abbrev pub is_space : ℕ → Bool
is_space c =
    (leb 9 c && leb c 13)
    || c == 32
    || c == 0x85
    || c == 0xa0
    || c == 0x1680
    || (leb 0x2000 c && leb c 0x200a)
    || c == 0x2028
    || c == 0x2029
    || c == 0x202f
    || c == 0x205f
    || c == 0x3000

unfoldable pub trim_left : String → String
trim_left [] = []
trim_left (c ∷ s) = let rest = trim_left s in if is_space (code c) then rest else c ∷ s

-- Drops a character that is a space and is the last.
abbrev pub cons_trimmed : Char → String → String
cons_trimmed c [] = if is_space (code c) then [] else c ∷ []
cons_trimmed c (d ∷ s) = c ∷ d ∷ s

unfoldable pub trim_right : String → String
trim_right [] = []
trim_right (c ∷ s) = cons_trimmed c (trim_right s)

-- `strings.TrimSpace`
unfoldable pub trim_space : String → String
unfolding trim_left trim_right
trim_space s = trim_right (trim_left s)

abbrev pub is_empty : String → Bool
is_empty s = str_eq s ""

-- `unicode.ToLower`, where it gives an ASCII character: two letters beyond ASCII have one below.
abbrev pub lower_code : ℕ → ℕ
lower_code c =
    if leb 65 c && leb c 90
    then c + 32
    else if c == 0x130
    then 105
    else if c == 0x212a
    then 107
    else c

-- `strings.ToLower(s) == w`, for a word `w` of lower-case ASCII letters.
unfoldable pub lowers_to : String → String → Bool
lowers_to [] [] = true
lowers_to (c ∷ s) (d ∷ w) = lower_code (code c) == code d && lowers_to s w
lowers_to [] (d ∷ w) = false
lowers_to (c ∷ s) [] = false

lowers_to_test : lowers_to "DePosit" "deposit" ≡ true
unfolding lowers_to
lowers_to_test = refl

trim_space_test : trim_space "  a b \t" ≡ "a b"
unfolding trim_space
trim_space_test = refl
