-- ===== src/Prelude/Text.antt =====
-- What the packages use of Go's strings and sort packages, over the native String.
use Prim.Native.Nat.{ℕ, zero, suc, ◌-◌, ◌/◌, ◌%◌, Ordering}
use Prim.Native.Char.{Char, code}
use Prim.Native.String.{String, compare, count, ◌++◌ as ◌<>◌}
use mathlib.Core.Path.{◌≡◌, refl}
use mathlib.Core.Bool.{Bool, true, false, ◌&&◌, ◌||◌}
use mathlib.Core.List.{List, [], ◌∷◌}
use text.Mathlib.Text.{◌==◌}
use draiver.Prelude.Tests.{ltb, leb, eqb, if◌then◌else◌}

-- `unicode.IsSpace`.
pub is_space : Char → Bool
is_space c =
    let n = code c in
    (leb 9 n && leb n 13)
    || (eqb n 32 || eqb n 0x85 || eqb n 0xa0 || eqb n 0x1680)
    || (leb 0x2000 n && leb n 0x200a)
    || (eqb n 0x2028 || eqb n 0x2029 || eqb n 0x202f || eqb n 0x205f || eqb n 0x3000)

-- Drops the leading characters that pass a test; `strings.TrimLeftFunc`.
unfoldable pub trim_left : (Char → Bool) → String → String
trim_left p String.[] = ""
trim_left p (String.◌∷◌ c s) = let rest = trim_left p s in if p c then rest else String.◌∷◌ c s

-- Drops the trailing characters that pass a test; `strings.TrimRightFunc`.
unfoldable pub trim_right : (Char → Bool) → String → String
trim_right p String.[] = ""
trim_right p (String.◌∷◌ c s) =
    let rest = trim_right p s in if rest == "" && p c then "" else String.◌∷◌ c rest

-- `strings.TrimSpace`.
unfoldable pub trim_space : String → String
unfolding is_space trim_left trim_right
trim_space s = trim_right is_space (trim_left is_space s)

-- `s < t` on Go strings, which compares bytes; on UTF-8 that is the order of the code points.
abbrev pub str_lt : String → String → Bool
str_lt s t = elim (compare s t) [ Ordering.lt ↦ true | _ ↦ false ]

unfoldable pub insert_string : String → List String → List String
insert_string s [] = s ∷ []
insert_string s (t ∷ ts) =
    let rest = insert_string s ts in if str_lt t s then t ∷ rest else s ∷ t ∷ ts

-- `sort.Strings`.
unfoldable pub sort_strings : List String → List String
unfolding insert_string
sort_strings [] = []
sort_strings (s ∷ ss) = insert_string s (sort_strings ss)

-- `strings.Join`.
unfoldable pub join : List String → String → String
join [] sep = ""
join (s ∷ []) sep = s
join (s ∷ t ∷ ts) sep = s <> sep <> join (t ∷ ts) sep

trim_space_example : trim_space " a b\n" ≡ "a b"
unfolding trim_space
trim_space_example = refl

sort_strings_example : sort_strings ("b" ∷ "ab" ∷ "a" ∷ []) ≡ "a" ∷ "ab" ∷ "b" ∷ []
unfolding sort_strings
sort_strings_example = refl

-- `strings.HasSuffix`
unfoldable pub has_suffix : String → String → Bool
has_suffix String.[] t = t == ""
has_suffix (String.◌∷◌ c s) t = t == String.◌∷◌ c s || has_suffix s t

-- `strings.HasPrefix`
unfoldable pub has_prefix : String → String → Bool
has_prefix String.[] s = true
has_prefix (String.◌∷◌ c p) String.[] = false
has_prefix (String.◌∷◌ c p) (String.◌∷◌ d s) = eqb (code c) (code d) && has_prefix p s

-- `strings.Contains`
unfoldable pub contains : String → String → Bool
unfolding has_prefix
contains String.[] p = has_prefix p ""
contains (String.◌∷◌ c s) p = has_prefix p (String.◌∷◌ c s) || contains s p

digit : ℕ → String
digit zero = "0"
digit (suc zero) = "1"
digit (suc (suc zero)) = "2"
digit (suc (suc (suc zero))) = "3"
digit (suc (suc (suc (suc zero)))) = "4"
digit (suc (suc (suc (suc (suc zero))))) = "5"
digit (suc (suc (suc (suc (suc (suc zero)))))) = "6"
digit (suc (suc (suc (suc (suc (suc (suc zero))))))) = "7"
digit (suc (suc (suc (suc (suc (suc (suc (suc zero)))))))) = "8"
digit (suc (suc (suc (suc (suc (suc (suc (suc (suc n))))))))) = "9"

-- The fuel bounds the digits; a number has at most as many as its value, and one.
decimal : ℕ → ℕ → String
unfolding digit
decimal zero n = ""
decimal (suc fuel) n =
    let front = decimal fuel (n / 10) in if ltb n 10 then digit n else front <> digit (n % 10)

-- `strconv.Itoa`, at a natural number.
unfoldable pub itoa : ℕ → String
unfolding decimal
itoa n = decimal (suc n) n

zeros : ℕ → String
zeros zero = ""
zeros (suc k) = "0" <> zeros k

-- `%0wd` of fmt, at a natural number.
unfoldable pub pad : ℕ → ℕ → String
unfolding itoa zeros
pad w n = zeros (w - count (itoa n)) <> itoa n

pad_example : pad 4 42 ≡ "0042"
unfolding pad
pad_example = refl
