-- ===== src/Text.antt =====
-- The methods of JavaScript strings that the source calls, over the native texts. A text is a
-- sequence of code points; `js_length` counts the UTF-16 units, as `length` does.
pub mod Laws
use Prim.Native.Char.{Char, code}
use Prim.Native.String
use Prim.Native.String.{String, count}
use bankos.Prelude.{
  ℕ, ◌+◌, Bool, true, false, ◌||◌, ◌&&◌, List, [], ◌∷◌, leb, ltb, ◌==◌, ◌===◌, if◌then◌else◌,
}

-- `s.endsWith(t)`.
unfoldable pub ends_with : String → String → Bool
ends_with String.[] t = "" === t
ends_with (String.◌∷◌ c s) t = String.◌∷◌ c s === t || ends_with s t

-- `s.slice(0, -n)`, for a text whose last `n` characters take one UTF-16 unit each.
unfoldable pub drop_end : ℕ → String → String
drop_end n String.[] = ""
drop_end n (String.◌∷◌ c s) =
    if leb (count (String.◌∷◌ c s)) n then "" else String.◌∷◌ c (drop_end n s)

-- `s.startsWith(t)`.
unfoldable pub starts_with : String → String → Bool
starts_with s String.[] = true
starts_with String.[] (String.◌∷◌ d t) = false
starts_with (String.◌∷◌ c s) (String.◌∷◌ d t) = code c == code d && starts_with s t

-- The code points of a text.
abbrev pub codes : String → List ℕ
codes String.[] = []
codes (String.◌∷◌ c s) = code c ∷ codes s

-- The number of UTF-16 units: a code point above U+FFFF takes two.
unfoldable pub js_length : String → ℕ
js_length String.[] = 0
js_length (String.◌∷◌ c s) = (if ltb 0xffff (code c) then 2 else 1) + js_length s

-- The white space of JavaScript: that of `\s` and of `trim`.
unfoldable pub is_space : ℕ → Bool
is_space c =
    (leb 9 c && leb c 13)
    || (c == 32)
    || (c == 0xa0)
    || (c == 0x1680)
    || (leb 0x2000 c && leb c 0x200a)
    || (c == 0x2028)
    || (c == 0x2029)
    || (c == 0x202f)
    || (c == 0x205f)
    || (c == 0x3000)
    || (c == 0xfeff)

unfoldable pub trim_start : String → String
unfolding is_space
trim_start String.[] = ""
trim_start (String.◌∷◌ c s) = if is_space (code c) then trim_start s else String.◌∷◌ c s

unfoldable pub trim_end : String → String
unfolding is_space
trim_end String.[] = ""
trim_end (String.◌∷◌ c s) =
    let rest = trim_end s in if rest === "" && is_space (code c) then "" else String.◌∷◌ c rest

-- `s.trim()`
unfoldable pub trim : String → String
unfolding trim_start trim_end
trim s = trim_end (trim_start s)

-- `s.includes(t)`
unfoldable pub contains : String → String → Bool
unfolding starts_with
contains String.[] t = "" === t
contains (String.◌∷◌ c s) t = starts_with (String.◌∷◌ c s) t || contains s t

unfoldable pub grow_first : Char → List String → List String
grow_first c [] = String.◌∷◌ c "" ∷ []
grow_first c (part ∷ parts) = String.◌∷◌ c part ∷ parts

-- `s.split(' ')`
unfoldable pub split_spaces : String → List String
unfolding grow_first
split_spaces String.[] = "" ∷ []
split_spaces (String.◌∷◌ c s) =
    let rest = split_spaces s in if code c == 32 then "" ∷ rest else grow_first c rest

-- `xs.join(',')`
unfoldable pub join_commas : List String → String
join_commas [] = ""
join_commas (x ∷ []) = x
join_commas (x ∷ y ∷ xs) = String.◌++◌ x (String.◌++◌ "," (join_commas (y ∷ xs)))

-- `s.split(';')[0]`
unfoldable pub until_semicolon : String → String
until_semicolon String.[] = ""
until_semicolon (String.◌∷◌ c s) =
    let rest = until_semicolon s in if code c == 59 then "" else String.◌∷◌ c rest
