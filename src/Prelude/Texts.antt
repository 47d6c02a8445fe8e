-- ===== src/Prelude/Texts.antt =====
-- What the program uses of Python's `str` and `sorted`: stripping, lower case, replacing, ordering.
use Prim.Native.Nat.{ℕ, Ordering}
use Prim.Native.Char.{Char, code}
use Prim.Native.String.{String, compare}
use mathlib.Core.Bool.{Bool, true, false, ◌&&◌, ◌||◌}
use mathlib.Core.List.{List, [], ◌∷◌}
use text.Mathlib.Text.{◌==◌}
use mathlib.Core.Option.{Option, none, some}
use remote_agent_connector.Prelude.Tests.{leb, ltb, eqb, if◌then◌else◌}

-- The characters for which `str.isspace` holds.
unfoldable pub is_space : Char → Bool
is_space c =
    let n = code c in
    (leb 9 n && leb n 13)
    || (leb 28 n && leb n 32)
    || eqb n 0x85
    || eqb n 0xa0
    || eqb n 0x1680
    || (leb 0x2000 n && leb n 0x200a)
    || eqb n 0x2028
    || eqb n 0x2029
    || eqb n 0x202f
    || eqb n 0x205f
    || eqb n 0x3000

unfoldable pub lstrip : String → String
unfolding is_space
lstrip String.[] = ""
lstrip (String.◌∷◌ c s) = let rest = lstrip s in if is_space c then rest else String.◌∷◌ c s

unfoldable pub rstrip : String → String
unfolding is_space
rstrip String.[] = ""
rstrip (String.◌∷◌ c s) =
    let rest = rstrip s in if is_space c && rest == "" then "" else String.◌∷◌ c rest

unfoldable pub strip : String → String
unfolding lstrip rstrip
strip s = lstrip (rstrip s)

-- The letter of `lowers` that stands where `c` stands in `uppers`, and `c` if it does not.
paired : String → String → Char → Char
paired String.[] _ c = c
paired _ String.[] c = c
paired (String.◌∷◌ u us) (String.◌∷◌ l ls) c =
    let rest = paired us ls c in if eqb (code u) (code c) then l else rest

-- `str.lower` on the ASCII letters, and on U+212A, the one other character whose lower case is
-- ASCII. Every other character is left as it is: none becomes a character that an id may have.
unfoldable pub lower_char : Char → Char
unfolding paired
lower_char = paired "ABCDEFGHIJKLMNOPQRSTUVWXYZK" "abcdefghijklmnopqrstuvwxyzk"

unfoldable pub lower : String → String
unfolding lower_char
lower String.[] = ""
lower (String.◌∷◌ c s) = String.◌∷◌ (lower_char c) (lower s)

-- `sep.join(l)`.
unfoldable pub join : String → List String → String
join sep [] = ""
join sep (x ∷ []) = x
join sep (x ∷ y ∷ r) = Prim.Native.String.◌++◌ x (Prim.Native.String.◌++◌ sep (join sep (y ∷ r)))

-- `str.replace(".", "_")`.
unfoldable pub replace_dots : String → String
replace_dots String.[] = ""
replace_dots (String.◌∷◌ c s) = String.◌∷◌ (if eqb (code c) b'.' then "_" else c) (replace_dots s)

-- The order of `sorted` on texts, by code points.
unfoldable pub text_leb : String → String → Bool
text_leb s t = elim (compare s t) [ Ordering.gt ↦ false | _ ↦ true ]

unfoldable pub insert_sorted : String → List String → List String
unfolding text_leb
insert_sorted x [] = x ∷ []
insert_sorted x (y ∷ r) =
    if x == y then y ∷ r else if text_leb x y then x ∷ y ∷ r else y ∷ insert_sorted x r

-- `sorted(set(l))`.
unfoldable pub sorted : List String → List String
unfolding insert_sorted
sorted [] = []
sorted (x ∷ r) = insert_sorted x (sorted r)

-- `s.split(sep)` for a separator of one character.
unfoldable pub split : ℕ → String → List String
split sep String.[] = "" ∷ []
split sep (String.◌∷◌ c s) = elim (split sep s) [
  | [] ↦ []
  | word ∷ words ↦ if eqb (code c) sep then "" ∷ word ∷ words else String.◌∷◌ c word ∷ words
]

-- `sorted(l)` on a list, which keeps equal texts.
unfoldable pub insert_text : String → List String → List String
unfolding text_leb
insert_text x [] = x ∷ []
insert_text x (y ∷ r) = if text_leb x y then x ∷ y ∷ r else y ∷ insert_text x r

unfoldable pub sort_texts : List String → List String
unfolding insert_text
sort_texts [] = []
sort_texts (x ∷ r) = insert_text x (sort_texts r)

-- `s.removeprefix(p)` where `s.startswith(p)`.
unfoldable pub after : String → String → Option String
after String.[] s = some s
after (String.◌∷◌ c p) String.[] = none
after (String.◌∷◌ c p) (String.◌∷◌ d s) =
    let rest = after p s in if String.◌∷◌ c "" == String.◌∷◌ d "" then rest else none

-- `s.isascii()`.
unfoldable pub is_ascii : String → Bool
is_ascii String.[] = true
is_ascii (String.◌∷◌ c s) = ltb (code c) 128 && is_ascii s
