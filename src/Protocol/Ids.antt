-- ===== src/Protocol/Ids.antt =====
-- remote_agent_connector/protocol.py: the validators of identifiers. A pattern is read as a test on
-- the first characters, a test on the others and a bound on their number; `none` is the
-- `ProtocolError`.
use Prim.Native.Char.{Char, code}
use Prim.Native.String.{count}
use remote_agent_connector.Prelude.{
  ℕ, zero, suc, String, Bool, true, false, ◌&&◌, ◌||◌, Option, none, some, leb, eqb, if◌then◌else◌,
}
use remote_agent_connector.Prelude.Texts.{strip, lower}

is_lower : Char → Bool
is_lower c = leb b'a' (code c) && leb (code c) b'z'

is_upper : Char → Bool
is_upper c = leb b'A' (code c) && leb (code c) b'Z'

is_digit : Char → Bool
is_digit c = leb b'0' (code c) && leb (code c) b'9'

-- `[A-Za-z0-9]`.
is_alnum : Char → Bool
unfolding is_lower is_upper is_digit
is_alnum c = is_lower c || is_upper c || is_digit c

-- `[_.-]`.
is_mark : Char → Bool
is_mark c = eqb (code c) b'_' || eqb (code c) b'.' || eqb (code c) b'-'

-- `class{0,n}`, to the end of the text.
unfoldable pub at_most : (Char → Bool) → ℕ → String → Bool
at_most test n String.[] = true
at_most test zero (String.◌∷◌ c s) = false
at_most test (suc n) (String.◌∷◌ c s) = test c && at_most test n s

-- `first` and then `rest{0,n}`.
starts : (Char → Bool) → (Char → Bool) → ℕ → String → Bool
unfolding at_most
starts head rest n String.[] = false
starts head rest n (String.◌∷◌ c s) = head c && at_most rest n s

unfoldable pub client_id_pattern : String → Bool
unfolding starts is_alnum is_mark
client_id_pattern = starts is_alnum (λ c. is_alnum c || is_mark c) 47

unfoldable pub app_id_pattern : String → Bool
unfolding starts is_alnum is_mark
app_id_pattern = starts is_alnum (λ c. is_alnum c || is_mark c) 63

unfoldable pub instance_id_pattern : String → Bool
unfolding starts is_alnum is_mark
instance_id_pattern = starts is_alnum (λ c. is_alnum c || is_mark c) 127

unfoldable pub connector_id_pattern : String → Bool
unfolding starts is_lower is_digit is_mark
connector_id_pattern String.[] = false
connector_id_pattern (String.◌∷◌ c s) =
    is_lower c
    && starts (λ d. is_lower d || is_digit d) (λ d. is_lower d || is_digit d || is_mark d) 62 s

unfoldable pub parse_connector_id : String → Option String
unfolding strip lower connector_id_pattern
parse_connector_id value =
    let connector_id = lower (strip value) in
    if connector_id_pattern connector_id then some connector_id else none

unfoldable pub parse_instance_id : String → Option String
unfolding strip instance_id_pattern
parse_instance_id value =
    let instance_id = strip value in
    if instance_id_pattern instance_id then some instance_id else none

unfoldable pub parse_client_id : String → Option String
unfolding strip client_id_pattern
parse_client_id value =
    let client_id = strip value in if client_id_pattern client_id then some client_id else none

-- `[A-Za-z0-9 ._()#-]{1,80}`.
unfoldable pub display_label_pattern : String → Bool
unfolding starts is_alnum is_mark
display_label_pattern =
    let test : Char → Bool = λ c.
      is_alnum c
      || is_mark c
      || eqb (code c) b' '
      || eqb (code c) b'('
      || eqb (code c) b')'
      || eqb (code c) b'#' in
    starts test test 79

unfoldable pub validate_display_label : String → Option String
unfolding strip display_label_pattern
validate_display_label value =
    let label = strip value in if display_label_pattern label then some label else none

-- `[A-Za-z0-9][A-Za-z0-9 ._()#:/-]{0,63}`.
unfoldable pub platform_pattern : String → Bool
unfolding starts is_alnum is_mark
platform_pattern =
    starts is_alnum
      (λ c.
        is_alnum c
        || is_mark c
        || eqb (code c) b' '
        || eqb (code c) b'('
        || eqb (code c) b')'
        || eqb (code c) b'#'
        || eqb (code c) b':'
        || eqb (code c) b'/')
      63

unfoldable pub validate_platform : String → Option String
unfolding strip platform_pattern
validate_platform value =
    let platform = strip value in if platform_pattern platform then some platform else none

-- `[a-z][a-z0-9_.-]{0,63}`.
unfoldable pub key_id_pattern : String → Bool
unfolding starts is_lower is_digit is_mark
key_id_pattern = starts is_lower (λ c. is_lower c || is_digit c || is_mark c) 63

-- `[A-Za-z0-9_-]{20,128}`.
unfoldable pub nonce_pattern : String → Bool
unfolding at_most is_alnum
nonce_pattern s =
    at_most (λ c. is_alnum c || eqb (code c) b'_' || eqb (code c) b'-') 128 s && leb 20 (count s)

-- `[A-Za-z0-9][A-Za-z0-9:._*-]{0,63}`.
unfoldable pub scope_pattern : String → Bool
unfolding starts is_alnum is_mark
scope_pattern =
    starts is_alnum (λ c. is_alnum c || is_mark c || eqb (code c) b':' || eqb (code c) b'*') 63

unfoldable pub parse_nonce : String → Option String
unfolding strip nonce_pattern
parse_nonce value = let nonce = strip value in if nonce_pattern nonce then some nonce else none

-- `[0-9a-f]{64}`.
unfoldable pub is_hex_digest : String → Bool
unfolding at_most is_digit
is_hex_digest s =
    at_most (λ c. is_digit c || (leb b'a' (code c) && leb (code c) b'f')) 64 s && eqb (count s) 64

-- `_AUDIENCE_PATTERN` of config.py.
unfoldable pub audience_pattern : String → Bool
unfolding starts is_alnum is_mark
audience_pattern = starts is_alnum (λ c. is_alnum c || is_mark c || eqb (code c) b':') 95
