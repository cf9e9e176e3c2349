-- ===== src/Item.antt =====
-- item.go: targets, states and item ids as text.
pub mod Round
pub mod Chronology
use agentqueue.Prelude.{
  ℕ, zero, suc, ◌+◌, ◌-◌, ◌*◌, ◌/◌, ◌%◌, ◌^◌, Text, codes, trim, text_eq, is_empty, List, [], ◌∷◌,
  ◌++◌, ◌==◌, ltb, leb, ◌&&◌, ◌||◌, Option, none, some, if◌then◌else◌,
}
use agentqueue.Data.{
  Target, State, pending, claimed, done, invalid_target, malformed, Result, ok, err, ◌>>=◌,
}

-- `strings.Index(s, ":")` and the slices before and after it; `none` where there is no colon.
unfoldable pub split_colon : Text → Option (Text × Text)
split_colon [] = none
split_colon (c ∷ s) =
    if c == b':'
    then some ([], s)
    else elim (split_colon s) [ none ↦ none | some (before, after) ↦ some (c ∷ before, after) ]

abbrev pub default_agent : Text
default_agent = codes "claude"

-- The checks of `ParseTarget` on the two parts.
unfoldable pub check_parts : Text → Text → Result Target
check_parts agent name =
    if is_empty agent
    then err invalid_target
    else if is_empty name
    then err invalid_target
    else ok (record { agent = agent; name = name })

abbrev pub parse_parts : Text → Option (Text × Text) → Result Target
parse_parts s none = check_parts (trim default_agent) (trim s)
parse_parts s (some (agent, name)) = check_parts (trim agent) (trim name)

unfoldable pub parse_target : Text → Result Target
unfolding split_colon check_parts
parse_target s =
    let s' = trim s in if is_empty s' then err invalid_target else parse_parts s' (split_colon s')

-- `strings.ToLower`, as far as its result can be ASCII: the capital letters, and the two code
-- points outside ASCII whose lower case is an ASCII letter. A text with another code point outside
-- ASCII equals none of the names below, whatever its case.
abbrev lower_rune : ℕ → ℕ
lower_rune c =
    if leb b'A' c && leb c b'Z'
    then c + 32
    else if c == 0x130
    then b'i'
    else if c == 0x212a
    then b'k'
    else c

unfoldable pub lower : Text → Text
lower [] = []
lower (c ∷ s) = lower_rune c ∷ lower s

unfoldable pub parse_state : Text → Result State
unfolding lower
parse_state s =
    let name = lower (trim s) in
    if text_eq name (codes "pending") || is_empty name
    then ok pending
    else if text_eq name (codes "claimed")
    then ok claimed
    else if text_eq name (codes "done")
    then ok done
    else err malformed

-- The last `width` decimal digits of `n`.
unfoldable pub last_digits : ℕ → ℕ → Text
last_digits zero n = []
last_digits (suc width) n = last_digits width (n / 10) ++ (b'0' + n % 10) ∷ []

-- The digits of `n` in front of the last `width`, without leading zeros; `fuel` bounds their
-- number, and `n` itself is enough.
unfoldable pub first_digits : ℕ → ℕ → Text
first_digits zero n = []
first_digits (suc fuel) n =
    let front = first_digits fuel (n / 10) in if n == 0 then [] else front ++ (b'0' + n % 10) ∷ []

-- `fmt.Sprintf("%0*d", width, n)`.
unfoldable pub zero_padded : ℕ → ℕ → Text
unfolding last_digits first_digits
zero_padded width n = first_digits 64 (n / 10 ^ width) ++ last_digits width n

-- A hexadecimal digit.
abbrev pub hex_digit : ℕ → ℕ
hex_digit d = if ltb d 10 then b'0' + d else b'a' + (d - 10)

-- `hex.EncodeToString`.
unfoldable pub hex : List ℕ → Text
hex [] = []
hex (b ∷ bs) = hex_digit (b / 16) ∷ hex_digit (b % 16) ∷ hex bs

-- Nanoseconds from the zero `time.Time` to the Unix epoch.
abbrev pub unix_epoch : ℕ
unix_epoch = 62135596800 * 10 ^ 9

-- `newID`, from the wall clock and what `rand.Read` gives; if it fails, the six bytes are the
-- digits of the clock's microsecond field.
unfoldable pub new_id : ℕ → Option (List ℕ) → Text
unfolding zero_padded hex
new_id time random =
    zero_padded 13 ((time - unix_epoch) / 10 ^ 6)
    ++ codes "-"
    ++ hex (elim random [ none ↦ last_digits 6 (time % 10 ^ 9 % 1000000) | some bytes ↦ bytes ])
