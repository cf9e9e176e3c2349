-- ===== src/Segment.antt =====
-- `sanitizeSegment` of queue.go: a text made one safe path segment.
pub mod Safe
use agentqueue.Prelude.{
  ℕ, Text, codes, trim, text_eq, is_empty, [], ◌∷◌, ◌++◌, ◌==◌, leb, ◌&&◌, ◌||◌, Bool, replicate,
  rune_length, if◌then◌else◌,
}
use agentqueue.Data.{invalid_target, Result, ok, err}

-- A byte of `[A-Za-z0-9._-]`.
unfoldable pub is_safe : ℕ → Bool
is_safe c =
    (leb b'A' c && leb c b'Z')
    || (leb b'a' c && leb c b'z')
    || (leb b'0' c && leb c b'9')
    || c == b'.'
    || c == b'_'
    || c == b'-'

-- Each byte of any other code point becomes `_`.
unfoldable pub replaced : Text → Text
unfolding is_safe
replaced [] = []
replaced (c ∷ s) = (if is_safe c then c ∷ [] else replicate (rune_length c) b'_') ++ replaced s

unfoldable pub sanitize : Text → Result Text
unfolding replaced
sanitize s =
    let s' = trim s in
    let out = replaced s' in
    if is_empty s'
    then err invalid_target
    else if text_eq out (codes ".") || text_eq out (codes "..")
    then err invalid_target
    else ok out
