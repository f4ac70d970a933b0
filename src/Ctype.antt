-- ===== src/Ctype.antt =====
-- The character classes of <ctype.h> in the "C" locale, as the utils/ sources call them, and the
-- `tohex`/`fromhex` helpers that utils/wvhex.cc and utils/wvbackslash.cc define on top of them.
-- A character is the number of its byte; what is not ASCII is in no class.
use wvstreams.Prelude.{ℕ, ◌+◌, ◌-◌, Bool, ◌&&◌, ◌||◌, ltb, leb, ◌==◌, if◌then◌else◌}

unfoldable pub isdigit : ℕ → Bool
isdigit c = leb b'0' c && leb c b'9'

unfoldable pub isupper : ℕ → Bool
isupper c = leb b'A' c && leb c b'Z'

unfoldable pub islower : ℕ → Bool
islower c = leb b'a' c && leb c b'z'

unfoldable pub isalnum : ℕ → Bool
unfolding isdigit isupper islower
isalnum c = isdigit c || isupper c || islower c

unfoldable pub isxdigit : ℕ → Bool
unfolding isdigit
isxdigit c = isdigit c || (leb b'A' c && leb c b'F') || (leb b'a' c && leb c b'f')

-- ' ', '\t', '\n', '\v', '\f', '\r'
unfoldable pub isspace : ℕ → Bool
isspace c = c == 32 || (leb 9 c && leb c 13)

unfoldable pub isprint : ℕ → Bool
isprint c = leb 32 c && leb c 126

unfoldable pub toupper : ℕ → ℕ
unfolding islower
toupper c = if islower c then c - 32 else c

unfoldable pub tolower : ℕ → ℕ
unfolding isupper
tolower c = if isupper c then c + 32 else c

-- the digit's character; `alphabase` is that of the letter for ten, less ten
unfoldable pub tohex : ℕ → ℕ → ℕ
tohex digit alphabase = (if ltb digit 10 then b'0' else alphabase) + digit
