-- ===== src/Prelude/Ctype.antt =====
-- <cctype> in the "C" locale.
use Prim.Native.Nat.{ℕ, ◌+◌}
use mathlib.Core.Bool.{Bool, ◌&&◌, ◌||◌}
use u_lang.Prelude.Tests.{leb, if◌then◌else◌}

unfoldable pub isdigit : ℕ → Bool
isdigit c = leb 48 c && leb c 57

unfoldable pub isxdigit : ℕ → Bool
unfolding isdigit
isxdigit c = isdigit c || (leb 65 c && leb c 70) || (leb 97 c && leb c 102)

unfoldable pub tolower : ℕ → ℕ
tolower c = if leb 65 c && leb c 90 then c + 32 else c

-- The functions of the "C" locale; a byte above 127 is none of these.
unfoldable pub ispunct : ℕ → Bool
ispunct c =
    (leb 33 c && leb c 47)
    || ((leb 58 c && leb c 64) || ((leb 91 c && leb c 96) || (leb 123 c && leb c 126)))

unfoldable pub isprint : ℕ → Bool
isprint c = leb 32 c && leb c 126
