-- ===== src/Lexer/Lex/Comments.antt =====
-- Line comments in the characters ahead: those that a new-line closes, and those that none does.
use u_lang.Prelude.{
  ℕ, ◌<◌, ◌≡◌, refl, ap, Bool, true, false, not, ◌&&◌, ◌||◌, List, [], ◌∷◌, ◌++◌, length, All,
  arith, ◌==◌, Bool-cases, inl, inr,
}

abbrev pub has_new_line : List ℕ → Bool
has_new_line [] = false
has_new_line (c ∷ cs) = c == b'\n' || has_new_line cs

-- Here a line comment begins that no new-line closes.
abbrev pub opens_comment : List ℕ → Bool
opens_comment (c ∷ d ∷ cs) = c == b'/' && (d == b'/' && not (has_new_line cs))
opens_comment _ = false

has_new_line-All : (cs : List ℕ) → has_new_line cs ≡ false → All (λ c. not (c == b'\n')) cs
has_new_line-All [] h = tt
has_new_line-All (c ∷ cs) h = (ground arith, has_new_line-All cs (ground arith))

-- The body of a comment, up to its new-line.
pub record Body (cs : List ℕ) : Type 0 where
  pub body : List ℕ
  pub rest : List ℕ
  pub parts : cs ≡ body ++ b'\n' ∷ rest
  pub plain : All (λ c. not (c == b'\n')) body
  pub short : length body < length cs

pub has_new_line-Body : (cs : List ℕ) → has_new_line cs ≡ true → Body cs
has_new_line-Body [] h = absurd (cc h)
has_new_line-Body (c ∷ cs) h = elim (Bool-cases (c == b'\n')) [
  | inl y ↦ record {
    body = [];
    rest = cs;
    parts = ground (arith, y);
    plain = tt;
    short = omega arith;
  }
  | inr n ↦
      let b = has_new_line-Body cs (ground arith) in
      record {
        body = c ∷ b.body;
        rest = b.rest;
        parts = ap (λ t. c ∷ t) b.parts;
        plain = (rw n refl, b.plain);
        short = omega (arith, b.short);
      }
]

-- A comment that is open.
pub opens_comment-All :
    (cs : List ℕ)
    → opens_comment cs ≡ true
    → (body : List ℕ) × (cs ≡ b'/' ∷ b'/' ∷ body) × All (λ c. not (c == b'\n')) body
opens_comment-All [] h = absurd (cc h)
opens_comment-All (c ∷ []) h = absurd (cc h)
opens_comment-All (c ∷ d ∷ cs) h =
    let first : c ≡ b'/' = ground arith in
    let second : d ≡ b'/' = ground arith in
    (cs, cc (first, second), has_new_line-All cs (ground arith))
