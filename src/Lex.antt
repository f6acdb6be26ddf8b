-- ===== src/Lex.antt =====
-- What stands between the file and the generated lexer: src/lex/util.c, one line of the file at a time.
pub mod Reading
pub mod Examples
use gemstone.Prelude.{
  ℕ, suc, ◌+◌, ◌-◌, Bool, true, false, Option, none, some, List, [], ◌∷◌, leb, ◌==◌, if◌then◌else◌,
  get_elem?, length,
}

-- What `fgets` gives when it is asked, which is not code of this repository: the characters in front
-- of the first NUL of the line, or `NULL` because of an error. Behind the last answer is the end of the file.
pub data Answer : Type 0 where
  line : List ℕ → Answer
  failed : Answer

-- The variables of util.c; the number of a token's start is `none` where they hold -1.
pub record Lexer : Type 0 where
  pub buffer : List ℕ
  pub eof : Bool
  pub n_row : ℕ
  pub n_buffer : ℕ
  pub l_buffer : ℕ
  pub n_token_start : Option ℕ
  pub n_token_length : ℕ
  pub n_token_next_start : ℕ

-- `yylloc`.
pub record Location : Type 0 where
  pub first_line : ℕ
  pub first_column : ℕ
  pub last_line : ℕ
  pub last_column : ℕ

-- `lex_reset`: the buffer keeps its characters.
unfoldable pub lex_reset : Lexer → Lexer
lex_reset s = record {
  buffer = s.buffer;
  eof = false;
  n_row = 0;
  n_buffer = 0;
  l_buffer = 0;
  n_token_start = some 0;
  n_token_length = 0;
  n_token_next_start = 0;
}

-- `beginToken`. A token of the lexer has a character at least.
unfoldable pub begin_token : List ℕ → Lexer → Lexer × Location
begin_token t s = (
  record s {
    n_token_start = some s.n_token_next_start;
    n_token_length = length t;
    n_token_next_start = s.n_buffer + 1;
  },
  record {
    first_line = s.n_row;
    first_column = s.n_token_next_start;
    last_line = s.n_row;
    last_column = s.n_token_next_start + length t - 1;
  },
)

-- How `getNextLine` starts.
abbrev pub start_line : Lexer → Lexer
start_line s = record s { n_buffer = 0; n_token_start = none; n_token_next_start = 1; eof = false }

-- `getNextLine`, with whether its result is 0.
unfoldable pub get_next_line : Option Answer → Lexer → Bool × Lexer
get_next_line none s = (false, record (start_line s) { eof = true })
get_next_line (some failed) s = (false, start_line s)
get_next_line (some (line text)) s =
    (true, record (start_line s) { n_row = suc s.n_row; buffer = text; l_buffer = length text })

-- `buffer[i]`: a NUL stands behind the characters.
abbrev pub char_at : List ℕ → ℕ → ℕ
char_at text i = elim (get_elem? text i) [ none ↦ 0 | some c ↦ c ]

-- The loop of `nextChar`: whether there is a character in the buffer at its end.
unfoldable pub fill_buffer : List Answer → Lexer → Bool × (List Answer × Lexer)
fill_buffer [] s =
    if leb s.l_buffer s.n_buffer then (false, ([], (get_next_line none s).1)) else (true, ([], s))
fill_buffer (failed ∷ answers) s =
    if leb s.l_buffer s.n_buffer
    then (false, (answers, (get_next_line (some failed) s).1))
    else (true, (failed ∷ answers, s))
fill_buffer (line text ∷ answers) s =
    let rest = fill_buffer answers (get_next_line (some (line text)) s).1 in
    if leb s.l_buffer s.n_buffer then rest else (true, (line text ∷ answers, s))

-- `nextChar` behind its loop. The result is the character, or `none` where the code answers 0.
abbrev pub take_char : Bool × (List Answer × Lexer) → Option ℕ × (List Answer × Lexer)
take_char (false, (answers, s)) = (none, (answers, s))
take_char (true, (answers, s)) =
    let c = char_at s.buffer s.n_buffer in
    (if c == 0 then none else some c, (answers, record s { n_buffer = s.n_buffer + 1 }))

-- `nextChar`.
unfoldable pub next_char : List Answer → Lexer → Option ℕ × (List Answer × Lexer)
next_char answers s = if s.eof then (none, (answers, s)) else take_char (fill_buffer answers s)

-- `sequences`: what is written, and what it stands for.
abbrev pub sequences : List (List ℕ × List ℕ)
sequences =
    (92 ∷ 110 ∷ [], 10 ∷ [])
    ∷ (92 ∷ 92 ∷ [], 92 ∷ [])
    ∷ (92 ∷ 116 ∷ [], 9 ∷ [])
    ∷ (92 ∷ 114 ∷ [], 13 ∷ [])
    ∷ []

-- The characters of a string, those to look for, and those to put in their place wherever they are found: `g_string_replace`,
-- which is not code of this repository.
module _ (replace : List ℕ → List ℕ → List ℕ → List ℕ) where
  unfoldable pub replace_each : List (List ℕ × List ℕ) → List ℕ → List ℕ
  replace_each [] string = string
  replace_each ((esc, rep) ∷ rest) string = replace_each rest (replace string esc rep)

  -- `collapse_escape_sequences`.
  unfoldable pub collapse_escape_sequences : List ℕ → List ℕ
  collapse_escape_sequences string = replace_each sequences string
