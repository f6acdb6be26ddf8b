-- ===== src/Lex/Examples.antt =====
-- The theorem on src/lex/util.c at two lines and an error.
use gemstone.Prelude.{
  ℕ, ◌&&◌, ◌==◌, if◌then◌else◌, suc, ◌≡◌, refl, none, List, [], ◌∷◌, ◌++◌, true, arith,
}
use gemstone.Lex.{
  Answer, line, failed, Lexer, lex_reset, begin_token, replace_each, collapse_escape_sequences,
}
use gemstone.Lex.Reading.{in_rows, total, read_all, read_all-lex_reset}

abbrev two_lines : List Answer
two_lines = line (97 ∷ 61 ∷ 10 ∷ []) ∷ line [] ∷ line (98 ∷ []) ∷ failed ∷ line (99 ∷ []) ∷ []

-- Variables as an earlier file has left them.
abbrev used : Lexer
used = record {
  buffer = 120 ∷ 121 ∷ [];
  eof = true;
  n_row = 7;
  n_buffer = 1;
  l_buffer = 2;
  n_token_start = none;
  n_token_length = 4;
  n_token_next_start = 2;
}

rows : in_rows 1 two_lines ≡ (1, 97) ∷ (1, 61) ∷ (1, 10) ∷ (3, 98) ∷ []
rows = refl

second_token :
    (begin_token (61 ∷ 61 ∷ []) (lex_reset used)).1
    ≡ record { first_line = 0; first_column = 0; last_line = 0; last_column = 1 }
unfolding begin_token lex_reset
second_token = refl

read_all-lex_reset_example :
    read_all (suc (total two_lines)) two_lines (lex_reset used) ≡ in_rows 1 two_lines
read_all-lex_reset_example = read_all-lex_reset two_lines used (
  (omega arith, (omega arith, (omega arith, tt))),
  (tt, ((omega arith, tt), ((omega arith, tt), tt))),
)

-- Two characters are replaced from the left, wherever they stand.
abbrev replace_two : List ℕ → List ℕ → List ℕ → List ℕ
replace_two (x ∷ y ∷ cs) (a ∷ b ∷ []) rep =
    let later = replace_two (y ∷ cs) (a ∷ b ∷ []) rep in
    let behind = replace_two cs (a ∷ b ∷ []) rep in
    if (x == a) && (y == b) then rep ++ behind else x ∷ later
replace_two cs _ _ = cs

-- A backslash that is written with two, in front of the letter n, becomes a backslash and a line feed.
escaped_backslash : collapse_escape_sequences replace_two (92 ∷ 92 ∷ 110 ∷ []) ≡ 92 ∷ 10 ∷ []
unfolding collapse_escape_sequences replace_each
escaped_backslash = refl
