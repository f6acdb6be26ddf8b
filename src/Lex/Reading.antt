-- ===== src/Lex/Reading.antt =====
-- The characters that the lexer is given are those of the file, each in its row.
use gemstone.Prelude.{
  ℕ, zero, suc, ◌+◌, ◌≤◌, ◌<◌, ◌≡◌, refl, ap, ◌∙◌, true, false, Option, none, some, List, [], ◌∷◌,
  ◌++◌, leb, ◌==◌, if◌then◌else◌, get_elem?, length, length-append, arith,
}
use gemstone.Lex.{
  Answer, line, failed, Lexer, lex_reset, get_next_line, char_at, fill_buffer, take_char, next_char,
}

-- What is read on after an answer of `next_char`.
abbrev pub read_on :
    (List Answer → Lexer → List (ℕ × ℕ)) → Option ℕ × (List Answer × Lexer) → List (ℕ × ℕ)
read_on rec (none, (answers, s)) = []
read_on rec (some c, (answers, s)) = (s.n_row, c) ∷ rec answers s

-- The characters that `next_char` gives until it gives none, each with the row that it is in, in at most so many calls.
unfoldable pub read_all : ℕ → List Answer → Lexer → List (ℕ × ℕ)
read_all zero answers s = []
read_all (suc n) answers s = read_on (read_all n) (next_char answers s)

-- The characters of a line, with its row.
abbrev pub in_row : ℕ → List ℕ → List (ℕ × ℕ)
in_row row [] = []
in_row row (c ∷ cs) = (row, c) ∷ in_row row cs

-- The characters of the lines in front of the first error, the rows counted from the first one.
abbrev pub in_rows : ℕ → List Answer → List (ℕ × ℕ)
in_rows row [] = []
in_rows row (failed ∷ answers) = []
in_rows row (line text ∷ answers) = in_row row text ++ in_rows (suc row) answers

-- How many characters there are.
abbrev pub total : List Answer → ℕ
total [] = 0
total (failed ∷ answers) = total answers
total (line text ∷ answers) = length text + total answers

-- No character of a line is NUL.
abbrev pub IsText : List ℕ → Type 0
IsText [] = Unit
IsText (c ∷ cs) = (0 < c) × IsText cs

abbrev pub AreTexts : List Answer → Type 0
AreTexts [] = Unit
AreTexts (failed ∷ answers) = AreTexts answers
AreTexts (line text ∷ answers) = IsText text × AreTexts answers

-- The place in the buffer: these characters are behind it.
abbrev At : List ℕ → List ℕ → Lexer → Type 0
At pre [] s = (s.eof ≡ false) × (s.l_buffer ≤ s.n_buffer)
At pre (c ∷ cs) s =
    (s.eof ≡ false)
    × (s.buffer ≡ pre ++ c ∷ cs)
    × (s.n_buffer ≡ length pre)
    × (s.l_buffer ≡ length pre + suc (length cs))

leb-true : {m n : ℕ} → m ≤ n → leb m n ≡ true
leb-true h = ground (arith, h)

leb-false : {m n : ℕ} → n < m → leb m n ≡ false
leb-false h = ground (arith, h)

get_elem?-middle : (pre cs : List ℕ) (c : ℕ) → get_elem? (pre ++ c ∷ cs) (length pre) ≡ some c
get_elem?-middle [] cs c = refl
get_elem?-middle (d ∷ pre) cs c = get_elem?-middle pre cs c

append-middle : (pre cs : List ℕ) (c : ℕ) → pre ++ c ∷ cs ≡ (pre ++ c ∷ []) ++ cs
append-middle [] cs c = refl
append-middle (d ∷ pre) cs c = ap (d ∷◌) (append-middle pre cs c)

-- A line is taken where the buffer is used up.
next_char-line :
    (text : List ℕ) (answers : List Answer) (s : Lexer)
    → At [] [] s
    → next_char (line text ∷ answers) s ≡ next_char answers (get_next_line (some (line text)) s).1
unfolding next_char fill_buffer get_next_line
next_char-line text answers s (e, h) = rw e (rw (leb-true h) refl)

next_char-last :
    (s : Lexer)
    → At [] [] s
    → (n : ℕ)
    → (read_all n [] s ≡ []) × ((answers : List Answer) → read_all n (failed ∷ answers) s ≡ [])
unfolding next_char fill_buffer read_all
next_char-last s (e, h) zero = (refl, λ answers. refl)
next_char-last s (e, h) (suc n) =
    (rw e (rw (leb-true h) refl), λ answers. rw e (rw (leb-true h) refl))

fill_buffer-full :
    (answers : List Answer) (s : Lexer)
    → leb s.l_buffer s.n_buffer ≡ false
    → fill_buffer answers s ≡ (true, (answers, s))
unfolding fill_buffer
fill_buffer-full [] s h = rw h refl
fill_buffer-full (failed ∷ answers) s h = rw h refl
fill_buffer-full (line text ∷ answers) s h = rw h refl

-- The next character of the buffer is taken.
next_char-next :
    (pre cs : List ℕ) (c : ℕ) (answers : List Answer) (s : Lexer)
    → At pre (c ∷ cs) s
    → 0 < c
    → next_char answers s ≡ (some c, (answers, record s { n_buffer = s.n_buffer + 1 }))
unfolding next_char
next_char-next pre cs c answers s (e, b, n, l) k =
    ap (λ b. if b then (none, (answers, s)) else take_char (fill_buffer answers s)) e
    ∙ ap take_char (fill_buffer-full answers s (leb-false (omega (arith, n, l))))
    ∙ taken
  where
    read : char_at s.buffer s.n_buffer ≡ c
    read = rw b (rw n (rw (char_at, get_elem?-middle pre cs c) refl))

    positive : (c == 0) ≡ false
    positive = ground (arith, k)

    taken :
        take_char (true, (answers, s)) ≡ (some c, (answers, record s { n_buffer = s.n_buffer + 1 }))
    taken = rw read (rw positive refl)

At-next :
    (pre cs : List ℕ) (c : ℕ) (s : Lexer)
    → At pre (c ∷ cs) s
    → At (pre ++ c ∷ []) cs (record s { n_buffer = s.n_buffer + 1 })
At-next pre [] c s (e, b, n, l) = (e, omega (arith, n, l))
At-next pre (d ∷ cs) c s (e, b, n, l) = (
  e,
  b ∙ append-middle pre (d ∷ cs) c,
  rw (length-append pre (c ∷ [])) (omega (arith, n)),
  rw (length-append pre (c ∷ [])) (omega (arith, l)),
)

At-line : (text : List ℕ) (s : Lexer) → At [] text (get_next_line (some (line text)) s).1
unfolding get_next_line
At-line [] s = (refl, omega arith)
At-line (c ∷ cs) s = (refl, refl, refl, omega arith)

read_all-rest :
    (answers : List Answer) (n : ℕ) (pre cs : List ℕ) (s : Lexer)
    → At pre cs s
    → IsText cs
    → AreTexts answers
    → length cs + total answers < n
    → read_all n answers s ≡ in_row s.n_row cs ++ in_rows (suc s.n_row) answers
unfolding read_all get_next_line
read_all-rest answers zero pre cs s a t ts h = absurd (omega (arith, h))
read_all-rest [] (suc n) pre [] s a t ts h = (next_char-last s a (suc n)).0
read_all-rest (failed ∷ answers) (suc n) pre [] s a t ts h = (next_char-last s a (suc n)).1 answers
read_all-rest (line text ∷ answers) (suc n) pre [] s a t (u, ts) h =
    rw (next_char-line text answers s a)
      (read_all-rest answers (suc n) [] text _ (At-line text s) u ts (omega (arith, h)))
read_all-rest answers (suc n) pre (c ∷ cs) s a (k, t) ts h =
    rw (next_char-next pre cs c answers s a k) (
      ap ((s.n_row, c) ∷◌) (
        read_all-rest answers n (pre ++ c ∷ []) cs _ (At-next pre cs c s a) t ts
          (omega (arith, h))))

-- Where no character of a line is NUL, the characters that nextChar gives from lex_reset until it gives none are those of the lines in
-- front of the first error, in their order, and none is left out or given twice; with each stands the number of its line in nRow,
-- from one. As many calls as there are characters, and one more, are enough.
pub read_all-lex_reset :
    (answers : List Answer) (s : Lexer)
    → AreTexts answers
    → read_all (suc (total answers)) answers (lex_reset s) ≡ in_rows 1 answers
unfolding lex_reset
read_all-lex_reset answers s h =
    read_all-rest answers (suc (total answers)) [] [] (lex_reset s) (refl, omega arith) tt h
      (omega arith)
