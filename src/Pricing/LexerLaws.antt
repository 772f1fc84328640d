-- ===== src/Pricing/LexerLaws.antt =====
-- The lexer of internal/service/pricing.go reads printed tokens back, and each token that it reads
-- uses up at least one byte.
use license_server_ai.Base.{
  ℕ, ◌≡◌, refl, ◌∙◌, and_left, and_intro, Bool, true, false, none, some, [], ◌∷◌, ◌++◌, arith,
}
use license_server_ai.Pricing.Text.{Text, is_space, is_digit, skip_spaces, atoi}
use license_server_ai.Base.Int.{ℤ}
use license_server_ai.Pricing.Lexer
use license_server_ai.Pricing.Lexer.{
  Token, num, ident, plus, minus, mul, div, lparen, rparen, eof, Outcome, ok, failed, out_of_fuel,
  is_ident_start, is_ident_part, span, word, number_word, name_word, lex_from, next,
}
use license_server_ai.Pricing.Grammar.{
  Lexeme, Lexemes, digits, letters, symbol, token_of, print, all_bytes, IsName, IsNumeral,
}

-- What follows a printed token is a space, or nothing.
abbrev Stops : (ℕ → Bool) → Text → Type 0
Stops p [] = Unit
Stops p (c ∷ cs) = p c ≡ false

span-append :
    (p : ℕ → Bool) (xs ys : Text)
    → all_bytes p xs ≡ true
    → Stops p ys
    → span p (xs ++ ys) ≡ (xs, ys)
unfolding span
span-append p [] [] h s = refl
span-append p [] (y ∷ ys) h s = ground arith
span-append p (x ∷ xs) ys h s = ground (arith, span-append p xs ys)

print-Stops_digit : (xs : Lexemes) → Stops is_digit (print xs)
unfolding print
print-Stops_digit [] = tt
print-Stops_digit (x ∷ xs) = refl

print-Stops_name : (xs : Lexemes) → Stops is_ident_part (print xs)
unfolding print is_ident_part
print-Stops_name [] = tt
print-Stops_name (x ∷ xs) = refl

-- A digit starts no symbol and is no space; a letter is no digit either.
digit_starts : (c : ℕ) → is_digit c ≡ true → (Lexer.symbol c ≡ none) × (is_space c ≡ false)
unfolding Lexer.symbol is_space
digit_starts c h = ground arith

letter_starts :
    (c : ℕ)
    → is_ident_start c ≡ true
    → (Lexer.symbol c ≡ none)
      × (is_space c ≡ false)
      × (is_digit c ≡ false)
      × (is_ident_part c ≡ true)
unfolding Lexer.symbol is_space is_ident_part
letter_starts c h = ground arith

abbrev pub IsLexeme : Lexeme → Type 0
IsLexeme (digits ds n) = IsNumeral ds n
IsLexeme (letters x) = IsName x
IsLexeme (symbol c t) = (Lexer.symbol c ≡ some t) × (is_space c ≡ false)

skip_spaces-space : (c : ℕ) (cs : Text) → is_space c ≡ false → skip_spaces (32 ∷ c ∷ cs) ≡ c ∷ cs
unfolding skip_spaces
skip_spaces-space c cs h = rw h

next-symbol :
    (c : ℕ) (t : Token) (cs : Text)
    → Lexer.symbol c ≡ some t
    → is_space c ≡ false
    → next (32 ∷ c ∷ cs) ≡ ok (t, cs)
unfolding next lex_from
next-symbol c t cs h s = rw (skip_spaces-space c cs s) (rw (h, lex_from))

next-word :
    (c : ℕ) (cs : Text)
    → Lexer.symbol c ≡ none
    → is_space c ≡ false
    → next (32 ∷ c ∷ cs) ≡ word c cs
unfolding next lex_from
next-word c cs h s = rw (skip_spaces-space c cs s) (rw (h, lex_from))

number_word-ok :
    (ds rest : Text) (n : ℤ) → atoi ds ≡ some n → number_word (ds, rest) ≡ ok (num n, rest)
unfolding number_word
number_word-ok ds rest n a = rw a

word-numeral :
    (c : ℕ) (cs ds rest : Text) (n : ℤ)
    → is_digit c ≡ true
    → span is_digit (c ∷ cs) ≡ (ds, rest)
    → atoi ds ≡ some n
    → word c cs ≡ ok (num n, rest)
unfolding word
word-numeral c cs ds rest n d s a = rw d (rw s (number_word-ok ds rest n a))

word-name :
    (c : ℕ) (cs x rest : Text)
    → is_digit c ≡ false
    → is_ident_start c ≡ true
    → span is_ident_part (c ∷ cs) ≡ (x, rest)
    → word c cs ≡ ok (ident x, rest)
unfolding word name_word
word-name c cs x rest d i s = rw d (rw i (rw s))

-- The lexer reads a printed token, and leaves what was printed behind it.
pub next-print :
    (x : Lexeme) (xs : Lexemes) → IsLexeme x → next (print (x ∷ xs)) ≡ ok (token_of x, print xs)
unfolding print
next-print (digits [] n) xs h = elim h [ ]
next-print (digits (c ∷ cs) n) xs h =
    let start = digit_starts c (and_left _ _ h.0) in
    next-word c (cs ++ print xs) start.0 start.1
    ∙ word-numeral c (cs ++ print xs) (c ∷ cs) (print xs) n (and_left _ _ h.0)
        (span-append is_digit (c ∷ cs) (print xs) h.0 (print-Stops_digit xs)) h.1
next-print (letters []) xs h = elim h [ ]
next-print (letters (c ∷ cs)) xs h =
    let start = letter_starts c h.0 in
    next-word c (cs ++ print xs) start.0 start.1
    ∙ word-name c (cs ++ print xs) (c ∷ cs) (print xs) start.2 h.0 (
        span-append is_ident_part (c ∷ cs) (print xs) (and_intro start.3 h.1) (print-Stops_name xs))
next-print (symbol c t) xs h = next-symbol c t (print xs) h.0 h.1

pub next-nil : next [] ≡ ok (eof, [])
unfolding next lex_from skip_spaces
next-nil = refl
