-- ===== src/Pricing/Consumption.antt =====
-- The lexer of internal/service/pricing.go takes at least a byte for each token, and never runs out
-- of fuel.
use mathlib.Core.Path.{subst}
use license_server_ai.Base.{
  ℕ, ◌+◌, ◌≤◌, ◌≡◌, ◌≢◌, refl, Bool, true, false, Option, none, some, [], ◌∷◌, arith, length,
  if◌then◌else◌,
}
use license_server_ai.Base.Int.{ℤ, pos, eqb_ℤ}
use license_server_ai.Pricing.Text.{Text, is_digit, atoi, skip_spaces}
use license_server_ai.Pricing.Lexer
use license_server_ai.Pricing.Lexer.{
  Token, num, ident, plus, minus, mul, div, lparen, rparen, eof, Outcome, ok, failed, out_of_fuel,
  next, ◌>>=◌, span, word, number_word, name_word, number_token, lex_from, is_ident_start,
  is_ident_part,
}
use license_server_ai.Pricing.Parser.{State, advance, close, divide, variable}

-- An outcome that has not run out of fuel, and whose result has the property.
abbrev pub Fits : {A : Type 0} → (A → Type 0) → Outcome A → Type 0
Fits P (ok a) = P a
Fits P (failed e) = Unit
Fits P out_of_fuel = ⊥

pub Fits-bind :
    {A B : Type 0} (P : A → Type 0) (Q : B → Type 0) (m : Outcome A) (k : A → Outcome B)
    → Fits P m
    → ((a : A) → P a → Fits Q (k a))
    → Fits Q (m >>= k)
Fits-bind P Q (ok a) k h each = each a h
Fits-bind P Q (failed e) k h each = tt
Fits-bind P Q out_of_fuel k h each = elim h [ ]

pub Fits-mono :
    {A : Type 0} (P Q : A → Type 0) (m : Outcome A) → Fits P m → ((a : A) → P a → Q a) → Fits Q m
Fits-mono P Q (ok a) h each = each a h
Fits-mono P Q (failed e) h each = tt
Fits-mono P Q out_of_fuel h each = elim h [ ]

pub Fits-fuel : {A : Type 0} (P : A → Type 0) (m : Outcome A) → Fits P m → m ≢ out_of_fuel
Fits-fuel P m h = λ e. elim (subst (Fits P) e h) [ ]

Fits-if :
    {A : Type 0} (P : A → Type 0) (b : Bool) (x y : Outcome A)
    → (b ≡ true → Fits P x)
    → (b ≡ false → Fits P y)
    → Fits P (if b then x else y)
Fits-if P true x y h k = h refl
Fits-if P false x y h k = k refl

-- The tokens that a state may still give: the current one counts unless it is the end.
abbrev pub left_of : Token → ℕ → ℕ
left_of eof n = 0
left_of _ n = 1 + n

abbrev pub left : State → ℕ
left (t, rest) = left_of t (length rest)

left_of-suc : (t : Token) (n : ℕ) → left_of t n ≤ 1 + n
left_of-suc t n = ground arith

skip_spaces-short : (cs : Text) → length (skip_spaces cs) ≤ length cs
unfolding skip_spaces
skip_spaces-short [] = omega arith
skip_spaces-short (c ∷ cs) = ground (arith, skip_spaces-short cs)

span-short : (p : ℕ → Bool) (cs : Text) → length (span p cs).1 ≤ length cs
unfolding span
span-short p [] = omega arith
span-short p (c ∷ cs) = ground (arith, span-short p cs)

span-takes :
    (p : ℕ → Bool) (c : ℕ) (cs : Text)
    → p c ≡ true
    → 1 + length (span p (c ∷ cs)).1 ≤ length (c ∷ cs)
unfolding span
span-takes p c cs h = rw h (let short = span-short p cs in omega arith)

number_token-Fits :
    (rest : Text) (o : Option ℤ) (n : ℕ)
    → 1 + length rest ≤ n
    → Fits (λ s. left s ≤ n) (number_token rest o)
number_token-Fits rest none n h = tt
number_token-Fits rest (some v) n h = h

starts_part : (c : ℕ) → is_ident_start c ≡ true → is_ident_part c ≡ true
unfolding is_ident_part
starts_part c h = rw h refl

word-Fits : (c : ℕ) (cs : Text) → Fits (λ s. left s ≤ length (c ∷ cs)) (word c cs)
unfolding word number_word name_word
word-Fits c cs =
    Fits-if _ (is_digit c) _ _
      (λ d. number_token-Fits _ (atoi (span is_digit (c ∷ cs)).0) _ (span-takes is_digit c cs d))
      (λ d.
        Fits-if _ (is_ident_start c) _ _ (λ i. span-takes is_ident_part c cs (starts_part c i))
          (λ i. tt))

symbol-Fits :
    (o : Option Token) (c : ℕ) (cs : Text)
    → Fits (λ s. left s ≤ length (c ∷ cs)) (elim o [ some t ↦ ok (t, cs) | none ↦ word c cs ])
symbol-Fits none c cs = word-Fits c cs
symbol-Fits (some t) c cs = let bound = left_of-suc t (length cs) in omega arith

lex_from-Fits : (src : Text) → Fits (λ s. left s ≤ length src) (lex_from src)
unfolding lex_from
lex_from-Fits [] = omega arith
lex_from-Fits (c ∷ cs) = symbol-Fits (Lexer.symbol c) c cs

pub next-Fits : (src : Text) → Fits (λ s. left s ≤ length src) (next src)
unfolding next
next-Fits src =
    Fits-mono (λ s. left s ≤ length (skip_spaces src)) (λ s. left s ≤ length src)
      (lex_from (skip_spaces src)) (lex_from-Fits (skip_spaces src))
      (λ s h. let short = skip_spaces-short src in omega arith)

-- A call that returns leaves fewer than `n` tokens.
abbrev pub Leaves : ℕ → Outcome (ℤ × State) → Type 0
Leaves n = Fits (λ r. 1 + left r.1 ≤ n)

pub Leaves-advance :
    (n : ℕ) (rest : Text) (k : State → Outcome (ℤ × State))
    → ((s : State) → left s ≤ length rest → Leaves n (k s))
    → Leaves n (advance rest >>= k)
Leaves-advance n rest k each =
    Fits-bind (λ s. left s ≤ length rest) (λ r. 1 + left r.1 ≤ n) (next rest) k (next-Fits rest)
      each

pub Leaves-then :
    (a n : ℕ) (m : Outcome (ℤ × State)) (k : ℤ → State → Outcome (ℤ × State))
    → Leaves a m
    → ((v : ℤ) (s : State) → 1 + left s ≤ a → Leaves n (k v s))
    → Leaves n (m >>= λ r. k r.0 r.1)
Leaves-then a n m k h each =
    Fits-bind (λ r. 1 + left r.1 ≤ a) (λ r. 1 + left r.1 ≤ n) m (λ r. k r.0 r.1) h
      (λ r. each r.0 r.1)

pub Leaves-value :
    (n : ℕ) (m : Outcome ℤ) (k : ℤ → Outcome (ℤ × State))
    → Fits (λ v. Unit) m
    → ((v : ℤ) → Leaves n (k v))
    → Leaves n (m >>= k)
Leaves-value n m k h each = Fits-bind (λ v. Unit) (λ r. 1 + left r.1 ≤ n) m k h (λ v u. each v)

pub Leaves-token :
    (n : ℕ) (rest : Text) (v : ℤ) → 1 + length rest ≤ n → Leaves n (advance rest >>= λ s. ok (v, s))
Leaves-token n rest v h =
    Leaves-advance n rest (λ s. ok (v, s)) (λ s b. let both = b in omega arith)

pub divide-Fits : (v r : ℤ) → Fits (λ q. Unit) (divide v r)
unfolding divide
divide-Fits v r = Fits-if _ (eqb_ℤ r (pos 0)) _ _ (λ z. tt) (λ z. tt)

pub variable-Fits : (o : Option (Option ℤ)) → Fits (λ n. Unit) (variable o)
variable-Fits none = tt
variable-Fits (some none) = tt
variable-Fits (some (some n)) = tt

pub close-Leaves : (n : ℕ) (v : ℤ) (s : State) → 1 + left s ≤ n → Leaves n (close v s)
unfolding close
close-Leaves n v (rparen, rest) h = Leaves-token n rest v (omega arith)
close-Leaves n v (_, rest) h = tt

pub Leaves-less : (n a : ℕ) (m : Outcome (ℤ × State)) → a ≤ n → Leaves a m → Leaves n m
Leaves-less n a m h =
    λ k. Fits-mono (λ r. 1 + left r.1 ≤ a) (λ r. 1 + left r.1 ≤ n) m k (λ r l. omega arith)
