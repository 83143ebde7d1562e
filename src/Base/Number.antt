-- ===== src/Base/Number.antt =====
-- The decimal text of a number determines it.
use Prim.Native.Char.{code}
use Prim.Native.Nat.{◌*◌}
use text.Mathlib.TextLemmas.{append_cancel_left}
use xiuxian.Base.{
  ℕ, zero, suc, ◌+◌, ◌-◌, ◌/◌, ◌%◌, ◌<◌, inl, inr, ltb, get_or, ◌≡◌, refl, ap, sym, ◌∙◌, arith,
  Bool-cases, ltb→lt, lt→ltb, dec_lt, String,
}
use xiuxian.Base.Text.{◌⊕◌, digits, digits_onto, decimal}

-- The number that a text of digits denotes, after those read so far.
number_from : ℕ → String → ℕ
number_from acc String.[] = acc
number_from acc (String.◌∷◌ c s) = number_from (acc * 10 + (code c - 48)) s

not_below : (n : ℕ) → suc (suc (suc (suc (suc (suc (suc (suc (suc (suc n))))))))) < 10 → ⊥
not_below n h = omega arith

code-digits : (d : ℕ) → d < 10 → code (get_or digits d "0") - 48 ≡ d
code-digits zero h = refl
code-digits (suc zero) h = refl
code-digits (suc (suc zero)) h = refl
code-digits (suc (suc (suc zero))) h = refl
code-digits (suc (suc (suc (suc zero)))) h = refl
code-digits (suc (suc (suc (suc (suc zero))))) h = refl
code-digits (suc (suc (suc (suc (suc (suc zero)))))) h = refl
code-digits (suc (suc (suc (suc (suc (suc (suc zero))))))) h = refl
code-digits (suc (suc (suc (suc (suc (suc (suc (suc zero)))))))) h = refl
code-digits (suc (suc (suc (suc (suc (suc (suc (suc (suc zero))))))))) h = refl
code-digits (suc (suc (suc (suc (suc (suc (suc (suc (suc (suc n)))))))))) h =
    elim (not_below n h) [ ]

zero_add : (n : ℕ) → 0 * 10 + n ≡ n
zero_add n = omega arith

div_mod : (n : ℕ) → n / 10 * 10 + n % 10 ≡ n
div_mod n = omega arith

number_from-digits_onto :
    (fuel n : ℕ) (rest : String)
    → n < fuel
    → number_from 0 (digits_onto fuel n rest) ≡ number_from n rest
unfolding digits_onto number_from
number_from-digits_onto zero n rest h = omega arith
number_from-digits_onto (suc fuel) n rest h = elim (Bool-cases (ltb n 10)) [
  | inl e ↦
      rw (e, digits_onto)
        (ap (λ m. number_from m rest)
          (ap (λ m. 0 * 10 + m) (code-digits n (ltb→lt n 10 e)) ∙ zero_add n))
  | inr e ↦
      rw (e, digits_onto)
        (number_from-digits_onto fuel (n / 10) _
            (elim (dec_lt n 10) [ yes l ↦ cc (lt→ltb n 10 l) | no l ↦ omega arith ])
          ∙ ap (λ m. number_from m rest)
              (ap (λ m. n / 10 * 10 + m) (code-digits (n % 10) (omega arith)) ∙ div_mod n))
]

number_from-decimal : (n : ℕ) → number_from 0 (decimal n) ≡ n
unfolding decimal number_from
number_from-decimal n = number_from-digits_onto (suc n) n "" (omega arith)

pub decimal-injective : (m n : ℕ) → decimal m ≡ decimal n → m ≡ n
decimal-injective m n e = sym (number_from-decimal m) ∙ ap (number_from 0) e ∙ number_from-decimal n

-- fmt.Sprintf("role_%d", n)
abbrev pub role_text : ℕ → String
role_text n = "role_" ⊕ decimal n

pub role_text-injective : (m n : ℕ) → role_text m ≡ role_text n → m ≡ n
role_text-injective m n e =
    decimal-injective m n (append_cancel_left "role_" (decimal m) (decimal n) e)
