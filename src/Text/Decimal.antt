-- ===== src/Text/Decimal.antt =====
-- Decimal texts, printed and read.
use Prim.Native.Char.{code}
use dcm_kcli_provider.Prelude.{
  ℕ, zero, suc, ◌+◌, ◌*◌, ◌/◌, ◌%◌, ◌<◌, String, ◌≡◌, refl, ◌∙◌, ap, Bool, true, false, some, List,
  [], ◌∷◌, arith, ltb, Bool-cases, inl, inr,
}
use dcm_kcli_provider.Text.{int_limit, codes, is_digit, digits_value, atoi, digit, itoa_loop, itoa}

code-digit : (d : ℕ) → d < 10 → code (digit d) ≡ 48 + d
unfolding digit
code-digit zero h = refl
code-digit (suc zero) h = refl
code-digit (suc (suc zero)) h = refl
code-digit (suc (suc (suc zero))) h = refl
code-digit (suc (suc (suc (suc zero)))) h = refl
code-digit (suc (suc (suc (suc (suc zero))))) h = refl
code-digit (suc (suc (suc (suc (suc (suc zero)))))) h = refl
code-digit (suc (suc (suc (suc (suc (suc (suc zero))))))) h = refl
code-digit (suc (suc (suc (suc (suc (suc (suc (suc zero)))))))) h = refl
code-digit (suc (suc (suc (suc (suc (suc (suc (suc (suc zero))))))))) h = refl
code-digit (suc (suc (suc (suc (suc (suc (suc (suc (suc (suc d)))))))))) h = absurd (omega arith)

abbrev pub head_digit : List ℕ → Bool
head_digit [] = false
head_digit (c ∷ cs) = is_digit c

digits_value-cons :
    (d k : ℕ) (cs : List ℕ)
    → d < 10
    → digits_value (code (digit d) ∷ cs) k ≡ digits_value cs (k * 10 + d)
unfolding digits_value
digits_value-cons d k cs h = ground (arith, code-digit d h)

digits_value-itoa_loop :
    (fuel n : ℕ) (acc : String)
    → n < fuel
    → digits_value (codes (itoa_loop fuel n acc)) 0 ≡ digits_value (codes acc) n
unfolding itoa_loop
digits_value-itoa_loop zero n acc h = elim h [ ]
digits_value-itoa_loop (suc fuel) n acc h = elim (Bool-cases (ltb n 10)) [
  | inl last ↦ rw last (
      digits_value-cons n 0 (codes acc) (ground arith)
      ∙ ap (digits_value (codes acc)) {x = 0 * 10 + n} (omega arith))
  | inr more ↦ rw more (
      digits_value-itoa_loop fuel (n / 10) (String.◌∷◌ (digit (n % 10)) acc) (ground arith)
      ∙ digits_value-cons (n % 10) (n / 10) (codes acc) (omega arith)
      ∙ ap (digits_value (codes acc)) (omega arith))
]

head_digit-itoa_loop :
    (fuel n : ℕ) (acc : String) → n < fuel → head_digit (codes (itoa_loop fuel n acc)) ≡ true
unfolding itoa_loop
head_digit-itoa_loop zero n acc h = elim h [ ]
head_digit-itoa_loop (suc fuel) n acc h = elim (Bool-cases (ltb n 10)) [
  | inl last ↦ rw last (ground (arith, code-digit n (ground arith)))
  | inr more ↦
      rw more (head_digit-itoa_loop fuel (n / 10) (String.◌∷◌ (digit (n % 10)) acc) (ground arith))
]

atoi_of_digits :
    (cs : List ℕ) (n : ℕ)
    → head_digit cs ≡ true
    → digits_value cs 0 ≡ some n
    → n < int_limit
    → atoi cs ≡ some n
unfolding atoi
atoi_of_digits [] n h v lt = ground arith
atoi_of_digits (c ∷ cs) n h v lt = ground arith

-- `Atoi(Itoa(n))` is `n`, for every `int` that is not negative.
pub atoi-itoa : (n : ℕ) → n < int_limit → atoi (codes (itoa n)) ≡ some n
unfolding itoa
atoi-itoa n h =
    atoi_of_digits (codes (itoa_loop (suc n) n "")) n
      (head_digit-itoa_loop (suc n) n "" (omega arith))
      (digits_value-itoa_loop (suc n) n "" (omega arith) ∙ unfold digits_value in refl) h

pub head_digit-itoa : (n : ℕ) → head_digit (codes (itoa n)) ≡ true
unfolding itoa
head_digit-itoa n = head_digit-itoa_loop (suc n) n "" (omega arith)
