-- ===== src/Api/MemorySize.antt =====
-- `parseMemorySize` of internal/api/server/helpers.go on printed numbers.
use Prim.Native.Char.{code}
use Prim.Native.String.append
use mathlib.Core.List.{reverse, reverse-append, reverse-reverse}
use dcm_kcli_provider.Prelude.{
  ℕ, ◌*◌, ◌%◌, ◌^◌, ◌<◌, String, ◌<>◌, ◌≡◌, ◌∙◌, refl, sym, ap, true, none, some, List, [], ◌∷◌,
  ◌++◌, arith, eqb, if◌then◌else◌,
}
use dcm_kcli_provider.Text.{int_limit, codes, is_space, trim_left, trim_space, strip_suffix, itoa}
use dcm_kcli_provider.Text.Decimal.{atoi-itoa, head_digit, head_digit-itoa}
use dcm_kcli_provider.Api.Helpers.{parse_memory_size}

codes-append : (s t : String) → codes (s <> t) ≡ codes s ++ codes t
codes-append String.[] t = ap codes (append.nil t)
codes-append (String.◌∷◌ c s) t =
    ap codes (append.cons c s t) ∙ ap (λ r. code c ∷ r) (codes-append s t)

-- A number with a unit that ends in `B`.
abbrev sized : List ℕ → ℕ → List ℕ
sized s x = s ++ (x ∷ 66 ∷ [])

reverse-sized : (s : List ℕ) (x : ℕ) → reverse (sized s x) ≡ 66 ∷ x ∷ reverse s
reverse-sized s x = reverse-append s (x ∷ 66 ∷ [])

trim_left-sized : (s : List ℕ) (x : ℕ) → head_digit s ≡ true → trim_left (sized s x) ≡ sized s x
unfolding is_space
trim_left-sized [] x h = ground arith
trim_left-sized (c ∷ cs) x h = ground arith

trim_space-sized : (s : List ℕ) (x : ℕ) → head_digit s ≡ true → trim_space (sized s x) ≡ sized s x
unfolding trim_space is_space
trim_space-sized s x h =
    rw (trim_left-sized s x h)
      (rw (reverse-sized s x) (ap reverse (sym (reverse-sized s x)) ∙ reverse-reverse (sized s x)))

strip_suffix-sized :
    (s : List ℕ) (t x : ℕ)
    → strip_suffix (t ∷ 66 ∷ []) (sized s x) ≡ (if eqb t x then some s else none)
unfolding strip_suffix
strip_suffix-sized s t x = rw (reverse-sized s x) (ground (arith, reverse-reverse s))

sized_text :
    (n x : ℕ) (unit : String)
    → codes unit ≡ x ∷ 66 ∷ []
    → trim_space (codes (itoa n <> unit)) ≡ sized (codes (itoa n)) x
sized_text n x unit u =
    ap trim_space (codes-append (itoa n) unit ∙ ap (λ r. codes (itoa n) ++ r) u)
    ∙ trim_space-sized (codes (itoa n)) x (head_digit-itoa n)

-- The digits in front of a unit, looked for under a unit of the source.
suffix_text :
    (n t x : ℕ) (unit : String)
    → codes unit ≡ x ∷ 66 ∷ []
    → strip_suffix (t ∷ 66 ∷ []) (trim_space (codes (itoa n <> unit)))
      ≡ (if eqb t x then some (codes (itoa n)) else none)
suffix_text n t x unit u =
    ap (strip_suffix (t ∷ 66 ∷ [])) (sized_text n x unit u)
    ∙ strip_suffix-sized (codes (itoa n)) t x

sized_tb :
    (n : ℕ) → n < int_limit → parse_memory_size (itoa n <> "TB") ≡ some (n * (1024 * 1024) % 2 ^ 64)
unfolding parse_memory_size
sized_tb n h = rw (suffix_text n 84 84 "TB" refl, parse_memory_size) (rw (atoi-itoa n h) refl)

sized_gb : (n : ℕ) → n < int_limit → parse_memory_size (itoa n <> "GB") ≡ some (n * 1024 % 2 ^ 64)
unfolding parse_memory_size
sized_gb n h =
    rw (suffix_text n 84 71 "GB" refl, parse_memory_size)
      (rw (suffix_text n 71 71 "GB" refl) (rw (atoi-itoa n h) refl))

sized_mb : (n : ℕ) → n < int_limit → parse_memory_size (itoa n <> "MB") ≡ some n
unfolding parse_memory_size
sized_mb n h =
    rw (suffix_text n 84 77 "MB" refl, parse_memory_size)
      (rw (suffix_text n 71 77 "MB" refl)
        (rw (suffix_text n 77 77 "MB" refl) (rw (atoi-itoa n h) (ap some (omega arith)))))

-- For a decimal number n below 2^63, nTB, nGB and nMB parse to n * 2^20, n * 2^10 and n megabytes,
-- the first two modulo 2^64 and without an error where they overflow.
pub parse_memory_size_wraps :
    (n : ℕ)
    → n < int_limit
    → (parse_memory_size (itoa n <> "TB") ≡ some (n * (1024 * 1024) % 2 ^ 64))
      × (parse_memory_size (itoa n <> "GB") ≡ some (n * 1024 % 2 ^ 64))
      × (parse_memory_size (itoa n <> "MB") ≡ some n)
parse_memory_size_wraps n h = (sized_tb n h, sized_gb n h, sized_mb n h)
