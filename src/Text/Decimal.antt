-- ===== src/Text/Decimal.antt =====
-- `atoi` reads back what `to_string` prints.
use native.Mathlib.Nat.{pow-suc}
use my_linux.Base.{
  ℕ, zero, suc, ◌+◌, ◌-◌, ◌*◌, ◌/◌, ◌%◌, ◌^◌, ◌≤◌, ◌<◌, min, ◌≡◌, refl, Bool-cases, inl, inr, true,
  [], ◌∷◌, ◌++◌, arith, ltb, length, length-append, ap,
}
use my_linux.Base.Int.{pos}
use my_linux.Text.{Bytes, is_digit, digit_run, digits, to_string, atoi, strtol, skip_space}
use my_linux.Text.Find.{Lacks}
use my_linux.Text.Words.{to_size-pos, to_int_small}

abbrev pub AllDigits : Bytes → Type 0
AllDigits [] = Unit {0}
AllDigits (c ∷ s) = (is_digit c ≡ true) × AllDigits s

pub AllDigits-append : (s t : Bytes) → AllDigits s → AllDigits t → AllDigits (s ++ t)
AllDigits-append [] t h k = k
AllDigits-append (x ∷ s) t h k = (h.0, AllDigits-append s t h.1 k)

pub AllDigits-Lacks : (c : ℕ) (s : Bytes) → c < b'0' → AllDigits s → Lacks c s
AllDigits-Lacks c [] h d = tt
AllDigits-Lacks c (x ∷ s) h d = (ground arith, AllDigits-Lacks c s h d.1)

-- The run goes through a text of digits and on.
digit_run-append :
    (acc : ℕ) (s t : Bytes) → AllDigits s → digit_run acc (s ++ t) ≡ digit_run (digit_run acc s) t
unfolding digit_run
digit_run-append acc [] t d = refl
digit_run-append acc (c ∷ s) t d = rw d.0 (digit_run-append (acc * 10 + (c - b'0')) s t d.1)

pub digits-AllDigits : (f n : ℕ) → AllDigits (digits f n)
unfolding digits
digits-AllDigits zero n = tt
digits-AllDigits (suc f) n = elim (Bool-cases (ltb n 10)) [
  | inl small ↦ rw small (ground arith, tt)
  | inr large ↦
      rw large
        (AllDigits-append (digits f (n / 10)) _ (digits-AllDigits f (n / 10)) (ground arith, tt))
]

pub digit_run-digits : (f n : ℕ) → n < 10 ^ f → digit_run 0 (digits f n) ≡ n
unfolding digits
digit_run-digits zero n h = unfold digit_run in omega arith
digit_run-digits (suc f) n h = elim (Bool-cases (ltb n 10)) [
  | inl small ↦ rw small (unfold digit_run in ground arith)
  | inr large ↦
      rw
        (
          large,
          digit_run-append 0 (digits f (n / 10)) ((b'0' + n % 10) ∷ [])
              (digits-AllDigits f (n / 10)),
          digit_run-digits f (n / 10) (omega (arith, pow-suc 10 f)),
        )
        (unfold digit_run in ground arith)
]

pub length-digits : (f n : ℕ) → length (digits f n) ≤ f
unfolding digits
length-digits zero n = omega arith
length-digits (suc f) n =
    ground
      (arith, length-digits f (n / 10), length-append (digits f (n / 10)) ((b'0' + n % 10) ∷ []))

append-last : (s : Bytes) (c : ℕ) → (d : ℕ) × (t : Bytes) × (s ++ (c ∷ []) ≡ d ∷ t)
append-last [] c = (c, [], refl)
append-last (d ∷ s) c = (d, s ++ (c ∷ []), refl)

digits-cons : (f n : ℕ) → (d : ℕ) × (t : Bytes) × (digits (suc f) n ≡ d ∷ t)
unfolding digits
digits-cons f n = elim (Bool-cases (ltb n 10)) [
  | inl small ↦ (b'0' + n, [], rw small)
  | inr large ↦ rw large (append-last (digits f (n / 10)) (b'0' + n % 10))
]

-- A text that starts with a digit is read as its run of digits.
atoi_unsigned :
    (d : ℕ) (t : Bytes) (v : ℕ)
    → is_digit d ≡ true
    → digit_run 0 (d ∷ t) ≡ v
    → v < 2 ^ 31
    → atoi (d ∷ t) ≡ pos v
unfolding atoi
atoi_unsigned d t v h e small =
    rw
      (
        strtol_unsigned,
        to_size-pos (min v (2 ^ 63 - 1)) (omega arith),
        to_int_small (min v (2 ^ 63 - 1)) (omega arith),
      )
      (ap pos (omega arith))
  where
    strtol_unsigned : strtol (skip_space (d ∷ t)) ≡ pos (min v (2 ^ 63 - 1))
    strtol_unsigned = unfold strtol skip_space in ground arith

atoi-digits : (f n : ℕ) → n < 10 ^ suc f → n < 2 ^ 31 → atoi (digits (suc f) n) ≡ pos n
atoi-digits f n fits small =
    let (d, t, e) = digits-cons f n in
    rw e (
      atoi_unsigned d t n (rw e at (digits-AllDigits (suc f) n)).0
        (rw e at (digit_run-digits (suc f) n fits)) small)

-- `atoi` reads back every number below 2^31 that `to_string` prints.
pub atoi-to_string : (n : ℕ) → n < 2 ^ 31 → atoi (to_string n) ≡ pos n
unfolding to_string
atoi-to_string n h = atoi-digits 19 n (omega arith) h

pub to_string-AllDigits : (n : ℕ) → AllDigits (to_string n)
unfolding to_string
to_string-AllDigits n = digits-AllDigits 20 n

pub length-to_string : (n : ℕ) → length (to_string n) ≤ 20
unfolding to_string
length-to_string n = length-digits 20 n
