-- ===== src/Protocol/Partial.antt =====
-- What `readPackage` does with a buffer that holds no whole package, and with one that holds what its header
-- announces.
use my_linux.Base.{
  ap, ◌∙◌, some, ◌+◌, ◌%◌, ◌^◌, drop-append, append_assoc, ℕ, ◌<◌, ◌≡◌, refl, ◌≢◌, inl, inr, none,
  [], ◌∷◌, ◌++◌, arith, append-nil, length, length-append, take, take-append, append-split, lt→ltb,
}
use my_linux.Base.Int.{ℤ, pos}
use my_linux.Text.{Bytes, find, atoi, to_string}
use my_linux.Text.Words.{to_size-pos, to_int_small}
use my_linux.Text.Find.{Lacks, find_behind, find_lacking, find_cut}
use my_linux.Text.Decimal.{AllDigits-Lacks, to_string-AllDigits, atoi-to_string}
use my_linux.Protocol.{head_sep, target_len, take_package, read_package, add_header}
use my_linux.Protocol.Frame.{IsShort, target_len-add_header}

-- The reader gave nothing and left the buffer and the output as they were.
abbrev pub Waits : Bytes → Bytes → Type 0
Waits inbuffer packet =
    read_package inbuffer packet ≡ record { len = pos 0; packet = packet; inbuffer = inbuffer }

read_package-none : (s packet : Bytes) → find s head_sep ≡ none → Waits s packet
unfolding read_package
read_package-none s packet e = rw (e, read_package)

Lacks-prefix : (c : ℕ) (p q : Bytes) → Lacks c (p ++ q) → Lacks c p
Lacks-prefix c [] q h = tt
Lacks-prefix c (x ∷ p) q h = (h.0, Lacks-prefix c p q h.1)

-- With the header complete and the rest too short, the reader waits.
Waits-short :
    (ds r packet : Bytes) (len : ℤ)
    → Lacks b'\r' ds
    → atoi ds ≡ len
    → length (ds ++ (head_sep ++ r)) < target_len len ds
    → Waits (ds ++ (head_sep ++ r)) packet
unfolding read_package take_package
Waits-short ds r packet len h e short =
    rw (find_behind b'\r' b'\n' ds r h, read_package)
      (rw (take-append ds (head_sep ++ r) {n = length ds} refl, e, lt→ltb _ _ short))

-- The three ways to cut a package short: in the digits, in the separator, behind it.
Waits-cut :
    (ds p c q r packet : Bytes)
    → Lacks b'\r' ds
    → p ≡ ds ++ c
    → c ++ q ≡ head_sep ++ r
    → ((c' : Bytes) → c ≡ head_sep ++ c' → c' ++ q ≡ r → Waits p packet)
    → Waits p packet
Waits-cut ds p [] q r packet h e f behind =
    rw (e, append-nil) (read_package-none ds packet (find_lacking b'\r' b'\n' ds h))
Waits-cut ds p (x ∷ []) q r packet h e f behind =
    let first : x ≡ b'\r' = cc in
    rw (e, first) (read_package-none (ds ++ (b'\r' ∷ [])) packet (find_cut b'\r' b'\n' ds h))
Waits-cut ds p (x ∷ y ∷ c) q r packet h e f behind = behind c (cc) (cc)

length-cut : (p q : Bytes) → q ≢ [] → length p < length (p ++ q)
length-cut p [] h = absurd (h refl)
length-cut p (x ∷ q) h = omega (arith, length-append p (x ∷ q))

-- A proper prefix of a package is left in the buffer, wherever it was cut, if the payload of the package, with
-- 24 bytes more, is shorter than 2^31.
pub read_package-prefix :
    (s p q packet : Bytes)
    → IsShort s
    → p ++ q ≡ add_header s
    → q ≢ []
    → read_package p packet ≡ record { len = pos 0; packet = packet; inbuffer = p }
read_package-prefix s p q packet h e ne =
    elim (append-split p q ds (head_sep ++ (s ++ head_sep)) whole) [
      | inl (c, f, g) ↦
          read_package-none p packet
            (find_lacking b'\r' b'\n' p (Lacks-prefix b'\r' p c (rw f lacks)))
      | inr (c, f, g) ↦ Waits-cut ds p c q (s ++ head_sep) packet lacks f g λ c' k _.
          let p-eq : p ≡ ds ++ (head_sep ++ c') = rw f (rw k) in
          rw p-eq (
            Waits-short ds c' packet (pos (length s)) lacks
              (atoi-to_string (length s) (omega arith))
              (rw (target_len-add_header s h, ← p-eq, ← e) (length-cut p q ne)))
    ]
  where
    ds : Bytes
    ds = to_string (length s)

    lacks : Lacks b'\r' ds
    lacks = AllDigits-Lacks b'\r' ds (omega arith) (to_string-AllDigits (length s))

    whole : p ++ q ≡ ds ++ (head_sep ++ (s ++ head_sep))
    whole = unfold add_header in e

target_len-pos :
    (n : ℕ) (ds : Bytes) → n + length ds + 4 < 2 ^ 31 → target_len (pos n) ds ≡ n + length ds + 4
unfolding target_len
target_len-pos n ds h =
    rw (to_size-pos n (omega arith), small)
      (rw (to_int_small (n + length ds + 4) h) (to_size-pos (n + length ds + 4) (omega arith)))
  where
    small : (n + length ds + 4) % 2 ^ 64 ≡ n + length ds + 4
    small = omega arith

found_header :
    (s ds packet : Bytes)
    → find s head_sep ≡ some (length ds)
    → take (length ds) s ≡ ds
    → read_package s packet ≡ take_package s packet ds
unfolding read_package
found_header s ds packet e f = rw (e, read_package) (rw f refl)

take_whole :
    (ds whole rest packet : Bytes) (n : ℕ)
    → atoi ds ≡ pos n
    → target_len (pos n) ds ≡ length whole
    → take_package (whole ++ rest) packet ds
      ≡ record { len = pos n; packet = whole; inbuffer = rest }
unfolding take_package
take_whole ds whole rest packet n e f =
    rw (e, f)
      (ground (
        arith,
        length-append whole rest,
        take-append whole rest {n = length whole} refl,
        drop-append whole rest {n = length whole} refl,
      ))

taken_off :
    (ds body rest packet : Bytes) (n : ℕ)
    → Lacks b'\r' ds
    → atoi ds ≡ pos n
    → n + length ds + 4 < 2 ^ 31
    → length body ≡ n + 2
    → read_package ((ds ++ (head_sep ++ body)) ++ rest) packet
      ≡ record { len = pos n; packet = ds ++ (head_sep ++ body); inbuffer = rest }
taken_off ds body rest packet n h e b l =
    found_header _ ds packet
      (ap (λ (s : Bytes). find s head_sep) regroup ∙ find_behind b'\r' b'\n' ds (body ++ rest) h)
      (ap (take (length ds)) regroup
        ∙ take-append ds (head_sep ++ (body ++ rest)) {n = length ds} refl)
    ∙ take_whole ds (ds ++ (head_sep ++ body)) rest packet n e
        (target_len-pos n ds b ∙ omega (arith, l, length-append ds (head_sep ++ body)))
  where
    regroup : (ds ++ (head_sep ++ body)) ++ rest ≡ ds ++ (head_sep ++ (body ++ rest))
    regroup = append_assoc ds (head_sep ++ body) rest

-- Behind a header without a carriage return, which `atoi` reads as `n`, the reader takes off just `n` bytes and two more, with
-- the header and its separator, whatever these bytes are and whatever follows them, and returns `n`; while
-- fewer bytes have come it returns 0 and leaves everything as it was. `n`, the header and 4 make up less than
-- 2^31.
pub read_package-announced :
    (ds body rest short packet : Bytes) (n : ℕ)
    → Lacks b'\r' ds
    → atoi ds ≡ pos n
    → n + length ds + 4 < 2 ^ 31
    → length body ≡ n + 2
    → length short < n + 2
    → (read_package ((ds ++ (head_sep ++ body)) ++ rest) packet
        ≡ record { len = pos n; packet = ds ++ (head_sep ++ body); inbuffer = rest })
      × (read_package (ds ++ (head_sep ++ short)) packet
          ≡ record { len = pos 0; packet = packet; inbuffer = ds ++ (head_sep ++ short) })
read_package-announced ds body rest short packet n h e b l m = (
  taken_off ds body rest packet n h e b l,
  Waits-short ds short packet (pos n) h e
      (omega (arith, target_len-pos n ds b, m, length-append ds (head_sep ++ short))),
)
