-- ===== src/Epoll/Requests/Ends.antt =====
-- The loop of `HandleRequest` ends: every round takes bytes off the buffer, or throws.
use my_linux.Base.{
  ℕ, zero, suc, ◌%◌, ◌^◌, ◌≤◌, ◌<◌, ◌≡◌, refl, ◌≢◌, ◌⊎◌, inl, inr, Option, none, some, [], ◌++◌,
  true, false, Bool-cases, Option-cases, arith, ltb, if◌then◌else◌, length, length-drop, take, drop,
}
use my_linux.Base.Int.{ℤ, pos, negsuc, ◌-ℤ◌}
use my_linux.Text.{Bytes, find, atoi, to_int, to_size, substr}
use my_linux.Protocol.Json.{Json}
use my_linux.Protocol.Message.{Request, Response}
use my_linux.Protocol.{Read, head_sep, target_len, take_package, read_package, remove_header}
use my_linux.Epoll.Requests.{handled, thrown, out_of_fuel, is_pos, answer_package, handle_request}

-- An `int` that is not negative is below 2^31.
abbrev pub IsInt : ℤ → Type 0
IsInt (pos n) = n < 2 ^ 31
IsInt (negsuc n) = n < 2 ^ 31

pub to_int-IsInt : (w : ℕ) → IsInt (to_int w)
unfolding to_int
to_int-IsInt w = elim (Bool-cases (ltb (w % 2 ^ 32) (2 ^ 31))) [
  | inl e ↦ rw e (ground arith)
  | inr e ↦ rw e (ground arith)
]

pub atoi-IsInt : (s : Bytes) → IsInt (atoi s)
unfolding atoi
atoi-IsInt s = to_int-IsInt _

-- The header of an empty package cannot be removed.
remove_header-nil : (n : ℕ) → n < 2 ^ 31 → remove_header [] (pos n) ≡ none
unfolding remove_header substr to_int to_size ◌-ℤ◌
remove_header-nil n h = ground arith

answer_package-nil :
    (json : Json) (func : Request → Option Response) (len : ℤ)
    → IsInt len
    → is_pos len ≡ true
    → answer_package json func [] len ≡ none
unfolding answer_package
answer_package-nil json func (pos n) h p = rw (remove_header-nil n h)
answer_package-nil json func (negsuc n) h p = absurd (cc)

-- What a round that read a payload has taken off.
record Shrinks (s : Bytes) (r : Read) : Type 0 where
  int : IsInt r.len
  less : (length r.inbuffer < length s) ⊎ (r.packet ≡ [])

drop-less :
    (size : ℕ) (s : Bytes)
    → size ≤ length s
    → (length (drop size s) < length s) ⊎ (take size s ≡ [])
drop-less zero s h = inr refl
drop-less (suc k) s h = inl (omega (arith, length-drop (suc k) s))

take_package-Shrinks :
    (s t : Bytes) → is_pos (take_package s [] t).len ≡ true → Shrinks s (take_package s [] t)
unfolding take_package
take_package-Shrinks s t h = cut (target_len (atoi t) t) h
  where
    chosen : ℕ → Read
    chosen size =
        if ltb (length s) size
        then record { len = pos 0; packet = []; inbuffer = s }
        else record { len = atoi t; packet = take size s; inbuffer = drop size s }

    cut : (size : ℕ) → is_pos (chosen size).len ≡ true → Shrinks s (chosen size)
    cut size p = elim (Bool-cases (ltb (length s) size)) [
      | inl short ↦ absurd (ground arith)
      | inr enough ↦
          rw enough (record { int = atoi-IsInt t; less = drop-less size s (ground arith) })
    ]

read_package-Shrinks :
    (s : Bytes) → is_pos (read_package s []).len ≡ true → Shrinks s (read_package s [])
unfolding read_package
read_package-Shrinks s h = elim (Option-cases (find s head_sep)) [
  | inl e ↦ absurd (ground arith)
  | inr (p, e) ↦
      rw (e, read_package) (take_package-Shrinks s (take p s) (rw (e, read_package) at h))
]

module _ (json : Json) (func : Request → Option Response) (f : ℕ) (inbuffer outbuffer : Bytes) where
  -- The three ways of a round.
  pub handle_request_stop :
      is_pos (read_package inbuffer []).len ≡ false
      → handle_request json func (suc f) inbuffer outbuffer
        ≡ handled (read_package inbuffer []).inbuffer outbuffer
  unfolding handle_request
  handle_request_stop stop = ground arith

  pub handle_request_throw :
      is_pos (read_package inbuffer []).len ≡ true
      → answer_package json func (read_package inbuffer []).packet (read_package inbuffer []).len
        ≡ none
      → handle_request json func (suc f) inbuffer outbuffer ≡ thrown
  unfolding handle_request
  handle_request_throw more e = ground arith

  pub handle_request_round :
      {out : Bytes}
      → is_pos (read_package inbuffer []).len ≡ true
      → answer_package json func (read_package inbuffer []).packet (read_package inbuffer []).len
        ≡ some out
      → handle_request json func (suc f) inbuffer outbuffer
        ≡ handle_request json func f (read_package inbuffer []).inbuffer (outbuffer ++ out)
  unfolding handle_request
  handle_request_round more e = ground arith

-- A round that answers takes bytes off the buffer.
round-less :
    (json : Json) (func : Request → Option Response) (s out : Bytes)
    → is_pos (read_package s []).len ≡ true
    → answer_package json func (read_package s []).packet (read_package s []).len ≡ some out
    → length (read_package s []).inbuffer < length s
round-less json func s out more e = elim (read_package-Shrinks s more).less [
  | inl less ↦ less
  | inr empty ↦
      let none_of : answer_package json func [] (read_package s []).len ≡ none =
        answer_package-nil json func (read_package s []).len (read_package-Shrinks s more).int
          more in
      absurd (ground (arith, e, rw (← empty) at none_of))
]

-- With more rounds than bytes in the buffer the loop ends by itself, whatever the buffer holds.
pub handle_request_ends :
    (json : Json) (func : Request → Option Response) (f : ℕ) (inbuffer outbuffer : Bytes)
    → length inbuffer < f
    → handle_request json func f inbuffer outbuffer ≢ out_of_fuel
handle_request_ends json func zero inbuffer outbuffer h = elim h [ ]
handle_request_ends json func (suc f) inbuffer outbuffer h = elim (Bool-cases (is_pos r.len)) [
  | inr stop ↦ rw (handle_request_stop json func f inbuffer outbuffer stop) (λ e. cc)
  | inl more ↦ elim (Option-cases (answer_package json func r.packet r.len)) [
    | inl e ↦ rw (handle_request_throw json func f inbuffer outbuffer more e) (λ e'. cc)
    | inr (out, e) ↦ rw (handle_request_round json func f inbuffer outbuffer more e) (
        handle_request_ends json func f r.inbuffer (outbuffer ++ out)
          (omega (arith, round-less json func inbuffer out more e)))
  ]
]
  where
    r : Read
    r = read_package inbuffer []
