-- ===== src/Net/Base58/RoundTrip.antt =====
-- `bs58_decode` on what `bs58_encode` writes.
use mathlib.Core.List.{reverse, reverse_aux, reverse-reverse}
use the_ai_cowboys_6_shooter.Prelude.{
  ℕ, zero, suc, ◌+◌, ◌*◌, ◌<◌, ◌≡◌, refl, sym, ap, ap₂, ◌∙◌, arith, ◌==◌, if◌then◌else◌, true,
  false, Bool-cases, inl, inr, some, ◌>>=◌, List, [], ◌∷◌, ◌++◌, replicate,
}
use the_ai_cowboys_6_shooter.Net.Base58.{
  count_leading, scale_digits, encode_digits, characters, bs58_encode, decode_digits, bs58_decode,
}
use the_ai_cowboys_6_shooter.Net.Base58.Alphabet.{IsCharacter, character}
use the_ai_cowboys_6_shooter.Net.Base58.Digits.{
  value, IsCanonical, Writes, Fits, scale_digits-Writes, push_carry-zero,
}

-- Every element is below `n`.
abbrev pub Below : ℕ → List ℕ → Type 0
Below n [] = Unit
Below n (x ∷ xs) = (x < n) × Below n xs

-- The number that the digits stand for, the highest first, after `acc`.
number : ℕ → ℕ → List ℕ → ℕ
number base acc [] = acc
number base acc (x ∷ xs) = number base (x + base * acc) xs

number-value :
    (base : ℕ) (xs ys : List ℕ) → number base (value base ys) xs ≡ value base (reverse_aux xs ys)
unfolding number value
number-value base [] ys = refl
number-value base (x ∷ xs) ys = number-value base xs (x ∷ ys)

Fits-encode : (carry d : ℕ) → carry < 256 → d < 58 → Fits 256 58 carry d
Fits-encode carry d h k = record { carry_below = omega arith; exact = omega arith }

Fits-decode : (carry d : ℕ) → carry < 58 → d < 256 → Fits 58 256 carry d
Fits-decode carry d h k = record { carry_below = omega arith; exact = omega arith }

encode_digits-Writes :
    (bytes digits : List ℕ)
    → Below 256 bytes
    → IsCanonical 58 digits
    → Writes 58 (number 256 (value 58 digits) bytes) (encode_digits bytes digits)
unfolding encode_digits number
encode_digits-Writes [] digits h k = record { number = refl; canonical = k }
encode_digits-Writes (b ∷ bytes) digits (h, hs) k =
    let w =
      scale_digits-Writes 256 58 Fits-encode digits b (omega arith) (omega arith) (omega arith) h
        k in
    let rest = encode_digits-Writes bytes (scale_digits 256 58 digits b) hs w.canonical in
    record {
      number = rest.number ∙ ap (λ v. number 256 v bytes) w.number;
      canonical = rest.canonical;
    }

-- The characters of digits below 58, and the loop of the decoder over them.
record Reads (digits : List ℕ) (cs : List ℕ) : Type 0 where
  written : characters digits ≡ some cs
  leading : count_leading 49 cs ≡ count_leading 0 digits
  decoded :
      (out : List ℕ)
      → IsCanonical 256 out
      → (last : List ℕ) × (decode_digits cs out ≡ some last)
        × Writes 256 (number 58 (value 256 out) digits) last

decode_digits-cons :
    (d c : ℕ) (cs out : List ℕ)
    → IsCharacter d c
    → decode_digits (c ∷ cs) out ≡ decode_digits cs (scale_digits 58 256 out d)
unfolding decode_digits
decode_digits-cons d c cs out k =
    let back = k.back in let valid = k.valid in rw (decode_digits, valid, back) refl

characters-Reads : (digits : List ℕ) → Below 58 digits → (cs : List ℕ) × Reads digits cs
unfolding decode_digits number
characters-Reads [] h = (
  [],
  record {
    written = refl;
    leading = refl;
    decoded = λ out k. (out, refl, record { number = refl; canonical = k });
  },
)
characters-Reads (d ∷ digits) (h, hs) =
    let (c, k) = character d h in
    let (cs, r) = characters-Reads digits hs in
    (
      c ∷ cs,
      record {
        written = (let at = k.at in let written = r.written in rw (at, ◌>>=◌, written) refl);
        leading = (let one = k.one in let leading = r.leading in rw (one, leading) refl);
        decoded = λ out canon.
            let w =
              scale_digits-Writes 58 256 Fits-decode out d (omega arith) (omega arith) (omega arith)
                h canon in
            let (last, e, v) = r.decoded (scale_digits 58 256 out d) w.canonical in
            (
              last,
              decode_digits-cons d c cs out k ∙ e,
              record {
                number = v.number ∙ ap (λ n. number 58 n digits) w.number;
                canonical = v.canonical;
              },
            );
      },
    )

-- Two canonical lists of bytes of one number are the same.
bytes_unique :
    (xs ys : List ℕ)
    → IsCanonical 256 xs
    → IsCanonical 256 ys
    → value 256 xs ≡ value 256 ys
    → xs ≡ ys
unfolding IsCanonical value
bytes_unique [] [] h k e = refl
bytes_unique [] (y ∷ ys) h (_, pos, _) e = absurd (omega (arith, e, pos))
bytes_unique (x ∷ xs) [] (_, pos, _) k e = absurd (omega (arith, e, pos))
bytes_unique (x ∷ xs) (y ∷ ys) (bx, _, h) (by, _, k) e =
    let tail = bytes_unique xs ys h k (omega (arith, e, bx, by)) in
    let head : x ≡ y = omega (arith, e, bx, by) in
    ap₂ (λ (a : ℕ) (rest : List ℕ). a ∷ rest) head tail

-- The bytes after the leading zeros.
after_zeros : List ℕ → List ℕ
after_zeros [] = []
after_zeros (b ∷ bytes) = if b == 0 then after_zeros bytes else b ∷ bytes

split_zeros : (bytes : List ℕ) → bytes ≡ replicate (count_leading 0 bytes) 0 ++ after_zeros bytes
unfolding after_zeros
split_zeros [] = refl
split_zeros (b ∷ bytes) = elim (Bool-cases (b == 0)) [
  | inl e ↦
      let zero_byte : b ≡ 0 = ground (arith, e) in
      rw (e, if◌then◌else◌)
        (ap₂ (λ (x : ℕ) (rest : List ℕ). x ∷ rest) zero_byte (split_zeros bytes))
  | inr e ↦ rw (e, if◌then◌else◌) refl
]

number-after_zeros : (bytes : List ℕ) → number 256 0 bytes ≡ number 256 0 (after_zeros bytes)
unfolding after_zeros number
number-after_zeros [] = refl
number-after_zeros (b ∷ bytes) = elim (Bool-cases (b == 0)) [
  | inl e ↦
      let same : b + 256 * 0 ≡ 0 = ground (arith, e) in
      rw (e, if◌then◌else◌) (ap (λ v. number 256 v bytes) same ∙ number-after_zeros bytes)
  | inr e ↦ rw (e, if◌then◌else◌) refl
]

reverse_aux-IsCanonical :
    (bytes low : List ℕ)
    → Below 256 bytes
    → IsCanonical 256 low
    → 0 < value 256 low
    → IsCanonical 256 (reverse_aux bytes low)
unfolding IsCanonical value
reverse_aux-IsCanonical [] low h k pos = k
reverse_aux-IsCanonical (b ∷ bytes) low (h, hs) k pos =
    reverse_aux-IsCanonical bytes (b ∷ low) hs (h, omega (arith, pos), k) (omega (arith, pos))

after_zeros-IsCanonical :
    (bytes : List ℕ) → Below 256 bytes → IsCanonical 256 (reverse (after_zeros bytes))
unfolding after_zeros IsCanonical value
after_zeros-IsCanonical [] h = tt
after_zeros-IsCanonical (b ∷ bytes) (h, hs) = elim (Bool-cases (b == 0)) [
  | inl e ↦ rw (e, if◌then◌else◌) (after_zeros-IsCanonical bytes hs)
  | inr e ↦
      rw (e, if◌then◌else◌)
        (reverse_aux-IsCanonical bytes (b ∷ []) hs (h, ground (arith, e), tt) (ground (arith, e)))
]

IsCanonical-Below :
    (digits low : List ℕ) → IsCanonical 58 digits → Below 58 low → Below 58 (reverse_aux digits low)
unfolding IsCanonical
IsCanonical-Below [] low k h = h
IsCanonical-Below (d ∷ digits) low (below, _, k) h = IsCanonical-Below digits (d ∷ low) k (below, h)

-- The highest digit of a canonical list is not 0.
count_leading-reverse_aux :
    (d : ℕ) (digits low : List ℕ)
    → IsCanonical 58 (d ∷ digits)
    → count_leading 0 (reverse_aux (d ∷ digits) low) ≡ 0
unfolding IsCanonical value
count_leading-reverse_aux d [] low (_, pos, _) =
    let e : (d == 0) ≡ false = ground (arith, pos) in rw (e, if◌then◌else◌) refl
count_leading-reverse_aux d (x ∷ digits) low (_, _, k) =
    count_leading-reverse_aux x digits (d ∷ low) k

count_leading-reverse :
    (digits : List ℕ) → IsCanonical 58 digits → count_leading 0 (reverse digits) ≡ 0
count_leading-reverse [] k = refl
count_leading-reverse (d ∷ digits) k = count_leading-reverse_aux d digits [] k

count_leading-replicate :
    (c n : ℕ) (cs : List ℕ) → count_leading c cs ≡ 0 → count_leading c (replicate n c ++ cs) ≡ n
count_leading-replicate c zero cs e = e
count_leading-replicate c (suc n) cs e =
    let same : (c == c) ≡ true = ground arith in
    rw (same, if◌then◌else◌) (ap suc (count_leading-replicate c n cs e))

-- The leading ones leave no digits.
decode_digits-replicate :
    (n : ℕ) (cs : List ℕ) → decode_digits (replicate n 49 ++ cs) [] ≡ decode_digits cs []
unfolding decode_digits
decode_digits-replicate zero cs = refl
decode_digits-replicate (suc n) cs =
    let none_left : scale_digits 58 256 [] 0 ≡ [] = unfold scale_digits in push_carry-zero 256 32 in
    ap (decode_digits (replicate n 49 ++ cs)) none_left ∙ decode_digits-replicate n cs

-- The digits in base 58 and the bytes after the leading zeros stand for one number.
same_number :
    (bytes digits last : List ℕ)
    → Writes 58 (number 256 (value 58 []) bytes) digits
    → Writes 256 (number 58 (value 256 []) (reverse digits)) last
    → value 256 last ≡ value 256 (reverse (after_zeros bytes))
unfolding value
same_number bytes digits last w v =
    v.number
    ∙ number-value 58 (reverse digits) []
    ∙ ap (value 58) (reverse-reverse digits)
    ∙ w.number
    ∙ number-after_zeros bytes
    ∙ number-value 256 (after_zeros bytes) []

-- Every list of bytes is encoded without a panic, and decoding what that writes gives it back.
pub bs58_decode-encode :
    (bytes : List ℕ)
    → Below 256 bytes
    → (s : List ℕ) × (bs58_encode bytes ≡ some s) × (bs58_decode s ≡ some bytes)
unfolding bs58_encode bs58_decode
bs58_decode-encode bytes h =
    let digits = encode_digits bytes [] in
    let w = encode_digits-Writes bytes [] h (unfold IsCanonical in tt) in
    let (cs, r) = characters-Reads (reverse digits) (IsCanonical-Below digits [] w.canonical tt) in
    let (last, e, v) = r.decoded [] (unfold IsCanonical in tt) in
    let n = count_leading 0 bytes in
    let s = replicate n 49 ++ cs in
    let ones : count_leading 49 s ≡ n =
      count_leading-replicate 49 n cs (r.leading ∙ count_leading-reverse digits w.canonical) in
    let same : value 256 last ≡ value 256 (reverse (after_zeros bytes)) =
      same_number bytes digits last w v in
    let found =
      bytes_unique last (reverse (after_zeros bytes)) v.canonical (after_zeros-IsCanonical bytes h)
        same in
    let back : reverse last ≡ after_zeros bytes =
      ap reverse found ∙ reverse-reverse (after_zeros bytes) in
    let written = r.written in
    let run = decode_digits-replicate n cs ∙ e in
    (
      s,
      rw (bs58_encode, written, ◌>>=◌) refl,
      rw (bs58_decode, run, ◌>>=◌, ones, back) (ap some (sym (split_zeros bytes))),
    )
