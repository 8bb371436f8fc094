-- ===== src/Ctl/Reading.antt =====
-- Reading the numbers of an error message back.
use jevmalloc.Prelude.{
  ℕ, zero, suc, ◌+◌, ◌-◌, ◌*◌, ◌/◌, ◌%◌, ◌^◌, ◌<◌, ◌≡◌, ◌∙◌, refl, ap, Bool-cases, inl, inr, Bool,
  true, false, ◌&&◌, List, [], ◌∷◌, ◌++◌, ltb, leb, ◌==◌, codes, if◌then◌else◌, contains, drop,
  arith,
}
use jevmalloc.System.{Error, Errno}
use jevmalloc.Ctl.Error.{description}
use jevmalloc.Ctl.Messages.{
  digits, decimal, signed_decimal, described, message, arena_message, cache_message,
}

abbrev pub is_digit : ℕ → Bool
is_digit c = leb b'0' c && leb c b'9'

-- The number at the front of a text, after the digits that have been read, and the text behind it.
unfoldable pub read_number : ℕ → List ℕ → ℕ × List ℕ
read_number value [] = (value, [])
read_number value (c ∷ rest) =
    let longer = read_number (value * 10 + (c - b'0')) rest in
    if is_digit c then longer else (value, c ∷ rest)

-- What follows the first opening parenthesis.
unfoldable pub after_paren : List ℕ → List ℕ
after_paren [] = []
after_paren (c ∷ rest) = let later = after_paren rest in if c == b'(' then rest else later

abbrev pub is_negative : List ℕ → Bool
is_negative [] = false
is_negative (c ∷ rest) = c == b'-'

-- A number with a sign, as a pattern of 32 bits.
unfoldable pub read_signed : List ℕ → ℕ
read_signed text =
    if is_negative text then 2 ^ 32 - (read_number 0 (drop 1 text)).0 else (read_number 0 text).0

-- The code in a message: the number after `(errno `.
unfoldable pub read_code : List ℕ → ℕ
read_code text = read_signed (drop 6 (after_paren text))

abbrev pow10 : ℕ → ℕ
pow10 zero = 1
pow10 (suc n) = 10 * pow10 n

-- A digit in front is read into the number.
read_number-digit :
    (value d number : ℕ) (rest : List ℕ)
    → d < 10
    → value * 10 + d ≡ number
    → read_number value ((b'0' + d) ∷ rest) ≡ read_number number rest
unfolding read_number
read_number-digit value d number rest h sum =
    let digit : is_digit (b'0' + d) ≡ true = ground arith in
    let same : value * 10 + ((b'0' + d) - b'0') ≡ number = omega (arith, sum) in
    rw digit (ap (λ v. read_number v rest) same)

-- The digits of a number that has room are read as that number.
read_number-digits :
    (k n : ℕ) (rest : List ℕ)
    → n < pow10 (suc k)
    → read_number 0 (digits (suc k) n rest) ≡ read_number n rest
unfolding digits
read_number-digits zero n rest h =
    let one : ltb n 10 ≡ true = ground arith in
    rw one (read_number-digit 0 n n rest (omega arith) (omega arith))
read_number-digits (suc k) n rest h = elim (Bool-cases (ltb n 10)) [
  | inl one ↦ rw one (read_number-digit 0 n n rest (ground arith) (omega arith))
  | inr more ↦ rw more (
      read_number-digits k (n / 10) ((b'0' + n % 10) ∷ rest) (omega arith)
      ∙ read_number-digit (n / 10) (n % 10) n rest (omega arith) (omega arith))
]

-- A number of 64 bits is read back up to what is no digit.
read_number-decimal :
    (n c : ℕ) (rest : List ℕ)
    → n < 2 ^ 64
    → is_digit c ≡ false
    → read_number 0 (decimal n (c ∷ rest)) ≡ (n, c ∷ rest)
unfolding read_number
read_number-decimal n c rest h stop =
    read_number-digits 19 n (c ∷ rest) (omega arith) ∙ (rw stop refl)

after_paren-append :
    (text rest : List ℕ)
    → contains text b'(' ≡ false
    → after_paren (text ++ rest) ≡ after_paren rest
unfolding after_paren
after_paren-append [] rest h = refl
after_paren-append (c ∷ text) rest h = ground (arith, after_paren-append text rest)

is_negative-digits : (k n : ℕ) (rest : List ℕ) → is_negative (digits (suc k) n rest) ≡ false
unfolding digits
is_negative-digits zero n rest = ground arith
is_negative-digits (suc k) n rest =
    ground (arith, is_negative-digits k (n / 10) ((b'0' + n % 10) ∷ rest))

described-contains : (c : Errno) (e : Error) → contains (described c e) b'(' ≡ false
unfolding described description
described-contains c e = ground arith

-- A code of 32 bits is read back, whatever text stands before it.
read_signed-decimal :
    (code : ℕ) → code < 2 ^ 32 → read_signed (signed_decimal code (codes ")")) ≡ code
unfolding read_signed signed_decimal
read_signed-decimal code h =
    let below : code < 2 ^ 64 = omega arith in
    let positive : (read_number 0 (decimal code (codes ")"))).0 ≡ code =
      ap (λ r. r.0) (read_number-decimal code b')' [] (omega arith) refl) in
    let negative : (read_number 0 (decimal (2 ^ 32 - code) (codes ")"))).0 ≡ 2 ^ 32 - code =
      ap (λ r. r.0) (read_number-decimal (2 ^ 32 - code) b')' [] (omega arith) refl) in
    let plain : is_negative (decimal code (codes ")")) ≡ false = is_negative-digits 19 code _ in
    elim (Bool-cases (ltb code (2 ^ 31))) [
      | inl small ↦ rw small (rw plain positive)
      | inr large ↦ rw large (rw negative (omega arith))
    ]

-- The code of an error is read back from its message.
read_code-message : (c : Errno) (e : Error) → e.code < 2 ^ 32 → read_code (message c e) ≡ e.code
unfolding read_code message after_paren
read_code-message c e h =
    ap (λ t. read_signed (drop 6 t))
      (after_paren-append (described c e) (codes " (errno " ++ signed_decimal e.code (codes ")"))
        (described-contains c e))
    ∙ read_signed-decimal e.code h

-- The number behind a text of known length, and the code in what follows it.
unfoldable pub read_destroy : ℕ → List ℕ → ℕ × ℕ
read_destroy skipped text =
    let (index, rest) = read_number 0 (drop skipped text) in (index, read_code rest)

read_behind :
    (c : Errno) (index : ℕ) (e : Error)
    → index < 2 ^ 64
    → e.code < 2 ^ 32
    → (let read = read_number 0 (decimal index (codes ": " ++ message c e)) in
        ◌≡◌ {A = ℕ × ℕ} (read.0, read_code read.1) (index, e.code))
unfolding read_code after_paren
read_behind c index e small h =
    ap (λ r. (r.0, read_code r.1))
      (read_number-decimal index b':' (codes " " ++ message c e) small refl)
    ∙ (λ i. (index, read_code-message c e h i))

-- Every message that the crate writes about an error can be read back: the message of an error of
-- 32 bits gives its code, and the message of a failed destruction gives, behind the fixed text of
-- its kind, the index of the handle and the code of the error.
pub messages_read_back :
    (c : Errno) (index : ℕ) (e : Error)
    → index < 2 ^ 64
    → e.code < 2 ^ 32
    → (read_code (message c e) ≡ e.code)
      × (read_destroy 24 (arena_message c index e) ≡ (index, e.code))
      × (read_destroy 40 (cache_message c index e) ≡ (index, e.code))
unfolding read_destroy arena_message cache_message
messages_read_back c index e small h =
    (read_code-message c e h, read_behind c index e small h, read_behind c index e small h)
