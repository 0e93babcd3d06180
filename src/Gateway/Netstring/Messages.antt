-- ===== src/Gateway/Netstring/Messages.antt =====
-- src/netstring.py: a message that is sent is the message that is read.
use Prim.Native.Char.{Char}
use Prim.Native.String.{[], ◌∷◌}
use sipmedia_gw.Prelude.{
  ℕ, suc, ◌+◌, ◌-◌, ◌≤◌, String, ◌≡◌, refl, sym, ◌∙◌, ap, arith, Bool, true, false, ◌||◌, none,
  some, if_true, if_false,
}
use sipmedia_gw.Text.{
  append, append_assoc, is_empty, has_char, before, first_chars, skip_chars, show, before-append,
  show-are_digits, is_empty-show, has_prefix, strip_prefix, strip_prefix-append, contains,
}
use sipmedia_gw.History.Lines.{after_text}
use sipmedia_gw.Gateway.Names.{size, int_of}
use sipmedia_gw.Gateway.Names.Decoding.{int_of-show, first-append, skip-append}
use sipmedia_gw.Gateway.Netstring.{
  encode, from_digit, left_of, data_len, read_rest, read_on, get_status, decode_text, before_text,
  without_last, part_of,
}
use sipmedia_gw.Gateway.Netstring.Utf8.{
  decode, is_ascii, decode-is_ascii, is_ascii-first, is_ascii-append, digits-is_ascii,
}
use sipmedia_gw.Gateway.Netstring.Framing.{
  full, pair, first-split, skip-split, rest-ascii, read_rest-full, size-append, first-prefix,
  before-first, digits-colon, from_digit-first,
}

size-encode : (text : String) → size (encode text) ≡ size (show (size text)) + (size text + 2)
unfolding encode size append
size-encode text =
    size-append (show (size text)) _
    ∙ ap (λ n. size (show (size text)) + n) (ap suc (size-append text ",") ∙ omega arith)

before-encode : (text : String) → before 58 (encode text) ≡ show (size text)
unfolding encode append
before-encode text =
    let colon : Char = ":" in
    before-append (show (size text)) (append text ",") 58 colon refl
      (digits-colon (show (size text)) (show-are_digits (size text)))

rest_of : (s n : ℕ) → s + 2 + n - 8 ≡ (s + (n + 2)) - 8
rest_of s n = omega arith

data_len-encode :
    (text : String)
    → has_char 58 (first_chars 8 (encode text)) ≡ true
    → data_len (first_chars 8 (encode text)) 8 ≡ size (encode text) - 8
unfolding data_len
data_len-encode text h =
    let number = before-first 58 8 (encode text) h ∙ before-encode text in
    if_true _ _ _ h
    ∙ ap (λ (z : String). left_of (int_of z) (size z) 8) number
    ∙ ap (λ o. left_of o (size (show (size text))) 8) (int_of-show (size text))
    ∙ rest_of (size (show (size text))) (size text)
    ∙ ap (λ n. n - 8) (sym (size-encode text))

started :
    (text : String) → from_digit 8 (first_chars 8 (encode text)) ≡ (first_chars 8 (encode text), 8)
unfolding encode
started text =
    from_digit-first (show (size text)) _ 7 8 (show-are_digits (size text))
      (is_empty-show (size text))

-- What is read from where the digits begin.
abbrev status_of : String × ℕ → String → String × String
status_of start s = read_rest full (data_len start.0 start.1) (data_len start.0 start.1) start.0 s

encode-is_ascii : (text : String) → is_ascii text ≡ true → is_ascii (encode text) ≡ true
unfolding encode is_ascii append
encode-is_ascii text a =
    is_ascii-append (show (size text)) _
      (digits-is_ascii (show (size text)) (show-are_digits (size text)))
      (is_ascii-append text "," a refl)

-- What is left of a message after its first eight bytes.
left-is_ascii :
    (m rest : String)
    → is_ascii m ≡ true
    → 8 ≤ size m
    → is_ascii (first_chars (size m - 8) (skip_chars 8 (append m rest))) ≡ true
left-is_ascii m rest a h =
    rest-ascii (size m) 8 (append m rest) (ap is_ascii (first-append m rest) ∙ a)

read-exactly :
    (m rest : String) (n : ℕ)
    → 8 ≤ size m
    → is_ascii m ≡ true
    → n ≡ size m - 8
    → read_rest full n n (first_chars 8 m) (skip_chars 8 (append m rest)) ≡ (m, rest)
read-exactly m rest n h a e =
    let s = append m rest in
    let head = first-prefix 8 m rest h in
    read_rest-full n n (first_chars 8 m) (skip_chars 8 s) (omega arith)
      (ap (λ k. is_ascii (first_chars k (skip_chars 8 s))) e ∙ left-is_ascii m rest a h)
    ∙ pair
        (ap (λ z. append z (first_chars n (skip_chars 8 s))) (sym head)
          ∙ ap (λ k. append (first_chars 8 s) (first_chars k (skip_chars 8 s))) e
          ∙ first-split 8 (size m) s h
          ∙ first-append m rest)
        (ap (λ k. skip_chars k (skip_chars 8 s)) e ∙ skip-split 8 (size m) s h ∙ skip-append m rest)

-- From a socket that gives what it is asked for, a message of eight bytes or more whose text is
-- ASCII and whose ":" is among the first eight is read whole, and nothing of what comes after it.
pub get_status-encode :
    (text rest : String)
    → is_ascii text ≡ true
    → 8 ≤ size (encode text)
    → has_char 58 (first_chars 8 (encode text)) ≡ true
    → get_status full (append (encode text) rest) ≡ (encode text, rest)
unfolding get_status
get_status-encode text rest a h c =
    let m = encode text in
    let plain = encode-is_ascii text a in
    let head = ap decode (first-prefix 8 m rest h) ∙ decode-is_ascii _ (is_ascii-first 8 m plain) in
    ap (λ o. read_on full o (skip_chars 8 (append m rest))) head
    ∙ ap (λ z. status_of z (skip_chars 8 (append m rest))) (started text)
    ∙ ap (λ n. read_rest full n n (first_chars 8 m) (skip_chars 8 (append m rest)))
        (data_len-encode text c)
    ∙ read-exactly m rest (size m - 8) h plain refl

neither : (a b : Bool) → (a || b) ≡ false → (a ≡ false) × (b ≡ false)
neither false b e = (refl, e)
neither true b e = cc

after_text-append : (p s : String) → is_empty p ≡ false → after_text p (append p s) ≡ some s
unfolding after_text append strip_prefix
after_text-append [] s h = cc
after_text-append (c ∷ p) s h =
    ap (λ o. elim o [ none ↦ after_text (c ∷ p) (append p s) | some rest ↦ some rest ])
      (strip_prefix-append (c ∷ p) s)

before_text-none : (p s : String) → contains p s ≡ false → before_text p s ≡ s
unfolding before_text contains
before_text-none p [] h = refl
before_text-none p (c ∷ s) h =
    let both = neither (has_prefix p (c ∷ s)) (contains p s) h in
    if_false _ _ _ both.0 ∙ ap (λ (z : String). c ∷ z) (before_text-none p s both.1)

last_off : (n : ℕ) → n + 1 - 1 ≡ n
last_off n = omega arith

without_last-append : (s : String) (c : Char) → without_last (append s (c ∷ [])) ≡ s
unfolding without_last size append
without_last-append s c =
    ap (λ n. first_chars n (append s (c ∷ [])))
      (ap (λ n. n - 1) (size-append s (c ∷ [])) ∙ last_off (size s))
    ∙ first-append s (c ∷ [])

has_colon : (s t : String) → has_char 58 (append s (":" ∷ t)) ≡ true
unfolding has_char append
has_colon [] t = refl
has_colon (c ∷ s) t = ground (arith, has_colon s t)

key_given : (s : String) → is_empty (append s ":") ≡ false
unfolding append
key_given [] = refl
key_given (c ∷ s) = refl

-- A message in which its own length with ":" does not come again is decoded to the text that was
-- sent.
pub decode_text-encode :
    (text : String)
    → contains (append (show (size text)) ":") (append text ",") ≡ false
    → decode_text (encode text) ≡ some text
unfolding decode_text encode append
decode_text-encode text h =
    let number = show (size text) in
    let colon : Char = ":" in
    let comma : Char = "," in
    let key = append number (colon ∷ []) in
    let m = append number (colon ∷ append text (comma ∷ [])) in
    let length = if_true _ _ _ (has_colon number (append text (comma ∷ []))) ∙ before-encode text in
    ap (λ z. part_of (append z (colon ∷ [])) (after_text (append z (colon ∷ [])) m)) length
    ∙ ap (λ z. part_of key (after_text key z))
        (sym (append_assoc number (colon ∷ []) (append text (comma ∷ []))))
    ∙ ap (part_of key) (after_text-append key (append text (comma ∷ [])) (key_given number))
    ∙ ap (λ z. some (without_last z)) (before_text-none key (append text (comma ∷ [])) h)
    ∙ ap some (without_last-append text comma)
