-- ===== src/Quote/Closed.antt =====
-- What `%q` prints is one quoted string of printable bytes, whatever the text.
use lapis_archive_file_servi.Prelude.{
  ℕ, zero, suc, ◌-◌, ◌/◌, ◌%◌, ◌≤◌, [], ◌∷◌, ◌++◌, append_assoc, Bytes, Bool, true, false, not,
  ◌&&◌, ◌||◌, ◌==◌, if◌then◌else◌, Option, none, some, ◌≡◌, ◌≢◌, ◌∙◌, refl, ap, All, All-append,
  inl, inr, arith, Bool-cases,
}
use lapis_archive_file_servi.Utf8.{decode_rune, encode_rune}
use lapis_archive_file_servi.Hex.{digit}
use lapis_archive_file_servi.Quote.{
  Unicode, hex_four, hex_escape, letter_escape, escape_rune, is_print, quote_rune, quote_first,
  quote_after, quote,
}

-- A byte that a header may carry: no control character.
abbrev pub IsVisible : ℕ → Type 0
IsVisible c = (0x20 ≤ c) × (c ≢ 0x7f)

-- What a reader of a quoted string does after the opening quote: a backslash takes the next byte
-- with it, and the first quote that is not taken so ends the string. What follows it is returned.
unfoldable pub after_quote : Bool → Bytes → Option Bytes
after_quote escaped [] = none
after_quote escaped (c ∷ s) =
    let rest = after_quote (not escaped && (c == b'\\')) s in
    if not escaped && (c == b'"') then some s else rest

-- Bytes that can stand in a quoted string.
record IsChunk (xs : Bytes) : Type 0 where
  visible : All IsVisible xs
  inside : (t : Bytes) → after_quote false (xs ++ t) ≡ after_quote false t

abbrev IsInert : ℕ → Type 0
IsInert c = IsVisible c × (c ≢ b'"') × (c ≢ b'\\')

inert_inside : (xs t : Bytes) → All IsInert xs → after_quote false (xs ++ t) ≡ after_quote false t
unfolding after_quote
inert_inside [] t h = refl
inert_inside (c ∷ xs) t h = ground (arith, inert_inside xs t h.1)

inert-IsVisible : (xs : Bytes) → All IsInert xs → All IsVisible xs
inert-IsVisible [] h = tt
inert-IsVisible (c ∷ xs) h = (h.0.0, inert-IsVisible xs h.1)

inert-IsChunk : (xs : Bytes) → All IsInert xs → IsChunk xs
inert-IsChunk xs h = record { visible = inert-IsVisible xs h; inside = λ t. inert_inside xs t h }

-- a backslash, a byte and inert bytes
escape-IsChunk : (c : ℕ) (xs : Bytes) → IsVisible c → All IsInert xs → IsChunk (b'\\' ∷ c ∷ xs)
unfolding after_quote
escape-IsChunk c xs v h = record {
  visible = (omega arith, (v, inert-IsVisible xs h));
  inside = λ t. ground (arith, inert_inside xs t h);
}

digit-IsInert : (n : ℕ) → IsInert (digit (n % 16))
unfolding digit
digit-IsInert n = ground arith

hex_four-IsInert : (r : ℕ) → All IsInert (hex_four r)
unfolding hex_four
hex_four-IsInert r = (
  digit-IsInert (r / 4096),
  (digit-IsInert (r / 256), (digit-IsInert (r / 16), (digit-IsInert r, tt))),
)

hex_escape-IsChunk : (b : ℕ) → IsChunk (hex_escape b)
unfolding hex_escape
hex_escape-IsChunk b =
    escape-IsChunk b'x' (digit (b / 16 % 16) ∷ digit (b % 16) ∷ []) (omega arith)
      (digit-IsInert (b / 16), (digit-IsInert b, tt))

letter_escape-IsChunk : (c : ℕ) → IsVisible c → IsChunk (letter_escape c)
unfolding letter_escape
letter_escape-IsChunk c v = escape-IsChunk c [] v tt

if-IsChunk : (b : Bool) (xs ys : Bytes) → IsChunk xs → IsChunk ys → IsChunk (if b then xs else ys)
if-IsChunk true xs ys h k = h
if-IsChunk false xs ys h k = k

escape_rune-IsChunk : (r : ℕ) → IsChunk (escape_rune r)
unfolding escape_rune
escape_rune-IsChunk r = if-IsChunk (r == 0x7) _ _ (letter_escape-IsChunk b'a' (omega arith)) (
    if-IsChunk (r == 0x8) _ _ (letter_escape-IsChunk b'b' (omega arith)) (
      if-IsChunk (r == 0xc) _ _ (letter_escape-IsChunk b'f' (omega arith)) (
        if-IsChunk (r == 0xa) _ _ (letter_escape-IsChunk b'n' (omega arith)) (
          if-IsChunk (r == 0xd) _ _ (letter_escape-IsChunk b'r' (omega arith)) (
            if-IsChunk (r == 0x9) _ _ (letter_escape-IsChunk b't' (omega arith)) (
              if-IsChunk (r == 0xb) _ _ (letter_escape-IsChunk b'v' (omega arith)) (
                if-IsChunk _ _ _ (hex_escape-IsChunk r) (
                  if-IsChunk _ _ _
                    (escape-IsChunk b'u' (hex_four r) (omega arith) (hex_four-IsInert r))
                    (escape-IsChunk b'U' (hex_four (r / 65536) ++ hex_four r) (omega arith) (
                      All-append IsInert (hex_four (r / 65536)) (hex_four r)
                        (hex_four-IsInert (r / 65536)) (hex_four-IsInert r)))))))))))

encode_rune-IsInert :
    (r : ℕ) → 0x20 ≤ r → r ≢ 0x7f → r ≢ b'"' → r ≢ b'\\' → All IsInert (encode_rune r)
unfolding encode_rune
encode_rune-IsInert r a b c d = ground arith

module _ (unicode : Unicode) where
  is_print-IsVisible : (r : ℕ) → is_print unicode r ≡ true → IsVisible r
  unfolding is_print
  is_print-IsVisible r h = ground arith

  quote_rune-IsChunk : (r : ℕ) → IsChunk (quote_rune unicode r)
  unfolding quote_rune
  quote_rune-IsChunk r = elim (Bool-cases (r == b'"' || r == b'\\')) [
    | inl e ↦ rw e (escape-IsChunk r [] (ground arith) tt)
    | inr e ↦ rw e (elim (Bool-cases (is_print unicode r)) [
      | inl p ↦
          let v = is_print-IsVisible r p in
          rw p (inert-IsChunk _ (encode_rune-IsInert r v.0 v.1 (ground arith) (ground arith)))
      | inr p ↦ rw p (escape_rune-IsChunk r)
    ])
  ]

  quote_first-IsChunk : (b : ℕ) (s : Bytes) → IsChunk (quote_first unicode b s)
  unfolding quote_first
  quote_first-IsChunk b s =
      if-IsChunk _ _ _ (hex_escape-IsChunk b) (quote_rune-IsChunk (decode_rune b s).0)

  quote_after-IsChunk : (skip : ℕ) (s : Bytes) → IsChunk (quote_after unicode skip s)
  unfolding quote_after
  quote_after-IsChunk skip [] = inert-IsChunk [] tt
  quote_after-IsChunk (suc skip) (b ∷ s) = quote_after-IsChunk skip s
  quote_after-IsChunk zero (b ∷ s) =
      let first = quote_first-IsChunk b s in
      let more = quote_after-IsChunk ((decode_rune b s).1 - 1) s in
      record {
        visible = All-append IsVisible _ _ first.visible more.visible;
        inside = λ t.
            (ap (after_quote false) (append_assoc (quote_first unicode b s) _ t)
              ∙ (first.inside (quote_after unicode ((decode_rune b s).1 - 1) s ++ t)
                  ∙ more.inside t));
      }

  -- A quoted text is visible, and what follows it in a header is not taken for part of it.
  pub quote-IsVisible : (s : Bytes) → All IsVisible (quote unicode s)
  unfolding quote
  quote-IsVisible s =
      (omega arith, All-append IsVisible _ _ (quote_after-IsChunk 0 s).visible (omega arith, tt))

  pub after_quote-quote :
      (s t : Bytes) → after_quote false (quote_after unicode 0 s ++ (b'"' ∷ t)) ≡ some t
  unfolding after_quote
  after_quote-quote s t = (quote_after-IsChunk 0 s).inside (b'"' ∷ t)
