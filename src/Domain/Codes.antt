-- ===== src/Domain/Codes.antt =====
-- `normalizeCode` of internal/domain/share.go, and what a recipient may type for a code.
use lapis_archive_file_servi.Prelude.{
  ℕ, ◌+◌, ◌-◌, ◌≤◌, [], ◌∷◌, ◌++◌, List, Bytes, ◌≡◌, ◌≢◌, refl, sym, ap, subst, ◌∙◌, ◌⊎◌, inl, inr,
  arith, All, All-append, ◌<◌, append_assoc, ◌↔◌,
}
use lapis_archive_file_servi.Utf8.{runes, string_of, encode_rune}
use lapis_archive_file_servi.Utf8.RoundTrip.{IsScalar, runes-IsScalar, runes-string_of}
use lapis_archive_file_servi.Utf8.Ascii.{IsAscii, runes_of_ascii, IsAscii-of_runes}
use lapis_archive_file_servi.Domain.{normalize_rune, normalize_runes, normalize_code}

normalize_rune-IsScalar : (r : ℕ) → IsScalar r → All IsScalar (normalize_rune r)
unfolding normalize_rune
normalize_rune-IsScalar r h = ground arith

normalize_runes-IsScalar : (rs : List ℕ) → All IsScalar rs → All IsScalar (normalize_runes rs)
unfolding normalize_runes
normalize_runes-IsScalar [] h = tt
normalize_runes-IsScalar (r ∷ rs) h =
    All-append IsScalar (normalize_rune r) (normalize_runes rs) (normalize_rune-IsScalar r h.0)
      (normalize_runes-IsScalar rs h.1)

normalize_rune_idem : (r : ℕ) → normalize_runes (normalize_rune r) ≡ normalize_rune r
unfolding normalize_runes normalize_rune
normalize_rune_idem r = ground arith

normalize_runes-append :
    (rs ss : List ℕ) → normalize_runes (rs ++ ss) ≡ normalize_runes rs ++ normalize_runes ss
unfolding normalize_runes
normalize_runes-append [] ss = refl
normalize_runes-append (r ∷ rs) ss = simp (normalize_runes-append rs ss, append_assoc)

normalize_runes_idem : (rs : List ℕ) → normalize_runes (normalize_runes rs) ≡ normalize_runes rs
unfolding normalize_runes
normalize_runes_idem [] = refl
normalize_runes_idem (r ∷ rs) =
    simp (normalize_runes-append, normalize_rune_idem, normalize_runes_idem rs)

-- Normalising twice is normalising once, for every string, valid UTF-8 or not.
pub normalize_code_idem :
    (code : Bytes) → normalize_code (normalize_code code) ≡ normalize_code code
unfolding normalize_code
normalize_code_idem code =
    let rs = normalize_runes (runes code) in
    rw (runes-string_of rs (normalize_runes-IsScalar _ (runes-IsScalar code)))
      (ap string_of (normalize_runes_idem (runes code)))

-- What may be typed for a code: its letters, upper-case ones in either case, with any number of
-- spaces and dashes between them, before them and behind them.
pub data Spells : Bytes → Bytes → Type 0 where
  done : Spells [] []
  gap :
      {sep : ℕ} {code typed : Bytes}
      → (sep ≡ b' ') ⊎ (sep ≡ b'-')
      → Spells code typed
      → Spells code (sep ∷ typed)
  same : {c : ℕ} {code typed : Bytes} → Spells code typed → Spells (c ∷ code) (c ∷ typed)
  lower :
      {c d : ℕ} {code typed : Bytes}
      → b'A' ≤ c
      → c ≤ b'Z'
      → d ≡ c + 32
      → Spells code typed
      → Spells (c ∷ code) (d ∷ typed)

-- A character of a code: printable ASCII that normalising leaves alone.
abbrev pub IsCodeLetter : ℕ → Type 0
IsCodeLetter c = (c < 0x80) × (c ≢ b' ') × (c ≢ b'-') × ((c < b'a') ⊎ (b'z' < c))

Spells-IsAscii :
    {code typed : Bytes} → All IsCodeLetter code → Spells code typed → All IsAscii typed
Spells-IsAscii h done = tt
Spells-IsAscii h (gap e s) = (omega arith, Spells-IsAscii h s)
Spells-IsAscii h (same s) = (h.0.0, Spells-IsAscii h.1 s)
Spells-IsAscii h (lower p q e s) = (omega arith, Spells-IsAscii h.1 s)

normalize_rune_gap : (r : ℕ) → (r ≡ b' ') ⊎ (r ≡ b'-') → normalize_rune r ≡ []
unfolding normalize_rune
normalize_rune_gap r h = ground arith

normalize_rune_same : (r : ℕ) → IsCodeLetter r → normalize_rune r ≡ r ∷ []
unfolding normalize_rune
normalize_rune_same r h = ground arith

normalize_rune_lower : (r d : ℕ) → b'A' ≤ r → r ≤ b'Z' → d ≡ r + 32 → normalize_rune d ≡ r ∷ []
unfolding normalize_rune
normalize_rune_lower r d h k e = ground arith

normalize_runes-Spells :
    {code typed : Bytes} → All IsCodeLetter code → Spells code typed → normalize_runes typed ≡ code
unfolding normalize_runes
normalize_runes-Spells h done = refl
normalize_runes-Spells h (gap {sep} e s) =
    rw (normalize_rune_gap sep e) (normalize_runes-Spells h s)
normalize_runes-Spells h (same {c} s) =
    rw (normalize_rune_same c h.0) (ap (◌∷◌ c) (normalize_runes-Spells h.1 s))
normalize_runes-Spells h (lower {c} {d} p q e s) =
    rw (normalize_rune_lower c d p q e) (ap (◌∷◌ c) (normalize_runes-Spells h.1 s))

string_of_ascii : (s : Bytes) → All IsAscii s → string_of s ≡ s
unfolding string_of encode_rune
string_of_ascii [] h = refl
string_of_ascii (c ∷ s) h = ground (arith, string_of_ascii s h.1)

IsCodeLetter-IsAscii : (code : Bytes) → All IsCodeLetter code → All IsAscii code
IsCodeLetter-IsAscii [] h = tt
IsCodeLetter-IsAscii (c ∷ code) h = (h.0.0, IsCodeLetter-IsAscii code h.1)

normalize_code_of_Spells :
    (code typed : Bytes) → All IsCodeLetter code → Spells code typed → normalize_code typed ≡ code
unfolding normalize_code
normalize_code_of_Spells code typed h s =
    rw (runes_of_ascii typed (Spells-IsAscii h s), normalize_runes-Spells h s)
      (string_of_ascii code (IsCodeLetter-IsAscii code h))

normalize_rune-cases :
    (r : ℕ)
    → (((r ≡ b' ') ⊎ (r ≡ b'-')) × (normalize_rune r ≡ []))
      ⊎ ((b'a' ≤ r) × (r ≤ b'z') × (normalize_rune r ≡ (r - 32) ∷ []))
      ⊎ (normalize_rune r ≡ r ∷ [])
unfolding normalize_rune
normalize_rune-cases r = ground arith

Spells-normalize_rune :
    (r : ℕ) (code typed : Bytes) → Spells code typed → Spells (normalize_rune r ++ code) (r ∷ typed)
Spells-normalize_rune r code typed s = elim (normalize_rune-cases r) [
  | inl (e, n) ↦ rw n (gap e s)
  | inr (inl (p, q, n)) ↦ rw n (lower (omega arith) (omega arith) (omega arith) s)
  | inr (inr n) ↦ rw n (same s)
]

Spells-normalize_runes : (typed : List ℕ) → Spells (normalize_runes typed) typed
unfolding normalize_runes
Spells-normalize_runes [] = done
Spells-normalize_runes (r ∷ rs) = Spells-normalize_rune r _ rs (Spells-normalize_runes rs)

-- What normalising drops or lowers is ASCII.
IsAscii-of_normalize_runes : (rs : List ℕ) → All IsAscii (normalize_runes rs) → All IsAscii rs
unfolding normalize_runes normalize_rune
IsAscii-of_normalize_runes [] h = tt
IsAscii-of_normalize_runes (r ∷ rs) h = ground (arith, IsAscii-of_normalize_runes rs)

Spells-of_normalize_code :
    (code typed : Bytes) → All IsCodeLetter code → normalize_code typed ≡ code → Spells code typed
unfolding normalize_code
Spells-of_normalize_code code typed h e =
    subst (λ c. Spells c typed) (rw (← runes_of_ascii typed ascii) kept)
      (Spells-normalize_runes typed)
  where
    rs : List ℕ
    rs = normalize_runes (runes typed)

    kept : normalize_runes (runes typed) ≡ code
    kept =
        sym (runes-string_of rs (normalize_runes-IsScalar _ (runes-IsScalar typed)))
        ∙ ap runes e
        ∙ runes_of_ascii code (IsCodeLetter-IsAscii code h)

    ascii : All IsAscii typed
    ascii =
        IsAscii-of_runes typed
          (IsAscii-of_normalize_runes (runes typed) (rw kept (IsCodeLetter-IsAscii code h)))

-- What is typed is normalised to a code exactly when it spells the code; the typed text may be any
-- string of bytes, and the code any string of letters that normalising leaves alone.
pub normalize_code-Spells :
    (code typed : Bytes) → All IsCodeLetter code → (normalize_code typed ≡ code) ↔ Spells code typed
normalize_code-Spells code typed h =
    (Spells-of_normalize_code code typed h, normalize_code_of_Spells code typed h)
