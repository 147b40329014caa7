-- ===== src/Prelude/Strings.antt =====
-- A Go string is a list of bytes. Literals are the code points of a text, which are its bytes,
-- since every literal of the program is ASCII.
use lapis_archive_file_servi.Prelude.Tests.{◌==◌}
use Prim.Native.Nat.{ℕ}
use Prim.Native.Char.{code}
use Prim.Native.String.{String}
use mathlib.Core.Path.{◌≡◌, refl}
use mathlib.Core.Logic.{◌↔◌}
use mathlib.Core.Bool.{Bool, true, false, ◌&&◌}
use mathlib.Core.List.{List, [], ◌∷◌}
use native.Mathlib.Omega.{arith}

abbrev pub Bytes : Type 0
Bytes = List ℕ

abbrev pub codes : String → Bytes
codes String.[] = []
codes (String.◌∷◌ c s) = code c ∷ codes s

-- `a == b` on strings.
infix 50 ◌≟◌
unfoldable pub ◌≟◌ : Bytes → Bytes → Bool
◌≟◌ [] [] = true
◌≟◌ (a ∷ s) (b ∷ t) = (a == b) && (s ≟ t)
◌≟◌ _ _ = false

pub ≟_refl : (a : Bytes) → (a ≟ a) ≡ true
unfolding ◌≟◌
≟_refl [] = refl
≟_refl (a ∷ s) = ground (arith, ≟_refl s)

pub ≟_sound : (a b : Bytes) → (a ≟ b) ≡ true → a ≡ b
unfolding ◌≟◌
≟_sound [] [] h = refl
≟_sound [] (b ∷ t) h = cc
≟_sound (a ∷ s) [] h = cc
≟_sound (a ∷ s) (b ∷ t) h = ground (arith, ≟_sound s t)

pub ≟_iff : (a b : Bytes) → ((a ≟ b) ≡ true) ↔ (a ≡ b)
≟_iff a b = (≟_sound a b, λ e. cc (≟_refl a, e))

-- `s == ""`
abbrev pub is_empty : Bytes → Bool
is_empty [] = true
is_empty (c ∷ s) = false
