-- ===== src/Prelude/Text.antt =====
-- Texts as lists of code points: `str::trim_matches`, ASCII digits, white space.
use Prim.Native.Nat.{ℕ}
use mathlib.Core.Path.{◌≡◌, refl}
use mathlib.Core.Bool.{Bool, true, false, ◌&&◌, ◌||◌}
use mathlib.Core.List.{[], ◌∷◌, ◌++◌}
use native.Mathlib.Omega.{arith}
use i_doris.Prelude.Tests.{leb, ◌==◌, if◌then◌else◌}
use i_doris.Prelude.Lists.{is_empty, all}
use i_doris.Prelude.Equality.{Text}

trim_start : (ℕ → Bool) → Text → Text
trim_start p [] = []
trim_start p (c ∷ s) = let rest = trim_start p s in if p c then rest else c ∷ s

trim_end : (ℕ → Bool) → Text → Text
trim_end p [] = []
trim_end p (c ∷ s) = let rest = trim_end p s in if p c && is_empty rest then [] else c ∷ rest

unfoldable pub trim_matches : (ℕ → Bool) → Text → Text
unfolding trim_start trim_end
trim_matches p s = trim_end p (trim_start p s)

abbrev pub is_ascii_digit : ℕ → Bool
is_ascii_digit c = leb b'0' c && leb c b'9'

-- `char::is_whitespace`, the Unicode property White_Space.
abbrev pub is_whitespace : ℕ → Bool
is_whitespace c =
    leb 0x9 c && leb c 0xd
    || c == 0x20
    || c == 0x85
    || c == 0xa0
    || c == 0x1680
    || leb 0x2000 c && leb c 0x200a
    || c == 0x2028
    || c == 0x2029
    || c == 0x202f
    || c == 0x205f
    || c == 0x3000

trim_end-all : (p : ℕ → Bool) (r : Text) → all p r ≡ true → trim_end p r ≡ []
unfolding trim_end
trim_end-all p [] h = refl
trim_end-all p (c ∷ r) h = ground (arith, trim_end-all p r)

-- No character of `m` passes the test.
abbrev pub AllFail : (ℕ → Bool) → Text → Type 0
AllFail p [] = Unit {0}
AllFail p (c ∷ m) = (p c ≡ false) × AllFail p m

trim_end-append :
    (p : ℕ → Bool) (m r : Text) → AllFail p m → all p r ≡ true → trim_end p (m ++ r) ≡ m
unfolding trim_end
trim_end-append p [] r f h = trim_end-all p r h
trim_end-append p (c ∷ m) r f h = ground (arith, trim_end-append p m r f.1 h)

trim_start_none : (p : ℕ → Bool) (c : ℕ) (m : Text) → p c ≡ false → trim_start p (c ∷ m) ≡ c ∷ m
unfolding trim_start
trim_start_none p c m h = ground arith

trim_start-append :
    (p : ℕ → Bool) (l m : Text) → all p l ≡ true → trim_start p (l ++ m) ≡ trim_start p m
unfolding trim_start
trim_start-append p [] m h = refl
trim_start-append p (c ∷ l) m h = ground (arith, trim_start-append p l m)

-- Padding on both sides goes, and nothing else.
pub trim_matches-padded :
    (p : ℕ → Bool) (l : Text) (c : ℕ) (m r : Text)
    → all p l ≡ true
    → AllFail p (c ∷ m)
    → all p r ≡ true
    → trim_matches p (l ++ (c ∷ m ++ r)) ≡ c ∷ m
unfolding trim_matches
trim_matches-padded p l c m r hl f hr =
    rw (trim_start-append p l (c ∷ m ++ r) hl)
      (rw (trim_start_none p c (m ++ r) f.0) (trim_end-append p (c ∷ m) r f hr))
