-- ===== src/Tenancy/Estimator.antt =====
-- crates/idoris-tenancy/src/budget/estimator.rs: how many tokens a text is taken to have before its
-- use is known. A text is a list of code points. A `String` has fewer than 2 ^ 63 bytes, so that the
-- counters, which are `u64`, do not overflow.
mod Examples
use i_doris.Prelude.{
  ℕ, suc, ◌+◌, ◌-◌, ◌*◌, ◌/◌, ◌≤◌, ◌≡◌, refl, ltb, if◌then◌else◌, List, [], ◌∷◌, ◌++◌, length,
  arith, Bool-cases, inl, inr, ◌∙◌,
}
use i_doris.Prelude.Equality.{Text}
use i_doris.Policy.Role.{len_utf8}

abbrev pub div_ceil : ℕ → ℕ → ℕ
div_ceil a b = (a + (b - 1)) / b

-- The bytes of the characters in and outside ASCII, counted on.
abbrev count_char : ℕ × ℕ → ℕ → ℕ × ℕ
count_char (ascii_bytes, non_ascii_bytes) c =
    if ltb c 0x80
    then (ascii_bytes + 1, non_ascii_bytes)
    else (ascii_bytes, non_ascii_bytes + len_utf8 c)

count_from : ℕ × ℕ → Text → ℕ × ℕ
count_from counts [] = counts
count_from counts (c ∷ text) = count_from (count_char counts c) text

pub estimate_tokens : Text → ℕ
unfolding count_from
estimate_tokens text = let counts = count_from (0, 0) text in div_ceil counts.0 3 + counts.1

abbrev pub byte_length : Text → ℕ
byte_length [] = 0
byte_length (c ∷ text) = len_utf8 c + byte_length text

-- The two counts without accumulator.
abbrev ascii_count : Text → ℕ
ascii_count [] = 0
ascii_count (c ∷ text) = if ltb c 0x80 then suc (ascii_count text) else ascii_count text

abbrev other_count : Text → ℕ
other_count [] = 0
other_count (c ∷ text) = if ltb c 0x80 then other_count text else len_utf8 c + other_count text

pair : {a b c d : ℕ} → a ≡ c → b ≡ d → ◌≡◌ {A = ℕ × ℕ} (a, b) (c, d)
pair p q = cc

count_char-counts :
    (a b c : ℕ) (text : Text)
    → ((count_char (a, b) c).0 + ascii_count text ≡ a + ascii_count (c ∷ text))
      × ((count_char (a, b) c).1 + other_count text ≡ b + other_count (c ∷ text))
count_char-counts a b c text = ground arith

count_from-counts :
    (text : Text) (a b : ℕ) → count_from (a, b) text ≡ (a + ascii_count text, b + other_count text)
unfolding count_from
count_from-counts [] a b = pair (omega arith) (omega arith)
count_from-counts (c ∷ text) a b =
    let (p, q) = count_char-counts a b c text in
    count_from-counts text (count_char (a, b) c).0 (count_char (a, b) c).1 ∙ pair p q

counts-bounds :
    (text : Text)
    → (length text ≤ ascii_count text + other_count text)
      × (ascii_count text + other_count text ≡ byte_length text)
counts-bounds [] = (omega arith, refl)
counts-bounds (c ∷ text) = let ih = counts-bounds text in ground arith

counts-append :
    (s t : Text)
    → (ascii_count (s ++ t) ≡ ascii_count s + ascii_count t)
      × (other_count (s ++ t) ≡ other_count s + other_count t)
counts-append [] t = (omega arith, omega arith)
counts-append (c ∷ s) t = let ih = counts-append s t in ground arith

estimate_tokens_lem :
    (text : Text) → estimate_tokens text ≡ div_ceil (ascii_count text) 3 + other_count text
unfolding estimate_tokens
estimate_tokens_lem text = rw (count_from-counts text 0 0) (omega arith)

-- The estimate of a text is at least a third of its characters, rounded up, hence at least the
-- naive count of a fourth of them, and at most the number of its bytes in UTF-8.
pub estimate_tokens-bounds :
    (text : Text)
    → (div_ceil (length text) 3 ≤ estimate_tokens text)
      × (div_ceil (length text) 4 ≤ estimate_tokens text)
      × (estimate_tokens text ≤ byte_length text)
estimate_tokens-bounds text =
    let e = estimate_tokens_lem text in
    let b = counts-bounds text in
    (omega (arith, e, b.0), omega (arith, e, b.0), omega (arith, e, b.1))

-- Estimating two texts one by one is never less than estimating them joined, and at most one token
-- more; and a longer text is never estimated lower than its beginning.
pub estimate_tokens-append :
    (s t : Text)
    → (estimate_tokens (s ++ t) ≤ estimate_tokens s + estimate_tokens t)
      × (estimate_tokens s + estimate_tokens t ≤ estimate_tokens (s ++ t) + 1)
      × (estimate_tokens s ≤ estimate_tokens (s ++ t))
estimate_tokens-append s t =
    let e = estimate_tokens_lem s in
    let f = estimate_tokens_lem t in
    let g = estimate_tokens_lem (s ++ t) in
    let c = counts-append s t in
    (
      omega (arith, e, f, g, c.0, c.1),
      omega (arith, e, f, g, c.0, c.1),
      omega (arith, e, f, g, c.0, c.1),
    )
