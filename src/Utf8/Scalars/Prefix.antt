-- ===== src/Utf8/Scalars/Prefix.antt =====
-- Which bytes of a scalar the scanner has read, by its state.
use mathlib.Core.Path.{subst}
use async_chunker.Prelude.{
  ℕ, ◌+◌, ◌-◌, ◌*◌, ◌≤◌, ◌≡◌, refl, ◌⊎◌, [], ◌∷◌, ◌++◌, Bool, true, false, arith, Bytes,
}
use async_chunker.Result.{Ensures}
use async_chunker.Utf8.Scalars.{encode, IsText, IsText-scalar}
use async_chunker.Utf8.{Utf8Scanner, begin, push}

-- The rows of the standard's table of well-formed sequences: lead byte, and range of the second byte.
abbrev pub Row3 : ℕ → ℕ → ℕ → Type 0
Row3 b lo hi =
    ((b ≡ 0xe0) × (lo ≡ 0xa0) × (hi ≡ 0xbf))
    ⊎ ((0xe1 ≤ b) × (b ≤ 0xec) × (lo ≡ 0x80) × (hi ≡ 0xbf))
    ⊎ ((0xee ≤ b) × (b ≤ 0xef) × (lo ≡ 0x80) × (hi ≡ 0xbf))
    ⊎ ((b ≡ 0xed) × (lo ≡ 0x80) × (hi ≡ 0x9f))

abbrev pub Row4 : ℕ → ℕ → ℕ → Type 0
Row4 b lo hi =
    ((b ≡ 0xf0) × (lo ≡ 0x90) × (hi ≡ 0xbf))
    ⊎ ((0xf1 ≤ b) × (b ≤ 0xf3) × (lo ≡ 0x80) × (hi ≡ 0xbf))
    ⊎ ((b ≡ 0xf4) × (lo ≡ 0x80) × (hi ≡ 0x8f))

abbrev pub Row3' : ℕ → ℕ → Type 0
Row3' b c =
    ((b ≡ 0xe0) × (0xa0 ≤ c) × (c ≤ 0xbf))
    ⊎ ((0xe1 ≤ b) × (b ≤ 0xec) × (0x80 ≤ c) × (c ≤ 0xbf))
    ⊎ ((0xee ≤ b) × (b ≤ 0xef) × (0x80 ≤ c) × (c ≤ 0xbf))
    ⊎ ((b ≡ 0xed) × (0x80 ≤ c) × (c ≤ 0x9f))

abbrev pub Row4' : ℕ → ℕ → Type 0
Row4' b c =
    ((b ≡ 0xf0) × (0x90 ≤ c) × (c ≤ 0xbf))
    ⊎ ((0xf1 ≤ b) × (b ≤ 0xf3) × (0x80 ≤ c) × (c ≤ 0xbf))
    ⊎ ((b ≡ 0xf4) × (0x80 ≤ c) × (c ≤ 0x8f))

abbrev pub Tail : ℕ → Type 0
Tail c = (0x80 ≤ c) × (c ≤ 0xbf)

-- What the scanner state `s` says of the bytes read since the last complete scalar.
abbrev pub Prefix : Bytes → Utf8Scanner → Type 0
Prefix [] s = s.remaining ≡ 0
Prefix (b ∷ []) s =
    ((s.remaining ≡ 1) × (0xc2 ≤ b) × (b ≤ 0xdf) × (s.next_lo ≡ 0x80) × (s.next_hi ≡ 0xbf))
    ⊎ ((s.remaining ≡ 2) × Row3 b s.next_lo s.next_hi)
    ⊎ ((s.remaining ≡ 3) × Row4 b s.next_lo s.next_hi)
Prefix (b ∷ c ∷ []) s =
    (s.next_lo ≡ 0x80)
    × (s.next_hi ≡ 0xbf)
    × (((s.remaining ≡ 1) × Row3' b c) ⊎ ((s.remaining ≡ 2) × Row4' b c))
Prefix (b ∷ c ∷ d ∷ []) s =
    (s.next_lo ≡ 0x80) × (s.next_hi ≡ 0xbf) × (s.remaining ≡ 1) × Row4' b c × Tail d
Prefix (b ∷ c ∷ d ∷ e ∷ bs) s = ⊥

-- Complete sequences are encodings of scalar values.
one_byte : (b : ℕ) → b ≤ 0x7f → IsText (b ∷ [])
one_byte b h =
    let same : encode b ≡ b ∷ [] = unfold encode in ground arith in
    subst IsText same (IsText-scalar b (omega arith, omega arith))

two_bytes : (b c : ℕ) → 0xc2 ≤ b → b ≤ 0xdf → Tail c → IsText (b ∷ c ∷ [])
two_bytes b c h k t =
    let n = (b - 0xc0) * 64 + (c - 0x80) in
    let same : encode n ≡ b ∷ c ∷ [] = unfold encode in ground arith in
    subst IsText same (IsText-scalar n (omega arith, omega arith))

three_bytes : (b c d : ℕ) → Row3' b c → Tail d → IsText (b ∷ c ∷ d ∷ [])
three_bytes b c d r t =
    let n = (b - 0xe0) * 4096 + (c - 0x80) * 64 + (d - 0x80) in
    let same : encode n ≡ b ∷ c ∷ d ∷ [] = unfold encode in ground arith in
    subst IsText same (IsText-scalar n (omega arith, omega arith))

four_bytes : (b c d e : ℕ) → Row4' b c → Tail d → Tail e → IsText (b ∷ c ∷ d ∷ e ∷ [])
four_bytes b c d e r t u =
    let n = (b - 0xf0) * 262144 + (c - 0x80) * 4096 + (d - 0x80) * 64 + (e - 0x80) in
    let same : encode n ≡ b ∷ c ∷ d ∷ e ∷ [] = unfold encode in ground arith in
    subst IsText same (IsText-scalar n (omega arith, omega arith))

-- After a byte: a whole scalar, or a longer prefix of one.
abbrev pub Reads : Bytes → ℕ → Utf8Scanner → Bool → Type 0
Reads p b s true = IsText (p ++ b ∷ []) × (s.remaining ≡ 0)
Reads p b s false = Prefix (p ++ b ∷ []) s

abbrev pub Read : Bytes → ℕ → Utf8Scanner × Bool → Type 0
Read p b r = Reads p b r.0 r.1

begin-Reads : (s : Utf8Scanner) (b : ℕ) → s.remaining ≡ 0 → Ensures (Read [] b) (begin s b)
unfolding begin
begin-Reads s b h = ground (arith, one_byte b)

pub push-Reads : (p : Bytes) (s : Utf8Scanner) (b : ℕ) → Prefix p s → Ensures (Read p b) (push s b)
unfolding push
push-Reads [] s b h = ground (arith, begin-Reads s b h)
push-Reads (c ∷ []) s b h = ground (arith, two_bytes c b)
push-Reads (c ∷ d ∷ []) s b h = ground (arith, three_bytes c d b)
push-Reads (c ∷ d ∷ e ∷ []) s b h = ground (arith, four_bytes c d e b)
push-Reads (c ∷ d ∷ e ∷ f ∷ p) s b h = absurd h

-- Between scalars no byte is open.
pub nothing_open : (p : Bytes) (s : Utf8Scanner) → Prefix p s → s.remaining ≡ 0 → p ≡ []
nothing_open [] s h e = refl
nothing_open (b ∷ []) s h e = absurd (omega arith)
nothing_open (b ∷ c ∷ []) s h e = absurd (omega arith)
nothing_open (b ∷ c ∷ d ∷ []) s h e = absurd (omega arith)
nothing_open (b ∷ c ∷ d ∷ f ∷ p) s h e = absurd h
