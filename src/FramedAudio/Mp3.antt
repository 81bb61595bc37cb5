-- ===== src/FramedAudio/Mp3.antt =====
-- src/chunker/framed_audio/mp3.rs: the length of an MPEG audio frame.
use async_chunker.FramedAudio.Headers.{AudioFault, bad_frame_header, free_format_bitrate, at}
use async_chunker.Prelude.{
  ℕ, zero, suc, ◌+◌, ◌-◌, ◌*◌, ◌/◌, ◌%◌, ◌≤◌, ◌<◌, ◌≡◌, refl, ◌⊎◌, List, [], ◌∷◌, Bool, true, ◌&&◌,
  arith, length, ltb, leb, ◌==◌, if◌then◌else◌, Bytes, get_or,
}
use async_chunker.Result.{Result, ok, err, ◌>>=◌, Ensures, Ensures-bind}

abbrev v1_kbps : List (List ℕ)
v1_kbps =
    (32 ∷ 64 ∷ 96 ∷ 128 ∷ 160 ∷ 192 ∷ 224 ∷ 256 ∷ 288 ∷ 320 ∷ 352 ∷ 384 ∷ 416 ∷ 448 ∷ [])
    ∷ (32 ∷ 48 ∷ 56 ∷ 64 ∷ 80 ∷ 96 ∷ 112 ∷ 128 ∷ 160 ∷ 192 ∷ 224 ∷ 256 ∷ 320 ∷ 384 ∷ [])
    ∷ (32 ∷ 40 ∷ 48 ∷ 56 ∷ 64 ∷ 80 ∷ 96 ∷ 112 ∷ 128 ∷ 160 ∷ 192 ∷ 224 ∷ 256 ∷ 320 ∷ [])
    ∷ []

abbrev v2_kbps : List (List ℕ)
v2_kbps =
    (32 ∷ 48 ∷ 56 ∷ 64 ∷ 80 ∷ 96 ∷ 112 ∷ 128 ∷ 144 ∷ 160 ∷ 176 ∷ 192 ∷ 224 ∷ 256 ∷ [])
    ∷ (8 ∷ 16 ∷ 24 ∷ 32 ∷ 40 ∷ 48 ∷ 56 ∷ 64 ∷ 80 ∷ 96 ∷ 112 ∷ 128 ∷ 144 ∷ 160 ∷ [])
    ∷ []

abbrev hz : List (List ℕ)
hz = (44100 ∷ 48000 ∷ 32000 ∷ []) ∷ (22050 ∷ 24000 ∷ 16000 ∷ []) ∷ (11025 ∷ 12000 ∷ 8000 ∷ []) ∷ []

-- `table[row][column]`, where the indices are in range.
abbrev cell : List (List ℕ) → ℕ → ℕ → ℕ
cell table row column = get_or (get_or table row []) column 0

-- The index of the version, and that of the layer.
unfoldable pub version_of : ℕ → Result AudioFault ℕ
version_of bits =
    if bits == 3
    then ok 0
    else if bits == 2
    then ok 1
    else if bits == 0
    then ok 2
    else err bad_frame_header

unfoldable pub layer_of : ℕ → Result AudioFault ℕ
layer_of bits =
    if bits == 3
    then ok 0
    else if bits == 2
    then ok 1
    else if bits == 1
    then ok 2
    else err bad_frame_header

unfoldable pub bitrate_of : ℕ → Result AudioFault ℕ
bitrate_of index =
    if index == 15
    then err bad_frame_header
    else if index == 0
    then err free_format_bitrate
    else ok index

unfoldable pub samplerate_of : ℕ → Result AudioFault ℕ
samplerate_of index = if index == 3 then err bad_frame_header else ok index

unfoldable pub kbps_of : ℕ → ℕ → ℕ → ℕ
kbps_of version layer bitrate =
    if version == 0
    then cell v1_kbps layer (bitrate - 1)
    else cell v2_kbps (if layer == 0 then 0 else 1) (bitrate - 1)

-- The last `match` of `frame_len`.
unfoldable pub length_of : ℕ → ℕ → ℕ → ℕ → ℕ → ℕ
length_of version layer kbps rate padding =
    let bits = kbps * 1000 in
    if layer == 0
    then (12 * bits / rate + padding) * 4
    else if layer == 2
    then (if ltb 0 version then 72 * bits / rate + padding else 144 * bits / rate + padding)
    else 144 * bits / rate + padding

unfoldable pub frame_len : Bytes → Result AudioFault ℕ
unfolding version_of layer_of bitrate_of samplerate_of kbps_of length_of
frame_len header = do
  version ← version_of (at header 1 / 8 % 4)
  layer ← layer_of (at header 1 / 2 % 4)
  bitrate ← bitrate_of (at header 2 / 16)
  samplerate ← samplerate_of (at header 2 / 4 % 4)
  let kbps = kbps_of version layer bitrate
  let padding = at header 2 / 2 % 2
  ok (length_of version layer kbps (cell hz version samplerate) padding)

-- Every entry lies between two bounds.
abbrev within : ℕ → ℕ → List ℕ → Bool
within lo hi [] = true
within lo hi (k ∷ ks) = leb lo k && leb k hi && within lo hi ks

get_or-within :
    (lo hi : ℕ) (ks : List ℕ) (i : ℕ)
    → within lo hi ks ≡ true
    → i < length ks
    → (lo ≤ get_or ks i 0) × (get_or ks i 0 ≤ hi)
get_or-within lo hi [] i e h = absurd (omega arith)
get_or-within lo hi (k ∷ ks) zero e h = ground arith
get_or-within lo hi (k ∷ ks) (suc i) e h = ground (arith, get_or-within lo hi ks i)

abbrev Bounded : ℕ → ℕ → ℕ → Type 0
Bounded lo hi k = (lo ≤ k) × (k ≤ hi)

v1_bounds : (layer i : ℕ) → layer < 3 → i < 14 → Bounded 32 448 (cell v1_kbps layer i)
v1_bounds zero i l h = get_or-within 32 448 (get_or v1_kbps 0 []) i refl h
v1_bounds (suc zero) i l h = get_or-within 32 448 (get_or v1_kbps 1 []) i refl h
v1_bounds (suc (suc zero)) i l h = get_or-within 32 448 (get_or v1_kbps 2 []) i refl h
v1_bounds (suc (suc (suc layer))) i l h = absurd (omega arith)

v2_bounds : (layer i : ℕ) → layer < 2 → i < 14 → Bounded 8 256 (cell v2_kbps layer i)
v2_bounds zero i l h = get_or-within 8 256 (get_or v2_kbps 0 []) i refl h
v2_bounds (suc zero) i l h = get_or-within 8 256 (get_or v2_kbps 1 []) i refl h
v2_bounds (suc (suc layer)) i l h = absurd (omega arith)

rate_bounds :
    (version i : ℕ)
    → version < 3
    → i < 3
    → let rate = cell hz version i in
      ((version ≡ 0) × ((rate ≡ 44100) ⊎ (rate ≡ 48000) ⊎ (rate ≡ 32000)))
      ⊎ ((0 < version)
          × ((rate ≡ 22050)
              ⊎ (rate ≡ 24000)
              ⊎ (rate ≡ 16000)
              ⊎ (rate ≡ 11025)
              ⊎ (rate ≡ 12000)
              ⊎ (rate ≡ 8000)))
rate_bounds zero zero h k = ground arith
rate_bounds zero (suc zero) h k = ground arith
rate_bounds zero (suc (suc zero)) h k = ground arith
rate_bounds (suc zero) zero h k = ground arith
rate_bounds (suc zero) (suc zero) h k = ground arith
rate_bounds (suc zero) (suc (suc zero)) h k = ground arith
rate_bounds (suc (suc zero)) zero h k = ground arith
rate_bounds (suc (suc zero)) (suc zero) h k = ground arith
rate_bounds (suc (suc zero)) (suc (suc zero)) h k = ground arith
rate_bounds version (suc (suc (suc i))) h k = absurd (omega arith)
rate_bounds (suc (suc (suc version))) i h k = absurd (omega arith)

kbps_bounds :
    (version layer bitrate : ℕ)
    → layer < 3
    → 0 < bitrate
    → bitrate < 15
    → let k = kbps_of version layer bitrate in
      ((version ≡ 0) × Bounded 32 448 k) ⊎ ((0 < version) × Bounded 8 256 k)
unfolding kbps_of
kbps_bounds version layer bitrate l p b =
    ground
      (arith, v1_bounds layer (bitrate - 1), v2_bounds (if layer == 0 then 0 else 1) (bitrate - 1))

length_bounds :
    (version layer kbps rate padding : ℕ)
    → padding < 2
    → ((version ≡ 0) × Bounded 32 448 kbps) ⊎ ((0 < version) × Bounded 8 256 kbps)
    → ((version ≡ 0) × ((rate ≡ 44100) ⊎ (rate ≡ 48000) ⊎ (rate ≡ 32000)))
      ⊎ ((0 < version)
          × ((rate ≡ 22050)
              ⊎ (rate ≡ 24000)
              ⊎ (rate ≡ 16000)
              ⊎ (rate ≡ 11025)
              ⊎ (rate ≡ 12000)
              ⊎ (rate ≡ 8000)))
    → Bounded 4 8191 (length_of version layer kbps rate padding)
unfolding length_of
length_bounds version layer kbps rate padding p k r = ground arith

version_of-range : (bits : ℕ) → Ensures (λ v. v < 3) (version_of bits)
unfolding version_of
version_of-range bits = ground arith

layer_of-range : (bits : ℕ) → Ensures (λ l. l < 3) (layer_of bits)
unfolding layer_of
layer_of-range bits = ground arith

bitrate_of-range : (index : ℕ) → index < 16 → Ensures (λ b. (0 < b) × (b < 15)) (bitrate_of index)
unfolding bitrate_of
bitrate_of-range index h = ground arith

samplerate_of-range : (index : ℕ) → index < 4 → Ensures (λ r. r < 3) (samplerate_of index)
unfolding samplerate_of
samplerate_of-range index h = ground arith

-- Whatever the header, the length computed for its frame, where there is one, is at least 4, which is the
-- length of the header, and at most 8191.
pub frame_len-bounds : (header : Bytes) → Ensures (Bounded 4 8191) (frame_len header)
unfolding frame_len
frame_len-bounds header =
    let goal = Bounded 4 8191 in
    Ensures-bind (λ v. v < 3) goal _ _ (version_of-range (at header 1 / 8 % 4))
      (λ version v.
        Ensures-bind (λ l. l < 3) goal _ _ (layer_of-range (at header 1 / 2 % 4))
          (λ layer l.
            Ensures-bind (λ b. (0 < b) × (b < 15)) goal _ _
              (bitrate_of-range (at header 2 / 16) (omega arith))
              (λ bitrate b.
                Ensures-bind (λ r. r < 3) goal _ _
                  (samplerate_of-range (at header 2 / 4 % 4) (omega arith))
                  (λ samplerate r.
                    length_bounds version layer (kbps_of version layer bitrate)
                      (cell hz version samplerate) (at header 2 / 2 % 2) (omega arith)
                      (kbps_bounds version layer bitrate l b.0 b.1)
                      (rate_bounds version samplerate v r)))))
