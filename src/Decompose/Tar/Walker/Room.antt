-- ===== src/Decompose/Tar/Walker/Room.antt =====
-- The room of each state, and that closing a header keeps to it.
use async_chunker.Decompose.Fault.{OpaqueReason}
use async_chunker.Decompose.Tar.Fields.{block_len, field, parse_octal, checksum_matches}
use async_chunker.Decompose.Tar.Pax.{W}
use async_chunker.Decompose.Tar.Pax.Names.{Fits, Pending}
use async_chunker.Decompose.Tar.Walker.{
  override_max, TarKind, is_regular, TarEntry, TarEvent, OverrideKind, pax_next, pax_global,
  gnu_name, gnu_link, State, header, first_zero, ended, payload, override_data, TarWalker,
  header_byte, close_header, real_header, by_type, begin_override, build_entry, enter, padding_of,
  kind_of, all_zero, is_first_zero,
}
use async_chunker.Prelude.{
  ℕ, ◌+◌, ◌≤◌, ◌<◌, ◌≡◌, refl, Option, none, some, [], ◌∷◌, ◌++◌, arith, length, Bytes, ◌==◌, ◌||◌,
  get_or, ltb, not, ◌&&◌, if_cases,
}
use async_chunker.Result.{ok, err, Ensures, Ensures-bind, ok_or, ◌>>=◌}

-- The counters of a state, and how much may be buffered in it.
abbrev pub Room : State → ℕ → Type 0
Room (payload remaining padding) buffered =
    (0 < remaining + padding) × (padding < block_len) × (buffered ≡ 0)
Room (override_data remaining padding kind) buffered =
    (0 < remaining + padding) × (padding < block_len) × (buffered ≤ override_max)
Room header buffered = buffered ≡ 0
Room first_zero buffered = buffered ≡ 0
Room ended buffered = buffered ≡ 0

abbrev pub InRoom : TarWalker → Type 0
InRoom w =
    (length w.block < block_len)
    × Fits override_max w.overrides.path
    × Fits override_max w.overrides.link
    × Room w.state (length w.overrides.buffer)

-- What holds of the walker where a header is closed.
abbrev Ready : TarWalker → Type 0
Ready w = (length w.block < block_len) × Pending override_max w.overrides

unfoldable pub Safe : TarWalker × TarEvent → Type 0
Safe r = InRoom r.0

padding_small : (size : ℕ) → padding_of size < block_len
padding_small size = omega arith

begin_override-InRoom :
    (w : TarWalker) (size : ℕ) (kind : OverrideKind)
    → Ready w
    → InRoom (begin_override w size (padding_of size) kind)
unfolding begin_override
begin_override-InRoom w size kind (block, (path, link, buffer)) = (
  block,
  path,
  link,
  if_cases (λ (s : State). Room s 0) (size == 0) _ _ (λ _. refl)
      (λ e. (ground arith, padding_small size, omega arith)),
)

Fresh : TarWalker × TarEntry → Type 0
Fresh r = Ready r.0

anyway : {A : Type 0} (r : W A) → Ensures {0} (λ _. Unit {0}) r
anyway (ok a) = tt
anyway (err fault) = tt

build_entry-Fresh :
    (w : TarWalker) (block : Bytes) (typeflag size : ℕ)
    → Ready w
    → Ensures Fresh (build_entry w block typeflag size)
unfolding build_entry Fresh
build_entry-Fresh w block typeflag size (fits, (path, link, buffer)) =
    Ensures-bind (λ (kind : TarKind). Unit {0}) Fresh (ok_or (kind_of typeflag _) _) _
      (anyway (ok_or (kind_of typeflag _) _)) (λ kind k. (fits, (tt, tt, buffer)))

enter-Safe :
    (w : TarWalker) (e : TarEntry) (size : ℕ)
    → Ready w
    → Ensures Safe (enter w e size (padding_of size))
unfolding enter Safe
enter-Safe w e size (block, (path, link, buffer)) =
    if_cases (Ensures Safe) (is_regular e.kind && ltb 0 e.size) _ _
      (λ here. (block, path, link, (ground arith, padding_small size, buffer)))
      (λ _.
        if_cases (Ensures Safe) (ltb 0 size && not (is_regular e.kind)) _ _ (λ _. tt)
          (λ _. (block, path, link, buffer)))

by_type-Safe :
    (w : TarWalker) (block : Bytes) (typeflag size : ℕ)
    → Ready w
    → Ensures Safe (by_type w block typeflag size (padding_of size))
unfolding by_type Safe Fresh
by_type-Safe w block typeflag size h =
    let overrides = λ (kind : OverrideKind). begin_override-InRoom w size kind h in
    if_cases (Ensures Safe) (typeflag == b'x' || typeflag == b'X') _ _ (λ _. overrides pax_next)
      (λ _.
        if_cases (Ensures Safe) (typeflag == b'g') _ _ (λ _. overrides pax_global)
          (λ _.
            if_cases (Ensures Safe) (typeflag == b'L') _ _ (λ _. overrides gnu_name)
              (λ _.
                if_cases (Ensures Safe) (typeflag == b'K') _ _ (λ _. overrides gnu_link)
                  (λ _.
                    if_cases (Ensures Safe) (typeflag == b'S') _ _ (λ _. tt)
                      (λ _.
                        Ensures-bind Fresh Safe (build_entry w block typeflag size)
                          (λ r. enter r.0 r.1 size (padding_of size))
                          (build_entry-Fresh w block typeflag size h)
                          (λ r k. enter-Safe r.0 r.1 size k))))))

sized-Safe :
    (w : TarWalker) (block : Bytes) (typeflag : ℕ) (size : Option ℕ) (fault : OpaqueReason)
    → Ready w
    → Ensures Safe (ok_or size fault >>= λ n. by_type w block typeflag n (padding_of n))
sized-Safe w block typeflag none fault h = tt
sized-Safe w block typeflag (some n) fault h = by_type-Safe w block typeflag n h

real_header-Safe : (w : TarWalker) (block : Bytes) → Ready w → Ensures Safe (real_header w block)
unfolding real_header Safe
real_header-Safe w block h =
    if_cases (Ensures Safe) (checksum_matches block) _ _
      (λ _. sized-Safe w block (get_or block 156 0) (parse_octal (field block 124 136)) _ h)
      (λ _. tt)

close_header-Safe : (w : TarWalker) (block : Bytes) → Ready w → Ensures Safe (close_header w block)
unfolding close_header Safe
close_header-Safe w block h =
    let (path, link, buffer) = h.1 in
    if_cases (Ensures Safe) (all_zero block) _ _
      (λ _.
        if_cases (Ensures Safe) (is_first_zero w.state) _ _ (λ _. (h.0, path, link, buffer))
          (λ _. (h.0, path, link, buffer)))
      (λ _.
        if_cases (Ensures Safe) (is_first_zero w.state) _ _ (λ _. tt)
          (λ _. real_header-Safe w block h))

pub header_byte-Safe :
    (w : TarWalker) (b : ℕ)
    → InRoom w
    → length w.overrides.buffer ≡ 0
    → Ensures Safe (header_byte w b)
unfolding header_byte Safe
header_byte-Safe w b (fits, path, link, room) e =
    let block = w.block ++ b ∷ [] in
    if_cases (Ensures Safe) (ltb (length block) block_len) _ _
      (λ short. (ground (arith, short), path, link, room))
      (λ _. close_header-Safe (record w { block = [] }) block (omega arith, (path, link, e)))
