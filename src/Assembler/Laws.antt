-- ===== src/Assembler/Laws.antt =====
-- The assembler loses, adds and reorders nothing, and every chunk it emits is non-empty and at most the
-- maximum long.
use async_chunker.Assembler.{
  BoundaryAssembler, Seam, sent, close_chunk, attach, fits_held, boundary, split, realign,
  large_unit_starts, cut_here, taken, push, finish, aligned, take_unit_byte, clear,
}
use async_chunker.Constants.{chunk_max}
use async_chunker.Gear.{reset, update_all}
use async_chunker.Gear.Window.{update_all-table}
use async_chunker.Outcome.{Emission, quiet}
use async_chunker.Outcome.Contract.{Sends, seq-Sends}
use async_chunker.Prelude.{
  ◌+◌, ◌-◌, ◌≤◌, ◌<◌, ◌≡◌, refl, sym, ap, ◌∙◌, ◌&&◌, not, leb, inl, inr, [], ◌∷◌, ◌++◌, false,
  arith, Bytes, length, is_empty, length-append, append-nil, append_assoc, Bool-cases, flatten, All,
  take, drop, take-append-drop, length-take, length-drop, ℕ, Bool, true, Option, none, some,
  if◌then◌else◌, All-append, flatten-append,
}

abbrev pub IsChunk : Bytes → Type 0
IsChunk chunk = (0 < length chunk) × (length chunk ≤ chunk_max)

-- The assembler with nothing collected. Its seam is overwritten before it is next read.
abbrev pub base : BoundaryAssembler → BoundaryAssembler
base a = record a { buffer = []; held = []; hash = reset a.hash; seam = Seam.no_seam }

-- Two chunks at most are in memory: one held, and less than a maximum chunk collected.
-- What no call but `set_gate` changes is as in the initial assembler `a₀`.
pub record Inv (a₀ a : BoundaryAssembler) : Type 0 where
  pub held_fits : length a.held ≤ chunk_max
  pub room : length a.buffer < chunk_max
  pub parameters : base a ≡ a₀

abbrev pub pending : BoundaryAssembler → Bytes
pending a = a.held ++ a.buffer

sent-IsChunk : (chunk : Bytes) → length chunk ≤ chunk_max → All IsChunk (sent chunk)
sent-IsChunk [] h = tt
sent-IsChunk (b ∷ bs) h = ((omega arith, h), tt)

flatten-sent : (chunk : Bytes) → flatten (sent chunk) ≡ chunk
unfolding flatten
flatten-sent [] = refl
flatten-sent (b ∷ bs) = append-nil (b ∷ bs)

-- As good as the initial assembler.
pub record Fresh (a₀ a : BoundaryAssembler) : Type 0 where
  pub no_held : a.held ≡ []
  pub no_buffer : a.buffer ≡ []
  pub as_new : base a ≡ a₀

stay_room : (a : BoundaryAssembler) → cut_here a ≡ false → length a.buffer < chunk_max
unfolding cut_here
stay_room a e = ground arith

module _ {a₀ : BoundaryAssembler} where
  -- Closing a chunk of any length up to the maximum.
  pub close_chunk-Good :
      (a : BoundaryAssembler)
      → length a.held ≤ chunk_max
      → length a.buffer ≤ chunk_max
      → base a ≡ a₀
      → Sends IsChunk pending (Inv a₀) a [] (close_chunk a)
  unfolding close_chunk
  close_chunk-Good a h b p = record {
    fits = sent-IsChunk a.held h;
    keeps = record { held_fits = b; room = omega arith; parameters = p };
    conserves =
        ap (λ (t : Bytes). t ++ (a.buffer ++ [])) (flatten-sent a.held)
        ∙ sym (append_assoc a.held a.buffer []);
  }

  -- Nothing is emitted, and the bytes kept are those kept before.
  still-Good :
      (a b : BoundaryAssembler)
      → pending b ≡ pending a
      → Inv a₀ b
      → Sends IsChunk pending (Inv a₀) a [] (quiet b)
  unfolding flatten
  still-Good a b e i = record { fits = tt; keeps = i; conserves = e ∙ sym (append-nil (pending a)) }

  pub boundary-Good :
      (a : BoundaryAssembler) → Inv a₀ a → Sends IsChunk pending (Inv a₀) a [] (boundary a)
  unfolding boundary
  boundary-Good a i = elim (Bool-cases (leb a.unit_min (length a.buffer))) [
    | inl full ↦
        rw full (let r = i.room in close_chunk-Good a i.held_fits (omega arith) i.parameters)
    | inr small ↦
        rw small
          (elim (Bool-cases (
            not (is_empty a.held)
            && not (is_empty a.buffer)
            && leb (length a.held + length a.buffer) chunk_max)) [
              | inl joins ↦ rw joins (
                  still-Good a (record (attach a) { hash = reset a.hash })
                    (append-nil (a.held ++ a.buffer))
                    (record {
                      held_fits = ground (arith, length-append {0} a.held a.buffer);
                      room = omega arith;
                      parameters = i.parameters;
                    }))
              | inr apart ↦ rw apart (still-Good a a refl i)
            ])
  ]

  -- A byte taken, and then nothing more.
  from_taken :
      (a : BoundaryAssembler) (b : ℕ) (e : Emission BoundaryAssembler)
      → Sends IsChunk pending (Inv a₀) (taken a b) [] e
      → Sends IsChunk pending (Inv a₀) a (b ∷ []) e
  from_taken a b e g = record {
    fits = g.fits;
    keeps = g.keeps;
    conserves =
        g.conserves
        ∙ append-nil (a.held ++ (a.buffer ++ b ∷ []))
        ∙ sym (append_assoc a.held a.buffer (b ∷ []));
  }

  pub push-Good :
      (a : BoundaryAssembler) (b : ℕ)
      → Inv a₀ a
      → Sends IsChunk pending (Inv a₀) a (b ∷ []) (push a b)
  unfolding push
  push-Good a b i = elim (Bool-cases (cut_here (taken a b))) [
    | inl cut ↦ rw cut (
        from_taken a b (close_chunk (taken a b)) (
          close_chunk-Good (taken a b) i.held_fits
            (let r = i.room in omega (arith, length-append {0} a.buffer (b ∷ []))) i.parameters))
    | inr stay ↦ rw stay (
        from_taken a b (quiet (taken a b)) (
          still-Good (taken a b) (taken a b) refl (record {
            held_fits = i.held_fits;
            room = stay_room (taken a b) stay;
            parameters = i.parameters;
          })))
  ]

  realigned :
      (header : Bytes) (a : BoundaryAssembler)
      → base a ≡ a₀
      → base (record a { hash = update_all (reset a.hash) header }) ≡ a₀
  realigned header a e =
      ap (λ (t : ℕ → ℕ). record (base a) { hash = record { table = t; hash = 0 } })
        (update_all-table (reset a.hash) header)
      ∙ e

  realign-Good :
      (header : Bytes) (a : BoundaryAssembler)
      → Inv a₀ a
      → length header < chunk_max
      → Sends IsChunk pending (Inv a₀) a header (realign header a)
  unfolding realign close_chunk flatten
  realign-Good header a i h = elim (Bool-cases (fits_held a)) [
    | inl joins ↦ rw joins (record {
      fits = tt;
      keeps = record {
        held_fits = ground (arith, length-append {0} a.held a.buffer);
        room = h;
        parameters = realigned header a i.parameters;
      };
      conserves = refl;
    })
    | inr apart ↦ rw apart (record {
      fits = sent-IsChunk a.held i.held_fits;
      keeps = record {
        held_fits = let r = i.room in omega arith;
        room = h;
        parameters = realigned header a i.parameters;
      };
      conserves =
          ap (λ (t : Bytes). t ++ (a.buffer ++ header)) (flatten-sent a.held)
          ∙ sym (append_assoc a.held a.buffer header);
    })
  ]

  pub large_unit_starts-Good :
      (a : BoundaryAssembler) (header_len : ℕ)
      → Inv a₀ a
      → Sends IsChunk pending (Inv a₀) a [] (large_unit_starts a header_len)
  unfolding large_unit_starts
  large_unit_starts-Good a header_len i = elim (Bool-cases (leb (length a.buffer) header_len)) [
    | inl starts ↦ rw starts (still-Good a a refl i)
    | inr inside ↦ rw inside (
        let n = length a.buffer - header_len in
        let header = drop n a.buffer in
        let r = i.room in
        let g =
          realign-Good header (split a header_len)
            (record {
              held_fits = i.held_fits;
              room = omega (arith, length-take n a.buffer (omega arith));
              parameters = i.parameters;
            })
            (omega (arith, length-drop n a.buffer)) in
        record {
          fits = g.fits;
          keeps = g.keeps;
          conserves =
              g.conserves
              ∙ append_assoc a.held (take n a.buffer) header
              ∙ ap (◌++◌ a.held) (take-append-drop n a.buffer)
              ∙ sym (append-nil (a.held ++ a.buffer));
        })
  ]

  -- At the end everything held is sent.
  pub finish-Good :
      (a : BoundaryAssembler) → Inv a₀ a → Sends IsChunk pending (Fresh a₀) a [] (finish a)
  unfolding finish
  finish-Good a i = record {
    fits =
        All-append IsChunk (sent a.held) (sent a.buffer) (sent-IsChunk a.held i.held_fits)
          (sent-IsChunk a.buffer (let r = i.room in omega arith));
    keeps = record { no_held = refl; no_buffer = refl; as_new = i.parameters };
    conserves =
        rw
          (flatten-append (sent a.held) (sent a.buffer), flatten-sent a.held, flatten-sent a.buffer)
          refl;
  }

  aligned-Good :
      (large : Option ℕ) (a : BoundaryAssembler)
      → Inv a₀ a
      → Sends IsChunk pending (Inv a₀) a [] (aligned large a)
  unfolding aligned
  aligned-Good none a i = still-Good a a refl i
  aligned-Good (some n) a i = large_unit_starts-Good a n i

  pub begins-Good :
      (begins : Bool) (a : BoundaryAssembler)
      → Inv a₀ a
      → Sends IsChunk pending (Inv a₀) a [] (if begins then boundary a else quiet a)
  begins-Good true a i = boundary-Good a i
  begins-Good false a i = still-Good a a refl i

  -- The calls around one byte of a container, from any state that a container chunker reaches: every
  -- chunk sent is non-empty and at most the maximum long, the chunks with what is then held are what
  -- was held and the byte, and the state is again one with at most a maximum chunk held and less than
  -- that collected.
  pub take_unit_byte-Good :
      (begins : Bool) (large : Option ℕ) (a : BoundaryAssembler) (b : ℕ)
      → Inv a₀ a
      → Sends IsChunk pending (Inv a₀) a (b ∷ []) (take_unit_byte begins large a b)
  unfolding take_unit_byte
  take_unit_byte-Good begins large a b i =
      seq-Sends IsChunk pending (Inv a₀) a [] (b ∷ []) _ _ (begins-Good begins a i) (λ c j.
        seq-Sends IsChunk pending (Inv a₀) c (b ∷ []) [] _ _ (push-Good c b j)
          (λ d k. aligned-Good large d k))

  pub clear-Inv : (a : BoundaryAssembler) → base a ≡ a₀ → Inv a₀ (clear a)
  unfolding clear
  clear-Inv a e = record { held_fits = omega arith; room = omega arith; parameters = e }
