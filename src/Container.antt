-- ===== src/Container.antt =====
-- The chunker that the chunker.rs of src/chunker/isobmff, matroska, zip and pdf and ber.rs of src/chunker/office
-- are: a walker that reports units, and the assembler that places the cuts. The walker is a parameter.
pub mod Laws
pub mod Rejection
pub mod Accepting
pub mod Stream
use async_chunker.Assembler
use async_chunker.Assembler.{BoundaryAssembler, boundary, take_unit_byte, clear}
use async_chunker.Errors.{ChunkError, profile_stream_rejected}
use async_chunker.Outcome.{Emission, Outcome, quiet, fails, feed}
use async_chunker.Prelude.{
  ℕ, Bool, true, false, Option, none, some, String, List, [], ◌∷◌, Bytes, if◌then◌else◌,
}
use async_chunker.Result.{Result, ok, err}

-- The operations of a walker, and how its faults are reported. `begins_unit` is asked before each byte;
-- `restart` is what the chunker's `finish` makes of the assembler that has sent everything.
pub record Format : Type 1 where
  pub Walker : Type 0
  pub Fault : Type 0
  pub start : Walker
  pub begins_unit : Walker → ℕ → Bool
  pub consume : Walker → ℕ → Walker × Result Fault (Option ℕ)
  pub check_end : Walker → Result Fault (Unit {0})
  pub offset : Walker → ℕ
  pub restart : BoundaryAssembler → BoundaryAssembler
  pub into_error : Fault → ℕ → ChunkError
  pub profile : String

pub record ContainerChunker (W : Type 0) : Type 0 where
  pub walker : W
  pub assembler : BoundaryAssembler
  pub rejected : Bool

module _ (f : Format) where
  abbrev pub C : Type 0
  C = ContainerChunker f.Walker

  unfoldable pub new : BoundaryAssembler → C
  new assembler = record { walker = f.start; assembler = assembler; rejected = false }

  -- `reject`, behind what was emitted before it.
  rejects : C → List Bytes → f.Fault → Outcome C
  unfolding clear
  rejects c emitted fault = record {
    state = record c { assembler = clear c.assembler; rejected = true };
    emitted = emitted;
    error = some (f.into_error fault (f.offset c.walker));
  }

  -- What follows the call of `consume`.
  settle : C → Bool → ℕ → f.Walker × Result f.Fault (Option ℕ) → Outcome C
  unfolding rejects take_unit_byte boundary
  settle c begins byte (walker, ok large) =
      let e = take_unit_byte begins large c.assembler byte in
      record {
        state = record c { walker = walker; assembler = e.state };
        emitted = e.emitted;
        error = none;
      }
  settle c begins byte (walker, err fault) =
      let e = if begins then boundary c.assembler else quiet c.assembler in
      rejects (record c { walker = walker; assembler = e.state }) e.emitted fault

  -- The body of the loop in `push`.
  pub push_byte : C → ℕ → Outcome C
  unfolding settle
  push_byte c byte = settle c (f.begins_unit c.walker byte) byte (f.consume c.walker byte)

  -- `guard()?`
  abbrev guarded : C → Outcome C → Outcome C
  guarded c o = if c.rejected then fails c (profile_stream_rejected f.profile) else o

  unfoldable pub push : C → Bytes → Outcome C
  unfolding push_byte feed
  push c window = guarded c (feed push_byte c window)

  pub end_with : C → Result f.Fault (Unit {0}) → Outcome C
  unfolding rejects Assembler.finish
  end_with c (ok _) =
      let e = Assembler.finish c.assembler in
      record {
        state = record c { walker = f.start; assembler = f.restart e.state };
        emitted = e.emitted;
        error = none;
      }
  end_with c (err fault) = rejects c [] fault

  unfoldable pub finish : C → Outcome C
  unfolding end_with
  finish c = guarded c (end_with c (f.check_end c.walker))
