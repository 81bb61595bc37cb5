-- ===== src/Tests/Ebml.antt =====
-- Runs of the EBML chunker.
use async_chunker.Chunker.{drive}
use async_chunker.Container
use async_chunker.Container.Rejection.{IsRejected, drive-IsRejected}
use async_chunker.Errors.{malformed_profile_input}
use async_chunker.Matroska.Chunker.{matroska_windows, matroska_rejection}
use async_chunker.Matroska.Chunker as Elements
use async_chunker.Prelude.{◌≡◌, ◌≢◌, refl, [], ◌∷◌, ◌++◌, none, some, Bytes, replicate}
use async_chunker.Matroska.Elements.{into_error}
use async_chunker.Matroska.Walker as Tags
use async_chunker.Matroska.Walker.Stack.{Stacked, after, containers_nest}
use async_chunker.Tests.{counting}

-- An EBML header with an empty payload, a segment of unknown size, and an empty element.
abbrev video : Bytes
video =
    0x1a ∷ 0x45 ∷ 0xdf ∷ 0xa3 ∷ 0x80 ∷ 0x18 ∷ 0x53 ∷ 0x80 ∷ 0x67 ∷ 0x01 ∷ replicate 7 0xff
    ++ 0xec ∷ 0x80 ∷ []

-- The same, cut within the segment's header.
abbrev cut_video : Bytes
cut_video = 0x1a ∷ 0x45 ∷ 0xdf ∷ 0xa3 ∷ 0x80 ∷ 0x18 ∷ 0x53 ∷ []

accepts_video : (drive Elements.push Elements.finish (Elements.new counting) video).error ≡ none
unfolding drive Container.new Container.push Container.finish Tags.consume Tags.new Tags.finish
accepts_video = refl

rejects_cut_video :
    (drive Elements.push Elements.finish (Elements.new counting) cut_video).error
    ≡ some (malformed_profile_input "matroska-v1" 7 "stream ends inside an element")
unfolding drive Container.new Container.push Container.finish Tags.consume Tags.new Tags.finish
    into_error
rejects_cut_video = refl

containers_nest_example :
    Stacked (after Tags.new cut_video).containers
    × ((after Tags.new cut_video).state ≢ Tags.payload 0)
containers_nest_example = containers_nest cut_video

drive-IsRejected_example :
    IsRejected Elements.format
      (drive
        (Container.push Elements.format)
        (Container.finish Elements.format)
        (Container.new Elements.format (Elements.assembler counting))
        cut_video).state
drive-IsRejected_example =
    drive-IsRejected Elements.format (Elements.assembler counting) (Elements.fresh counting)
      (λ a h. h) cut_video (malformed_profile_input "matroska-v1" 7 "stream ends inside an element")
      rejects_cut_video
