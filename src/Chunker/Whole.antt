-- ===== src/Chunker/Whole.antt =====
-- What follows of a whole stream from the laws of an implementation.
use async_chunker.Chunker.{ChunkerLaws, drive, push_each, drive_each}
use async_chunker.Outcome.{Outcome, and_then}
use async_chunker.Outcome.Contract.{Keeps, and_then-Keeps, and_then-cong}
use async_chunker.Prelude.{
  List, [], ◌∷◌, ◌++◌, ◌≡◌, sym, ap, ◌∙◌, none, Bytes, All, append-nil, flatten,
}

module _ {S : Type 0} (new : S) (push : S → Bytes → Outcome S) (finish : S → Outcome S)
    (Fits : Bytes → Type 0) (pending : S → Bytes) (Inv Fresh : S → Type 0)
    (laws : ChunkerLaws new push finish Fits pending Inv Fresh) where
  drive-Keeps :
      (bytes : Bytes) → Keeps Fits pending Fresh new (bytes ++ []) (drive push finish new bytes)
  unfolding drive
  drive-Keeps bytes =
      and_then-Keeps Fits pending Inv Fresh new bytes [] (push new bytes) finish
        (laws.push_keeps new bytes laws.initial) (λ i. laws.finish_keeps (push new bytes).state i)

  -- Every chunk fits; what is emitted is the stream if nothing failed and a prefix of it otherwise;
  -- and a stream that ended leaves a fresh state.
  pub record Chunked (bytes : Bytes) (o : Outcome S) : Type 0 where
    pub fits : All Fits o.emitted
    pub whole : o.error ≡ none → flatten o.emitted ≡ bytes
    pub reusable : o.error ≡ none → Fresh o.state
    pub unsent : Bytes
    pub is_prefix : flatten o.emitted ++ unsent ≡ bytes

  from_new : (bytes : Bytes) → pending new ++ (bytes ++ []) ≡ bytes
  from_new bytes =
      ap (λ (t : Bytes). t ++ (bytes ++ [])) (laws.empty new laws.fresh) ∙ append-nil bytes

  pub drive-Chunked : (bytes : Bytes) → Chunked bytes (drive push finish new bytes)
  drive-Chunked bytes = record {
    fits = (drive-Keeps bytes).fits;
    whole = λ e.
        let o = drive push finish new bytes in
        let k = drive-Keeps bytes in
        let at_end : pending o.state ≡ [] = laws.empty o.state (k.keeps e) in
        sym (append-nil (flatten o.emitted))
        ∙ ap (◌++◌ (flatten o.emitted)) (sym at_end)
        ∙ k.conserves e
        ∙ from_new bytes;
    reusable = (drive-Keeps bytes).keeps;
    unsent = (drive-Keeps bytes).unsent;
    is_prefix = (drive-Keeps bytes).is_prefix ∙ from_new bytes;
  }

  push_each-push :
      (ws : List Bytes) (s : S) → Inv s → push_each push finish s ws ≡ push s (flatten ws)
  unfolding push_each flatten
  push_each-push [] s i = sym (laws.push_nothing s i)
  push_each-push (w ∷ ws) s i =
      and_then-cong (push s w) (λ t. push_each push finish t ws) (λ t. push t (flatten ws))
        (λ e. push_each-push ws (push s w).state ((laws.push_keeps s w i).keeps e))
      ∙ sym (laws.push_windows s w (flatten ws) i)

  -- How the stream was cut into windows does not matter.
  pub drive_each-drive :
      (ws : List Bytes) → drive_each push finish new ws ≡ drive push finish new (flatten ws)
  unfolding drive_each drive
  drive_each-drive ws =
      ap (λ (o : Outcome S). and_then o finish) (push_each-push ws new laws.initial)
