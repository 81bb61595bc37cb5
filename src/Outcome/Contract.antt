-- ===== src/Outcome/Contract.antt =====
-- The contract that a boundary detector keeps from call to call: the chunks it emits, with the bytes
-- it still holds, are the bytes that it was given.
use mathlib.Core.Path.{subst}
use async_chunker.Prelude.{
  ℕ, List, [], ◌∷◌, ◌++◌, ◌≡◌, refl, sym, ap, ◌∙◌, inl, inr, none, some, Bytes, All, All-append,
  All-map, append_assoc, append-nil, flatten, flatten-append, Option-cases,
}
use async_chunker.Errors.{ChunkError}
use async_chunker.Outcome.Feed.{and_then-ok, and_then-err}
use async_chunker.Outcome.{Emission, Outcome, and_then, after, feed, seq}

pub and_then-cong {ℓ} :
    {S : Type ℓ} (o : Outcome S) (f g : S → Outcome S)
    → (o.error ≡ none → f o.state ≡ g o.state)
    → and_then o f ≡ and_then o g
and_then-cong o f g h = elim (Option-cases (o.error)) [
  | inl e ↦ and_then-ok o f e ∙ ap (after o.emitted) (h e) ∙ sym (and_then-ok o g e)
  | inr (x, e) ↦ and_then-err o f x e ∙ sym (and_then-err o g x e)
]

-- A loop whose body never fails does not fail.
pub feed-succeeds {ℓ} :
    {S : Type ℓ} (step : S → ℕ → Outcome S)
    → ((s : S) (b : ℕ) → (step s b).error ≡ none)
    → (s : S) (bs : Bytes) → (feed step s bs).error ≡ none
unfolding feed
feed-succeeds step ok s [] = refl
feed-succeeds step ok s (b ∷ bs) =
    rw (and_then-ok (step s b) (λ t. feed step t bs) (ok s b))
      (feed-succeeds step ok (step s b).state bs)

-- `Fits` is what an emitted chunk satisfies, `pending` the bytes that a state holds back, and `Inv`
-- what holds of the state that a successful call leaves.
pub record Keeps {ℓ} {S : Type ℓ} (Fits : Bytes → Type 0) (pending : S → Bytes) (Inv : S → Type 0)
    (s : S) (input : Bytes) (o : Outcome S) : Type ℓ where
  pub fits : All Fits o.emitted
  pub keeps : o.error ≡ none → Inv o.state
  pub conserves : o.error ≡ none → flatten o.emitted ++ pending o.state ≡ pending s ++ input
  -- What is not emitted, also where the call failed.
  pub unsent : Bytes
  pub is_prefix : flatten o.emitted ++ unsent ≡ pending s ++ input

flatten_onto :
    (xss yss : List Bytes) (rest mid s ys : Bytes)
    → flatten yss ++ rest ≡ mid ++ ys
    → flatten xss ++ mid ≡ s
    → flatten (xss ++ yss) ++ rest ≡ s ++ ys
flatten_onto xss yss rest mid s ys p q =
    ap (λ (t : Bytes). t ++ rest) (flatten-append xss yss)
    ∙ append_assoc (flatten xss) (flatten yss) rest
    ∙ ap (◌++◌ (flatten xss)) p
    ∙ sym (append_assoc (flatten xss) mid ys)
    ∙ ap (λ (t : Bytes). t ++ ys) q

module _ {ℓ} {S : Type ℓ} (Fits : Bytes → Type 0) (pending : S → Bytes)
    (Inv Inv' : S → Type 0) where
  after-Keeps :
      (s : S) (xs ys : Bytes) (o : Outcome S)
      → Keeps Fits pending Inv s xs o
      → (p : Outcome S) → o.error ≡ none
      → Keeps Fits pending Inv' o.state ys p
      → Keeps Fits pending Inv' s (xs ++ ys) (after o.emitted p)
  after-Keeps s xs ys o a p e b = record {
    fits = All-append Fits o.emitted p.emitted a.fits b.fits;
    keeps = b.keeps;
    conserves = λ f.
        flatten_onto o.emitted p.emitted (pending p.state) (pending o.state) (pending s ++ xs) ys
          (b.conserves f) (a.conserves e)
        ∙ append_assoc (pending s) xs ys;
    unsent = b.unsent;
    is_prefix =
        flatten_onto o.emitted p.emitted b.unsent (pending o.state) (pending s ++ xs) ys b.is_prefix
          (a.conserves e)
        ∙ append_assoc (pending s) xs ys;
  }

  -- After an error the rest of the input is not read.
  longer-Keeps :
      (s : S) (xs ys : Bytes) (o : Outcome S) (f : ChunkError)
      → Keeps Fits pending Inv s xs o
      → o.error ≡ some f
      → Keeps Fits pending Inv' s (xs ++ ys) o
  longer-Keeps s xs ys o f a e = record {
    fits = a.fits;
    keeps = λ g. cc;
    conserves = λ g. cc;
    unsent = a.unsent ++ ys;
    is_prefix =
        sym (append_assoc (flatten o.emitted) a.unsent ys)
        ∙ ap (λ (t : Bytes). t ++ ys) a.is_prefix
        ∙ append_assoc (pending s) xs ys;
  }

  pub and_then-Keeps :
      (s : S) (xs ys : Bytes) (o : Outcome S) (k : S → Outcome S)
      → Keeps Fits pending Inv s xs o
      → (Inv o.state → Keeps Fits pending Inv' o.state ys (k o.state))
      → Keeps Fits pending Inv' s (xs ++ ys) (and_then o k)
  and_then-Keeps s xs ys o k a b = elim (Option-cases (o.error)) [
    | inl e ↦
        subst (Keeps Fits pending Inv' s (xs ++ ys)) (sym (and_then-ok o k e))
          (after-Keeps s xs ys o a (k o.state) e (b (a.keeps e)))
    | inr (f, e) ↦
        subst (Keeps Fits pending Inv' s (xs ++ ys)) (sym (and_then-err o k f e))
          (longer-Keeps s xs ys o f a e)
  ]

module _ {ℓ} {S : Type ℓ} (Fits : Bytes → Type 0) (pending : S → Bytes) (Inv : S → Type 0) where
  pub feed-Keeps :
      (step : S → ℕ → Outcome S)
      → ((s : S) (b : ℕ) → Inv s → Keeps Fits pending Inv s (b ∷ []) (step s b))
      → (s : S) (bs : Bytes) → Inv s
      → Keeps Fits pending Inv s bs (feed step s bs)
  unfolding feed flatten
  feed-Keeps step each s [] i = record {
    fits = tt;
    keeps = λ _. i;
    conserves = λ _. sym (append-nil (pending s));
    unsent = pending s;
    is_prefix = sym (append-nil (pending s));
  }
  feed-Keeps step each s (b ∷ bs) i =
      and_then-Keeps Fits pending Inv Inv s (b ∷ []) bs (step s b) (λ t. feed step t bs)
        (each s b i) (λ j. feed-Keeps step each (step s b).state bs j)

  -- A weaker claim of each chunk.
  pub Keeps-weaken :
      (Fits' : Bytes → Type 0) (s : S) (xs : Bytes) (o : Outcome S)
      → ((chunk : Bytes) → Fits chunk → Fits' chunk)
      → Keeps Fits pending Inv s xs o
      → Keeps Fits' pending Inv s xs o
  Keeps-weaken Fits' s xs o w a = record {
    fits = All-map Fits Fits' w o.emitted a.fits;
    keeps = a.keeps;
    conserves = a.conserves;
    unsent = a.unsent;
    is_prefix = a.is_prefix;
  }

-- The same contract for a method that cannot fail.
pub record Sends {S : Type 0} (Fits : Bytes → Type 0) (pending : S → Bytes) (Inv : S → Type 0)
    (s : S) (input : Bytes) (e : Emission S) : Type 0 where
  pub fits : All Fits e.emitted
  pub keeps : Inv e.state
  pub conserves : flatten e.emitted ++ pending e.state ≡ pending s ++ input

module _ {S : Type 0} (Fits : Bytes → Type 0) (pending : S → Bytes) (Inv : S → Type 0) where
  pub seq-Sends :
      (s : S) (xs ys : Bytes) (e : Emission S) (k : S → Emission S)
      → Sends Fits pending Inv s xs e
      → ((t : S) → Inv t → Sends Fits pending Inv t ys (k t))
      → Sends Fits pending Inv s (xs ++ ys) (seq e k)
  unfolding seq
  seq-Sends s xs ys e k a b =
      let c = b e.state a.keeps in
      record {
        fits = All-append Fits e.emitted (k e.state).emitted a.fits c.fits;
        keeps = c.keeps;
        conserves =
            flatten_onto e.emitted (k e.state).emitted (pending (k e.state).state) (pending e.state)
              (pending s ++ xs) ys c.conserves a.conserves
            ∙ append_assoc (pending s) xs ys;
      }
