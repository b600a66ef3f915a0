-- ===== src/IsoTp/Isolation.antt =====
-- The reassembler keeps its sources apart: what it answers to one source depends on the frames of
-- that source alone, however the frames of others are interleaved with them.
use canopen_studio.Prelude.{
  ℕ, ◌≡◌, ◌≢◌, refl, ap, ap₂, ◌∙◌, Option, none, some, List, [], ◌∷◌, Result, inl, inr, arith, ◌==◌,
  Bool-cases, ==_iff, ==-refl, if◌then◌else◌,
}
use canopen_studio.IsoTp.Reassembly.{
  CanFrame, Reassembler, Manager, FeedResult, FeedError, manage, start, continue, lookup, insert,
  remove, feed,
}

pub lookup-remove :
    (k j : ℕ) (m : List (ℕ × Reassembler))
    → lookup j (remove k m) ≡ (if k == j then none else lookup j m)
unfolding lookup remove
lookup-remove k j [] = ground arith
lookup-remove k j ((i, r) ∷ m) = ground (arith, lookup-remove k j m)

pub lookup-insert :
    (k j : ℕ) (r : Reassembler) (m : List (ℕ × Reassembler))
    → lookup j (insert k r m) ≡ (if k == j then some r else lookup j m)
unfolding lookup insert
lookup-insert k j r m = ground (arith, lookup-remove k j m)

pub lookup-insert_self :
    (k : ℕ) (r : Reassembler) (m : List (ℕ × Reassembler)) → lookup k (insert k r m) ≡ some r
lookup-insert_self k r m = lookup-insert k k r m ∙ rw ==-refl

start-lookup_ne :
    (m : Manager) (frame : CanFrame) (t : ℕ)
    → frame.id ≢ t
    → lookup t (start m frame).0.transfers ≡ lookup t m.transfers
unfolding start
start-lookup_ne m frame t h = grind (arith, lookup-remove, lookup-insert)

continue-lookup_ne :
    (m : Manager) (frame : CanFrame) (o : Option Reassembler) (t : ℕ)
    → frame.id ≢ t
    → lookup t (continue m frame o).0.transfers ≡ lookup t m.transfers
unfolding continue
continue-lookup_ne m frame none t h = refl
continue-lookup_ne m frame (some r) t h = grind (arith, lookup-remove, lookup-insert)

manage-lookup_ne :
    (m : Manager) (frame : CanFrame) (t : ℕ)
    → frame.id ≢ t
    → lookup t (manage m frame).0.transfers ≡ lookup t m.transfers
unfolding manage
manage-lookup_ne m frame t h = ground (
  arith,
  start-lookup_ne m frame t h,
  continue-lookup_ne m frame (lookup frame.id m.transfers) t h,
)

-- A frame of one source leaves the transfers of every other source alone.
pub feed-lookup_ne :
    (m : Manager) (s t : ℕ) (bytes : List ℕ)
    → s ≢ t
    → lookup t (feed m s bytes).0.transfers ≡ lookup t m.transfers
unfolding feed
feed-lookup_ne m s t bytes h =
    ground (arith, manage-lookup_ne m (record { id = s; payload = bytes }) t h)

start_agree :
    (m m' : Manager) (frame : CanFrame)
    → lookup frame.id m.transfers ≡ lookup frame.id m'.transfers
    → ((start m frame).1 ≡ (start m' frame).1)
      × (lookup frame.id (start m frame).0.transfers ≡ lookup frame.id (start m' frame).0.transfers)
unfolding start
start_agree m m' frame h = grind (arith, lookup-insert)

continue_agree :
    (m m' : Manager) (frame : CanFrame) (o : Option Reassembler)
    → lookup frame.id m.transfers ≡ lookup frame.id m'.transfers
    → ((continue m frame o).1 ≡ (continue m' frame o).1)
      × (lookup frame.id (continue m frame o).0.transfers
          ≡ lookup frame.id (continue m' frame o).0.transfers)
unfolding continue
continue_agree m m' frame none h = (refl, h)
continue_agree m m' frame (some r) h = grind (arith, lookup-remove, lookup-insert)

manage_agree :
    (m m' : Manager) (frame : CanFrame)
    → lookup frame.id m.transfers ≡ lookup frame.id m'.transfers
    → ((manage m frame).1 ≡ (manage m' frame).1)
      × (lookup frame.id (manage m frame).0.transfers
          ≡ lookup frame.id (manage m' frame).0.transfers)
unfolding manage
manage_agree m m' frame h = rw h (
    ground
      (arith, start_agree m m' frame h, continue_agree m m' frame (lookup frame.id m'.transfers) h))

-- The answer, and what is kept for the source, depend on what was kept for the source.
feed_agree :
    (m m' : Manager) (s : ℕ) (bytes : List ℕ)
    → lookup s m.transfers ≡ lookup s m'.transfers
    → ((feed m s bytes).1 ≡ (feed m' s bytes).1)
      × (lookup s (feed m s bytes).0.transfers ≡ lookup s (feed m' s bytes).0.transfers)
unfolding feed
feed_agree m m' s bytes h = ground (arith, manage_agree m m' (record { id = s; payload = bytes }) h)

-- The answers to a sequence of frames, each with its source.
pub answers : Manager → List (ℕ × List ℕ) → List (ℕ × Result FeedError FeedResult)
answers m [] = []
answers m ((s, bytes) ∷ events) = let (m', r) = feed m s bytes in (s, r) ∷ answers m' events

-- The answers to the frames of one source.
pub answers_to : Manager → ℕ → List (List ℕ) → List (Result FeedError FeedResult)
answers_to m s [] = []
answers_to m s (bytes ∷ frames) = let (m', r) = feed m s bytes in r ∷ answers_to m' s frames

pub answers_to-nil : (m : Manager) (s : ℕ) → answers_to m s [] ≡ []
unfolding answers_to
answers_to-nil m s = refl

pub answers_to-cons :
    (m : Manager) (s : ℕ) (bytes : List ℕ) (frames : List (List ℕ)) {m' : Manager}
    {r : Result FeedError FeedResult}
    → feed m s bytes ≡ (m', r)
    → answers_to m s (bytes ∷ frames) ≡ r ∷ answers_to m' s frames
unfolding answers_to
answers_to-cons m s bytes frames h = rw h

unfoldable pub of_source {ℓ} : {A : Type ℓ} → ℕ → List (ℕ × A) → List A
of_source s [] = []
of_source s ((t, a) ∷ events) = let rest = of_source s events in if t == s then a ∷ rest else rest

answers_to_agree :
    (m m' : Manager) (s : ℕ) (frames : List (List ℕ))
    → lookup s m.transfers ≡ lookup s m'.transfers
    → answers_to m s frames ≡ answers_to m' s frames
unfolding answers_to
answers_to_agree m m' s [] h = refl
answers_to_agree m m' s (bytes ∷ frames) h =
    let (same, kept) = feed_agree m m' s bytes h in
    ap₂ ◌∷◌ same (answers_to_agree (feed m s bytes).0 (feed m' s bytes).0 s frames kept)

-- Whatever frames of other sources stand between them, the frames of one source get the answers
-- that they get when they are fed alone.
pub answers-interleaved :
    (m : Manager) (s : ℕ) (events : List (ℕ × List ℕ))
    → of_source s (answers m events) ≡ answers_to m s (of_source s events)
unfolding answers answers_to of_source
answers-interleaved m s [] = refl
answers-interleaved m s ((t, bytes) ∷ events) = elim (Bool-cases (t == s)) [
  | inl e ↦
      rw (e, (==_iff t s).0 e)
        (ap (λ rs. (feed m s bytes).1 ∷ rs) (answers-interleaved (feed m s bytes).0 s events))
  | inr e ↦ rw e (
      answers-interleaved (feed m t bytes).0 s events
      ∙ answers_to_agree (feed m t bytes).0 m s (of_source s events)
          (feed-lookup_ne m t s bytes (λ p. cc (e, (==_iff t s).1 p))))
]
