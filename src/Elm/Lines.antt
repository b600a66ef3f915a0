-- ===== src/Elm/Lines.antt =====
-- The lines of a reply are data.
use canopen_studio.Prelude.{
  ℕ, ◌≡◌, refl, false, not, ◌&&◌, Option, none, some, List, [], ◌∷◌, ◌++◌, All, Bool-cases, inl,
  inr, length,
}
use canopen_studio.Prelude.Text.{codes, strip, text_eq}
use canopen_studio.Elm.{
  ElmReply, take_line, take_pieces, clean_reply, pieces_of, filed, match_status, any_opens, chatter,
  occurs, squeeze, uppercase, is_nil, without_blanks, drop_searching,
}

-- A line that is not blank, holds no status word and is no chatter.
abbrev pub IsData : List ℕ → Type 0
IsData line =
    (is_nil line ≡ false)
    × (match_status (squeeze (uppercase line)) ≡ none)
    × ((any_opens chatter (squeeze (uppercase line))
          && not (occurs (codes "ERROR") (squeeze (uppercase line))))
        ≡ false)

All-snoc :
    (lines : List (List ℕ)) (line : List ℕ)
    → All IsData lines
    → IsData line
    → All IsData (lines ++ (line ∷ []))
All-snoc [] line h d = (d, tt)
All-snoc (l ∷ lines) line (h, hs) d = (h, All-snoc lines line hs d)

filed-IsData :
    (o : Option (List ℕ)) (text : List ℕ) (reply : ElmReply)
    → All IsData reply.lines
    → (o ≡ none → IsData text)
    → All IsData (filed o text reply).lines
filed-IsData (some word) text reply h d = h
filed-IsData none text reply h d = All-snoc reply.lines text h (d refl)

take_line-IsData :
    (command text : List ℕ) (reply : ElmReply)
    → All IsData reply.lines
    → All IsData (take_line command text reply).lines
unfolding take_line
take_line-IsData command text reply h =
    let capitals = squeeze (uppercase text) in
    elim (Bool-cases (is_nil text)) [
      | inl e ↦ rw e h
      | inr e1 ↦
          elim (Bool-cases (text_eq (without_blanks capitals) command && is_nil reply.lines)) [
            | inl e ↦ rw (e1, e) h
            | inr e2 ↦
                elim (Bool-cases
                  (any_opens chatter capitals && not (occurs (codes "ERROR") capitals))) [
                    | inl e ↦ rw (e1, e2, e) h
                    | inr e3 ↦
                        rw (e1, e2, e3)
                          (filed-IsData (match_status capitals) text reply h (λ e. (e1, e, e3)))
                  ]
          ]
    ]

take_pieces-IsData :
    (command : List ℕ) (pieces : List (List ℕ)) (reply : ElmReply)
    → All IsData reply.lines
    → All IsData (take_pieces command pieces reply).lines
unfolding take_pieces
take_pieces-IsData command [] reply h = h
take_pieces-IsData command (piece ∷ pieces) reply h =
    take_pieces-IsData command pieces _
      (take_line-IsData command (drop_searching (length (strip piece)) (strip piece)) reply h)

-- No line of a cleaned reply is blank, holds a status word or is chatter.
pub clean_reply-IsData : (command raw : List ℕ) → All IsData (clean_reply command raw).lines
unfolding clean_reply
clean_reply-IsData command raw =
    take_pieces-IsData (uppercase (without_blanks command)) (pieces_of raw) _ tt
