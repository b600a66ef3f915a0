-- ===== src/Elm.antt =====
-- src/canopen_studio/diag/elm327/protocol.py: what is left of the text that an ELM327 adapter
-- prints. A text is taken to be ASCII. The exchange with the adapter is not modelled.
pub mod Lines
mod Examples
use canopen_studio.Prelude.{
  ℕ, zero, suc, Bool, true, false, not, ◌&&◌, ◌||◌, Option, none, some, List, [], ◌∷◌, ◌++◌, leb,
  ◌==◌, if◌then◌else◌, length, drop,
}
use canopen_studio.Prelude.Text.{codes, is_space, strip, upper, text_eq}

abbrev pub opens_with : List ℕ → List ℕ → Bool
opens_with [] text = true
opens_with (c ∷ word) [] = false
opens_with (c ∷ word) (d ∷ text) = c == d && opens_with word text

-- `word in text`
unfoldable pub occurs : List ℕ → List ℕ → Bool
occurs word [] = opens_with word []
occurs word (c ∷ text) = opens_with word (c ∷ text) || occurs word text

abbrev pub uppercase : List ℕ → List ℕ
uppercase [] = []
uppercase (c ∷ text) = upper c ∷ uppercase text

-- `text.replace(" ", "")`
unfoldable pub without_blanks : List ℕ → List ℕ
without_blanks [] = []
without_blanks (c ∷ text) = let rest = without_blanks text in if c == b' ' then rest else c ∷ rest

abbrev pub after_space : List ℕ → List ℕ
after_space [] = []
after_space (c ∷ rest) = if c == b' ' then c ∷ rest else b' ' ∷ c ∷ rest

-- `" ".join(text.split())` of a text without space at its ends: a run of space is one blank.
unfoldable pub squeeze : List ℕ → List ℕ
squeeze [] = []
squeeze (c ∷ text) = let rest = squeeze text in if is_space c then after_space rest else c ∷ rest

abbrev pub chatter : List (List ℕ)
chatter =
    codes "BUS INIT:"
    ∷ codes "BUS INIT"
    ∷ codes "LP ALERT"
    ∷ codes "ACT ALERT"
    ∷ codes "LV RESET"
    ∷ []

abbrev pub searching : List ℕ
searching = codes "SEARCHING..."

-- The keys of `STATUS_EXCEPTIONS` in their order, but for "?".
abbrev pub status_words : List (List ℕ)
status_words =
    codes "UNABLE TO CONNECT"
    ∷ codes "BUS INIT: ERROR"
    ∷ codes "BUFFER FULL"
    ∷ codes "CAN ERROR"
    ∷ codes "DATA ERROR"
    ∷ codes "BUS ERROR"
    ∷ codes "BUS BUSY"
    ∷ codes "FB ERROR"
    ∷ codes "NO DATA"
    ∷ codes "STOPPED"
    ∷ []

abbrev pub is_decimal : ℕ → Bool
is_decimal c = leb b'0' c && leb c b'9'

-- `_ERR_PATTERN`
unfoldable pub is_err : List ℕ → Bool
is_err (a ∷ b ∷ c ∷ d ∷ e ∷ []) =
    a == b'E' && b == b'R' && c == b'R' && is_decimal d && is_decimal e
is_err text = false

unfoldable pub first_in : List (List ℕ) → List ℕ → Option (List ℕ)
first_in [] text = none
first_in (word ∷ words) text = if occurs word text then some word else first_in words text

unfoldable pub match_status : List ℕ → Option (List ℕ)
match_status text =
    if text_eq text (codes "?")
    then some (codes "?")
    else if is_err (without_blanks text)
    then some (without_blanks text)
    else first_in status_words text

unfoldable pub any_opens : List (List ℕ) → List ℕ → Bool
any_opens [] text = false
any_opens (noise ∷ noises) text = opens_with noise text || any_opens noises text

-- The loop that drops `SEARCHING...`; a turn takes at least its twelve characters, so that the
-- length of the text is fuel enough.
unfoldable pub drop_searching : ℕ → List ℕ → List ℕ
drop_searching zero text = text
drop_searching (suc fuel) text =
    let rest = drop_searching fuel (strip (drop (length searching) text)) in
    if opens_with searching (uppercase text) then rest else text

pub record ElmReply : Type 0 where
  pub lines : List (List ℕ)
  pub status : Option (List ℕ)

abbrev pub is_nil {ℓ} : {A : Type ℓ} → List A → Bool
is_nil [] = true
is_nil (c ∷ text) = false

abbrev pub filed : Option (List ℕ) → List ℕ → ElmReply → ElmReply
filed (some word) text reply = record reply { status = some word }
filed none text reply = record reply { lines = reply.lines ++ (text ∷ []) }

-- One line, behind the first test that it is blank.
unfoldable pub take_line : List ℕ → List ℕ → ElmReply → ElmReply
take_line command text reply =
    let capitals = squeeze (uppercase text) in
    if is_nil text
    then reply
    else if text_eq (without_blanks capitals) command && is_nil reply.lines
    then reply
    else if any_opens chatter capitals && not (occurs (codes "ERROR") capitals)
    then reply
    else filed (match_status capitals) text reply

unfoldable pub take_pieces : List ℕ → List (List ℕ) → ElmReply → ElmReply
take_pieces command [] reply = reply
take_pieces command (piece ∷ pieces) reply =
    let text = strip piece in
    take_pieces command pieces (take_line command (drop_searching (length text) text) reply)

abbrev pub push_char : ℕ → List (List ℕ) → List (List ℕ)
push_char c [] = (c ∷ []) ∷ []
push_char c (piece ∷ pieces) = (c ∷ piece) ∷ pieces

-- The split at carriage returns and line feeds, with a blank for the prompt.
unfoldable pub pieces_of : List ℕ → List (List ℕ)
pieces_of [] = [] ∷ []
pieces_of (c ∷ raw) =
    let rest = pieces_of raw in
    if c == 13 || c == 10 then [] ∷ rest else push_char (if c == b'>' then b' ' else c) rest

-- `clean_reply`, less the command and the raw text that the reply repeats.
unfoldable pub clean_reply : List ℕ → List ℕ → ElmReply
clean_reply command raw =
    take_pieces (uppercase (without_blanks command)) (pieces_of raw)
      (record { lines = []; status = none })
