-- ===== src/Elm/Examples.antt =====
-- A reply with its echo and the chatter of a search, and one that is a status word.
use canopen_studio.Prelude.{◌≡◌, refl, some, [], ◌∷◌}
use canopen_studio.Prelude.Text.{codes, is_space, strip, lstrip, upper}
use canopen_studio.Elm.{
  clean_reply, take_pieces, take_line, pieces_of, drop_searching, match_status, is_err, first_in,
  occurs, squeeze, without_blanks, any_opens,
}

speed :
    (clean_reply (codes "01 0D") (codes "010D\rSEARCHING...\r7E8 03 41 0D 32\r\r>")).lines
    ≡ codes "7E8 03 41 0D 32" ∷ []
unfolding clean_reply take_pieces take_line pieces_of drop_searching match_status is_err first_in
    occurs squeeze without_blanks any_opens is_space strip lstrip upper
speed = refl

silence :
    clean_reply (codes "0101") (codes "NO DATA\r\r>")
    ≡ record { lines = []; status = some (codes "NO DATA") }
unfolding clean_reply take_pieces take_line pieces_of drop_searching match_status is_err first_in
    occurs squeeze without_blanks any_opens is_space strip lstrip upper
silence = refl
