-- ===== src/LocalOnly/Hosts.antt =====
-- What remains of a host when its port is dropped.
use canopen_studio.Prelude.{ℕ, suc, ◌+◌, ◌<◌, ◌≡◌, ◌≢◌, refl, ◌∙◌, some, List, [], ◌∷◌, ◌++◌, arith}
use canopen_studio.LocalOnly.{strip_port, through, count_of, before}

count_of-append : (c : ℕ) (a b : List ℕ) → count_of c (a ++ b) ≡ count_of c a + count_of c b
unfolding count_of
count_of-append c [] b = omega arith
count_of-append c (d ∷ a) b = ground (arith, count_of-append c a b)

count_of_self : (c : ℕ) (port : List ℕ) → count_of c (c ∷ port) ≡ suc (count_of c port)
unfolding count_of
count_of_self c port = ground arith

count_of_open : (address : List ℕ) → count_of b']' (b'[' ∷ address) ≡ count_of b']' address
unfolding count_of
count_of_open address = refl

before-append :
    (c : ℕ) (name port : List ℕ) → count_of c name ≡ 0 → before c (name ++ (c ∷ port)) ≡ name
unfolding count_of before
before-append c [] port h = ground arith
before-append c (d ∷ name) port h = ground (arith, h, before-append c name port)

through-append :
    (c : ℕ) (address rest : List ℕ)
    → count_of c address ≡ 0
    → through c (address ++ (c ∷ rest)) ≡ some (address ++ (c ∷ []))
unfolding count_of through
through-append c [] rest h = ground arith
through-append c (d ∷ address) rest h = ground (arith, h, through-append c address rest)

-- A name without a colon or an opening bracket loses the port behind it; an address in brackets
-- loses whatever stands behind the closing bracket; a text of two colons or more that opens no
-- bracket is kept.
pub strip_port_forms :
    (first : ℕ) (name port address rest : List ℕ)
    → first ≢ b'['
    → count_of b':' port ≡ 0
    → count_of b']' address ≡ 0
    → (count_of b':' (first ∷ name) ≡ 0
        → strip_port ((first ∷ name) ++ (b':' ∷ port)) ≡ first ∷ name)
      × (strip_port ((b'[' ∷ address) ++ (b']' ∷ rest)) ≡ (b'[' ∷ address) ++ (b']' ∷ []))
      × (1 < count_of b':' (first ∷ name) → strip_port (first ∷ name) ≡ first ∷ name)
unfolding strip_port
strip_port_forms first name port address rest h1 h2 h3 = (
  λ plain. ground (
    arith,
    h1,
    h2,
    plain,
    count_of-append b':' (first ∷ name) (b':' ∷ port),
    count_of_self b':' port,
    before-append b':' (first ∷ name) port plain,
  ),
  rw (through-append b']' (b'[' ∷ address) rest (count_of_open address ∙ h3)) refl,
  λ colons. ground (arith, h1, colons),
)
