-- ===== src/Ingest/Spool/Ends.antt =====
-- The loop that reads the edge spool comes to an end on any bytes, a corrupt spool included.
use apg.Prelude.{
  ℕ, zero, suc, ◌<◌, ◌≤◌, ◌≡◌, ◌≢◌, refl, ap, List, [], ◌∷◌, Option, none, some, arith, length,
}
use apg.Text.{Text}
use apg.Schema.{Record}
use apg.Ingest.Outcome.{Outcome, panic, ok, ◌>>=◌, unwrap, >>=-eq-ok}
use apg.Text.Utf8.{from_utf8}
use apg.Ingest.Spool.{
  Serde, properties_from_json, from_le_bytes, push_front, read_exact, read_body, read_str,
  decoded_edge, next_edge, read_edges,
}

-- What is left of the bytes, after a row of bytes and after a text or an edge.
pair_rest : Option (List ℕ × List ℕ) → List ℕ
pair_rest none = []
pair_rest (some (front, rest)) = rest

text_rest : Outcome (Text × List ℕ) → List ℕ
text_rest panic = []
text_rest (ok (s, rest)) = rest

edge_rest : Outcome (Option (Record × List ℕ)) → List ℕ
edge_rest (ok (some (r, rest))) = rest
edge_rest _ = []

push_front_shorter :
    (b : ℕ) (bytes : List ℕ) (o : Option (List ℕ × List ℕ)) (front rest : List ℕ)
    → ((f r : List ℕ) → o ≡ some (f, r) → length r ≤ length bytes)
    → push_front b o ≡ some (front, rest)
    → length rest ≤ suc (length bytes)
unfolding pair_rest
push_front_shorter b bytes none front rest short h = cc
push_front_shorter b bytes (some (f, r)) front rest short h =
    omega (arith, short f r refl, ap (λ o. length (pair_rest o)) h)

read_exact_shorter :
    (n : ℕ) (bytes front rest : List ℕ)
    → read_exact n bytes ≡ some (front, rest)
    → length rest ≤ length bytes
unfolding read_exact
read_exact_shorter zero bytes front rest h = ground (arith, h)
read_exact_shorter (suc n) [] front rest h = cc
read_exact_shorter (suc n) (b ∷ bytes) front rest h =
    push_front_shorter b bytes (read_exact n bytes) front rest (read_exact_shorter n bytes) h

text_of : List ℕ → Text → Outcome (Text × List ℕ)
text_of left t = ok (t, left)

read_text_rest :
    (o : Option Text) (left : List ℕ) (s : Text) (rest : List ℕ)
    → (unwrap o >>= text_of left) ≡ ok (s, rest)
    → length left ≡ length rest
unfolding text_of text_rest
read_text_rest none left s rest h = cc
read_text_rest (some t) left s rest h = ap (λ o. length (text_rest o)) h

read_body_shorter :
    (bytes : List ℕ) (o : Option (List ℕ × List ℕ)) (s : Text) (rest : List ℕ)
    → ((front left : List ℕ) → o ≡ some (front, left) → length left ≤ length bytes)
    → read_body o ≡ ok (s, rest)
    → length rest ≤ length bytes
unfolding text_of
read_body_shorter bytes none s rest short h = cc
read_body_shorter bytes (some (front, left)) s rest short h =
    omega (arith, short front left refl, read_text_rest (from_utf8 front) left s rest h)

read_str_shorter :
    (bytes : List ℕ) (s : Text) (rest : List ℕ)
    → read_str bytes ≡ ok (s, rest)
    → length rest < length bytes
unfolding read_str
read_str_shorter (a ∷ b ∷ c ∷ d ∷ bytes) s rest h =
    let n = from_le_bytes a b c d in
    omega
      (arith, read_body_shorter bytes (read_exact n bytes) s rest (read_exact_shorter n bytes) h)
read_str_shorter _ s rest h = cc

next_edge_shorter :
    (serde : Serde) (bytes rest : List ℕ) (r : Record)
    → next_edge serde bytes ≡ ok (some (r, rest))
    → length rest < length bytes
unfolding next_edge edge_rest
next_edge_shorter serde [] rest r h = cc
next_edge_shorter serde (tag ∷ bytes) rest r h =
    let (x1, e1, h1) = >>=-eq-ok (read_str bytes) _ h in
    let (x2, e2, h2) = >>=-eq-ok (read_str x1.1) _ h1 in
    let (x3, e3, h3) = >>=-eq-ok (read_str x2.1) _ h2 in
    let (x4, e4, h4) = >>=-eq-ok (read_str x3.1) _ h3 in
    let (p, e5, h5) = >>=-eq-ok (unwrap (properties_from_json serde x4.0)) _ h4 in
    let (r', e6, h6) = >>=-eq-ok (unwrap (decoded_edge tag x1.0 x2.0 x3.0 p)) _ h5 in
    let ends = ap (λ o. length (edge_rest o)) h6 in
    omega (
      arith,
      ends,
      read_str_shorter bytes x1.0 x1.1 e1,
      read_str_shorter x1.1 x2.0 x2.1 e2,
      read_str_shorter x2.1 x3.0 x3.1 e3,
      read_str_shorter x3.1 x4.0 x4.1 e4,
    )

round_total :
    (fuel : ℕ) (serde : Serde) (bytes : List ℕ) (o : Outcome (Option (Record × List ℕ)))
    → next_edge serde bytes ≡ o
    → ((rest : List ℕ) → length rest < length bytes → read_edges fuel serde rest ≢ none)
    → read_edges (suc fuel) serde bytes ≢ none
unfolding read_edges
round_total fuel serde bytes panic e later h = ground (arith, e, h)
round_total fuel serde bytes (ok none) e later h = ground (arith, e, h)
round_total fuel serde bytes (ok (some (r, rest))) e later h =
    let go = later rest (next_edge_shorter serde bytes rest r e) in ground (arith, e, go, h)

-- A round for each byte and one more is fuel enough for any bytes.
pub read_edges-total :
    (fuel : ℕ) (serde : Serde) (bytes : List ℕ)
    → length bytes < fuel
    → read_edges fuel serde bytes ≢ none
read_edges-total zero serde bytes h = λ e. absurd (omega (arith, h))
read_edges-total (suc fuel) serde bytes h =
    round_total fuel serde bytes (next_edge serde bytes) refl
      (λ rest shorter. read_edges-total fuel serde rest (omega (arith, h, shorter)))
