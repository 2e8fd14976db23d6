-- ===== src/Wsapi/Hub/Codes.antt =====
-- server/internal/wsapi/hub.go: randomCode, by rejection sampling of random bytes.
use mathlib.Core.List.{append-nil, append_assoc}
use noitu.Prelude.{
  ℕ, zero, suc, ◌+◌, ◌-◌, ◌%◌, ◌≤◌, ◌≡◌, refl, sym, length-append, length-take, ap, List, [], ◌∷◌,
  ◌++◌, Option, none, some, Text, length, take, leb, ltb, ◌==◌, get_or, if◌then◌else◌, arith,
  Bool-cases, inl, inr,
}
use noitu.Wsapi.Hub.{room_code_alphabet, room_code_len}

-- `limit`, the greatest multiple of the number of letters in a byte.
abbrev pub byte_limit : ℕ
byte_limit = 256 - 256 % length room_code_alphabet

-- `roomCodeAlphabet[int(b)%len(roomCodeAlphabet)]`.
unfoldable pub letter : ℕ → ℕ
letter b = get_or room_code_alphabet (b % length room_code_alphabet) 0

-- The loop over the bytes of a buffer.
unfoldable pub take_bytes : Text → List ℕ → Text
take_bytes out [] = out
take_bytes out (b ∷ bs) =
    let more = take_bytes (out ++ letter b ∷ []) bs in
    let skip = take_bytes out bs in
    if leb byte_limit b
    then skip
    else if length out + 1 == room_code_len
    then out ++ letter b ∷ []
    else more

-- The outer loop, on the buffers that `rand.Read` fills; `none` if there are too few.
unfoldable pub draw_from : Text → List (List ℕ) → Option Text
draw_from out [] = none
draw_from out (buf ∷ bufs) =
    let rest = draw_from (take_bytes out buf) bufs in
    if ltb (length (take_bytes out buf)) room_code_len then rest else some (take_bytes out buf)

unfoldable pub random_code : List (List ℕ) → Option Text
random_code bufs = draw_from [] bufs

-- The letters of the bytes below the limit.
abbrev pub letters : List ℕ → Text
letters [] = []
letters (b ∷ bs) = if leb byte_limit b then letters bs else letter b ∷ letters bs

-- The letters of all buffers, in order.
abbrev pub letters_all : List (List ℕ) → Text
letters_all [] = []
letters_all (buf ∷ bufs) = letters buf ++ letters_all bufs

append_one : (xs : Text) (x : ℕ) (ys : Text) → (xs ++ x ∷ []) ++ ys ≡ xs ++ x ∷ ys
append_one [] x ys = refl
append_one (z ∷ xs) x ys = ap (λ zs. z ∷ zs) (append_one xs x ys)

take-append_long : (n : ℕ) (xs ys : Text) → n ≤ length xs → take n (xs ++ ys) ≡ take n xs
take-append_long zero xs ys le = refl
take-append_long (suc n) [] ys le = ground arith
take-append_long (suc n) (x ∷ xs) ys le =
    ap (λ zs. x ∷ zs) (take-append_long n xs ys (omega (arith, le)))

take-append_short :
    (xs ys : Text) (n k : ℕ) → length xs + k ≡ n → take n (xs ++ ys) ≡ xs ++ take k ys
take-append_short [] ys n k is = ap (λ (m : ℕ). take m ys) (omega (arith, is))
take-append_short (x ∷ xs) ys zero k is = ground arith
take-append_short (x ∷ xs) ys (suc n) k is =
    ap (λ zs. x ∷ zs) (take-append_short xs ys n k (omega (arith, is)))

take_all : (n : ℕ) (xs : Text) → length xs ≤ n → take n xs ≡ xs
take_all zero [] le = refl
take_all zero (x ∷ xs) le = ground arith
take_all (suc n) [] le = refl
take_all (suc n) (x ∷ xs) le = ap (λ zs. x ∷ zs) (take_all n xs (omega (arith, le)))

take_bytes-letters :
    (out : Text) (j : ℕ) (bs : List ℕ)
    → length out + suc j ≡ room_code_len
    → take_bytes out bs ≡ out ++ take (suc j) (letters bs)
unfolding take_bytes
take_bytes-letters out j [] room = sym (append-nil out)
take_bytes-letters out zero (b ∷ bs) room = ground (arith, take_bytes-letters out zero bs)
take_bytes-letters out (suc j) (b ∷ bs) room = ground (
  arith,
  take_bytes-letters out (suc j) bs,
  take_bytes-letters (out ++ letter b ∷ []) j bs,
  append_one out (letter b) (take (suc j) (letters bs)),
  length-append out (letter b ∷ []),
)

draw_from-letters_all :
    (bufs : List (List ℕ)) (out : Text) (j : ℕ)
    → length out + suc j ≡ room_code_len
    → draw_from out bufs ≡ (
        if ltb (length (letters_all bufs)) (suc j)
        then none
        else some (out ++ take (suc j) (letters_all bufs)))
unfolding draw_from
draw_from-letters_all [] out j room = ground arith
draw_from-letters_all (buf ∷ bufs) out j room =
    let L = letters buf in
    let R = letters_all bufs in
    rw (take_bytes-letters out j buf room) (elim (Bool-cases (leb (length L) j)) [
      | inl short ↦ rw (take_all (suc j) L (ground arith)) (
          ground (
            arith,
            draw_from-letters_all bufs (out ++ L) (j - length L),
            length-append out L,
            length-append L R,
            take-append_short L R (suc j) (suc (j - length L)),
            append_assoc out L (take (suc (j - length L)) R),
          ))
      | inr long ↦ ground (
        arith,
        take-append_long (suc j) L R,
        length-append out (take (suc j) L),
        length-take (suc j) L,
        length-append L R,
      )
    ])

-- A room code is the first six letters of the random bytes below the limit, in order over all
-- buffers, and there is none only where fewer than six bytes are below it.
pub random_code-letters_all :
    (bufs : List (List ℕ))
    → random_code bufs ≡ (
        if ltb (length (letters_all bufs)) room_code_len
        then none
        else some (take room_code_len (letters_all bufs)))
unfolding random_code
random_code-letters_all bufs = draw_from-letters_all bufs [] 5 refl
