-- ===== src/Radius/Requests/Passwords.antt =====
-- The hiding of a password in src/request_response.cpp, and how a server undoes it (RFC 2865, 5.2).
use pppcpd.Common.{
  length-take, ℕ, zero, suc, ◌+◌, ◌-◌, ◌*◌, ◌%◌, ◌/◌, ◌≤◌, ◌≡◌, refl, sym, ◌∙◌, arith, [], ◌∷◌,
  ◌++◌, All,
}
use pppcpd.Common.{length, take, drop, replicate, length-append, take-append, drop-append}
use pppcpd.Common.Bytes.{Bytes, IsByte}
use pppcpd.Common.Map.{Str}
use pppcpd.Radius.Requests.{
  bit_xor, xor_bytes, hide_blocks, padded_length, padded, password_pap_process,
}

-- The server xors each block with the same digest, which it makes from the block before as it came.
unfoldable pub reveal_blocks : (Str → Str) → Str → ℕ → Bytes → Str → Str
reveal_blocks md5 secret zero b hidden = []
reveal_blocks md5 secret (suc n) b hidden =
    let c = take 16 hidden in
    xor_bytes b c ++ reveal_blocks md5 secret n (md5 (secret ++ c)) (drop 16 hidden)

abbrev pub reveal : (Str → Str) → Bytes → Str → Str → Str
reveal md5 auth secret hidden =
    reveal_blocks md5 secret (length hidden / 16) (md5 (secret ++ auth)) hidden

-- A number of so many bits.
IsBits : ℕ → ℕ → Type 0
IsBits zero b = b ≡ 0
IsBits (suc n) b = IsBits n (b / 2)

xor-xor : (n a b : ℕ) → IsBits n b → bit_xor n a (bit_xor n a b) ≡ b
unfolding bit_xor IsBits
xor-xor zero a b h = sym h
xor-xor (suc n) a b h =
    let x = bit_xor n (a / 2) (b / 2) in
    let c = (a % 2 + b % 2) % 2 + 2 * x in
    let half : c / 2 ≡ x = omega arith in
    let low : c % 2 ≡ (a % 2 + b % 2) % 2 = omega arith in
    let inner : bit_xor n (a / 2) (c / 2) ≡ b / 2 = rw half (xor-xor n (a / 2) (b / 2) h) in
    rw inner (omega (arith, low))

byte-IsBits : (b : ℕ) → IsByte b → IsBits 8 b
unfolding IsBits
byte-IsBits b h = omega arith

xor_bytes-xor_bytes :
    (b p : Bytes) → length p ≤ length b → All IsByte p → xor_bytes b (xor_bytes b p) ≡ p
xor_bytes-xor_bytes [] [] l h = refl
xor_bytes-xor_bytes [] (y ∷ p) l h = absurd (omega arith)
xor_bytes-xor_bytes (x ∷ b) [] l h = refl
xor_bytes-xor_bytes (x ∷ b) (y ∷ p) l (q, h) =
    rw (xor-xor 8 x y (byte-IsBits y q), xor_bytes-xor_bytes b p (omega arith) h) refl

length-xor_bytes : (b p : Bytes) → length p ≤ length b → length (xor_bytes b p) ≡ length p
length-xor_bytes [] [] l = refl
length-xor_bytes [] (y ∷ p) l = absurd (omega arith)
length-xor_bytes (x ∷ b) [] l = refl
length-xor_bytes (x ∷ b) (y ∷ p) l = omega (arith, length-xor_bytes b p (omega arith))

length-drop : (n : ℕ) (p : Bytes) → length (drop n p) ≡ length p - n
length-drop zero p = omega arith
length-drop (suc n) [] = omega arith
length-drop (suc n) (x ∷ p) = omega (arith, length-drop n p)

take-drop : (n : ℕ) (p : Bytes) → take n p ++ drop n p ≡ p
take-drop zero p = refl
take-drop (suc n) [] = refl
take-drop (suc n) (x ∷ p) = rw (take-drop n p) refl

take-All : (n : ℕ) (p : Bytes) → All IsByte p → All IsByte (take n p)
take-All zero p h = tt
take-All (suc n) [] h = tt
take-All (suc n) (x ∷ p) (q, h) = (q, take-All n p h)

drop-All : (n : ℕ) (p : Bytes) → All IsByte p → All IsByte (drop n p)
drop-All zero p h = h
drop-All (suc n) [] h = tt
drop-All (suc n) (x ∷ p) (q, h) = drop-All n p h

-- A digest has 16 bytes.
module _ (md5 : Str → Str) (secret : Str) (digest : (s : Str) → length (md5 s) ≡ 16) where
  block-length :
      (b pass : Bytes) → length b ≡ 16 → 16 ≤ length pass → length (xor_bytes b (take 16 pass)) ≡ 16
  block-length b pass e l =
      length-xor_bytes b (take 16 pass) (omega (arith, length-take 16 pass l))
      ∙ length-take 16 pass l

  revealed :
      (n : ℕ) (b pass : Bytes)
      → length b ≡ 16
      → length pass ≡ 16 * n
      → All IsByte pass
      → reveal_blocks md5 secret n b (hide_blocks md5 secret n b pass) ≡ pass
  unfolding reveal_blocks hide_blocks
  revealed zero b [] e l h = refl
  revealed zero b (x ∷ pass) e l h = absurd (omega arith)
  revealed (suc n) b pass e l h =
      let c = xor_bytes b (take 16 pass) in
      let hidden = hide_blocks md5 secret n (md5 (secret ++ c)) (drop 16 pass) in
      let len : 16 ≡ length c = sym (block-length b pass e (omega arith)) in
      let first : xor_bytes b c ≡ take 16 pass =
        xor_bytes-xor_bytes b (take 16 pass) (omega (arith, length-take 16 pass (omega arith)))
          (take-All 16 pass h) in
      rw
        (
          take-append c hidden 16 len,
          drop-append c hidden 16 len,
          first,
          revealed n (md5 (secret ++ c)) (drop 16 pass) (digest (secret ++ c))
              (omega (arith, length-drop 16 pass)) (drop-All 16 pass h),
        )
        (take-drop 16 pass)

  hidden-length :
      (n : ℕ) (b pass : Bytes)
      → length b ≡ 16
      → length pass ≡ 16 * n
      → length (hide_blocks md5 secret n b pass) ≡ 16 * n
  unfolding hide_blocks
  hidden-length zero b pass e l = omega arith
  hidden-length (suc n) b pass e l =
      let c = xor_bytes b (take 16 pass) in
      let hidden = hide_blocks md5 secret n (md5 (secret ++ c)) (drop 16 pass) in
      omega (
        arith,
        length-append c hidden,
        block-length b pass e (omega arith),
        hidden-length n (md5 (secret ++ c)) (drop 16 pass) (digest (secret ++ c))
            (omega (arith, length-drop 16 pass)),
      )

zeros-All : (n : ℕ) → All IsByte (replicate n 0)
zeros-All zero = tt
zeros-All (suc n) = (omega arith, zeros-All n)

append-All : (xs ys : Bytes) → All IsByte xs → All IsByte ys → All IsByte (xs ++ ys)
append-All [] ys h k = k
append-All (x ∷ xs) ys (q, h) k = (q, append-All xs ys h k)

length-zeros : (n : ℕ) → length {A = ℕ} (replicate n 0) ≡ n
length-zeros zero = refl
length-zeros (suc n) = omega (arith, length-zeros n)

padded_blocks : (n : ℕ) → (padded_length n ≡ 16 * (padded_length n / 16)) × (n ≤ padded_length n)
padded_blocks n = ground arith

length-padded : (pass : Str) → length (padded pass) ≡ 16 * (padded_length (length pass) / 16)
length-padded pass =
    let n = padded_length (length pass) in
    let (whole, more) = padded_blocks (length pass) in
    omega (
      arith,
      length-append pass (replicate (n - length pass) 0),
      length-zeros (n - length pass),
      whole,
      more,
    )

-- The server that knows the secret gets the password back from what a request carries, with zeros up
-- to a multiple of 16: for digests of 16 bytes, any authenticator and any password of bytes.
pub reveal-password_pap_process :
    (md5 : Str → Str) (auth : Bytes) (secret pass : Str)
    → ((s : Str) → length (md5 s) ≡ 16)
    → All IsByte pass
    → reveal md5 auth secret (password_pap_process md5 auth secret pass) ≡ padded pass
unfolding password_pap_process
reveal-password_pap_process md5 auth secret pass digest h =
    let n = padded_length (length pass) / 16 in
    let b = md5 (secret ++ auth) in
    let len = length-padded pass in
    let blocks : length (hide_blocks md5 secret n b (padded pass)) / 16 ≡ n =
      omega
        (arith, hidden-length md5 secret digest n b (padded pass) (digest (secret ++ auth)) len) in
    rw blocks (
      revealed md5 secret digest n b (padded pass) (digest (secret ++ auth)) len (
        append-All pass (replicate (padded_length (length pass) - length pass) 0) h
          (zeros-All (padded_length (length pass) - length pass))))
