-- ===== src/Discovery/Tagging.antt =====
-- The tags of a discovery packet: insertTag against parseTags.
use pppcpd.Common.{
  ℕ, zero, suc, ◌+◌, ◌*◌, ◌/◌, ◌%◌, ◌^◌, ◌<◌, ◌≤◌, ◌-◌, ◌≡◌, refl, sym, ◌∙◌, arith, List, [], ◌∷◌,
  ◌++◌,
}
use pppcpd.Common.{none, ==_false, ltb, ltb-true, ltb-false, if◌then◌else◌}
use pppcpd.Common.{length, take, replicate, length-append, append_assoc, append-nil}
use pppcpd.Common.Bytes.{Bytes, load16, copy, be16, bswap16, read16, load8-append, copy-append}
use pppcpd.Common.Outcome.{ok}
use pppcpd.Common.Map.{Str, ℕ_key, find, insert}
use pppcpd.Common.Counting.{emplace_fresh}
use pppcpd.Discovery.{
  Tags, parse_from, parse_tags, insert_tag, tag_bytes, end_of_list, finish, resize, add_tag,
  disc_hdr_size,
}

-- The tags put behind `pkt` one after the other.
abbrev pub insert_tags : List (ℕ × Str) → Bytes → Bytes
insert_tags [] pkt = pkt
insert_tags ((tag, val) ∷ ts) pkt = insert_tags ts (insert_tag pkt tag val).0

abbrev pub collect : List (ℕ × Str) → Tags → Tags
collect [] tags = tags
collect ((tag, val) ∷ ts) tags = collect ts (insert tag val tags)

-- Tags that fit their fields, none of them twice and none END_OF_LIST.
abbrev pub IsFreshFor : List (ℕ × Str) → Tags → Type 0
IsFreshFor [] tags = Unit
IsFreshFor ((tag, val) ∷ ts) tags =
    (0 < tag)
    × (tag < 2 ^ 16)
    × (length val < 2 ^ 16)
    × (find tag tags ≡ none)
    × IsFreshFor ts (insert tag val tags)

abbrev bytes_of : List (ℕ × Str) → Bytes
bytes_of [] = []
bytes_of ((tag, val) ∷ ts) = tag_bytes tag val ++ bytes_of ts

insert_tags-bytes_of : (ts : List (ℕ × Str)) (pkt : Bytes) → insert_tags ts pkt ≡ pkt ++ bytes_of ts
unfolding insert_tag
insert_tags-bytes_of [] pkt = sym (append-nil pkt)
insert_tags-bytes_of ((tag, val) ∷ ts) pkt =
    insert_tags-bytes_of ts (pkt ++ tag_bytes tag val)
    ∙ append_assoc pkt (tag_bytes tag val) (bytes_of ts)

parse_step :
    (fuel : ℕ) (pkt : Bytes) (offset t l tag len : ℕ) (val : Str) (tags : Tags)
    → load16 pkt offset ≡ ok t
    → load16 pkt (offset + 2) ≡ ok l
    → bswap16 t ≡ tag
    → bswap16 l ≡ len
    → 0 < tag
    → copy pkt (offset + 4) len ≡ ok val
    → find tag tags ≡ none
    → parse_from (suc fuel) pkt offset tags ≡ (
        if ltb (offset + (4 + len)) (length pkt)
        then parse_from fuel pkt (offset + (4 + len)) (insert tag val tags)
        else ok (insert tag val tags, none))
unfolding parse_from
parse_step fuel pkt offset t l tag len val tags a b c d z e f =
    rw (a, b, c, d, ==_false tag end_of_list (λ x. omega arith), e, emplace_fresh tag val tags f)
      refl

abbrev header_of : ℕ → Str → Bytes
header_of tag val = be16 tag ++ be16 (length val)

-- One tag of the packet, whatever stands before and behind it.
parse_tag :
    (fuel : ℕ) (before after : Bytes) (offset tag : ℕ) (val : Str) (tags : Tags)
    → length before ≡ offset
    → 0 < tag
    → tag < 2 ^ 16
    → length val < 2 ^ 16
    → find tag tags ≡ none
    → let pkt = before ++ (tag_bytes tag val ++ after) in
      let next = offset + (4 + length val) in
      parse_from (suc fuel) pkt offset tags ≡ (
        if ltb next (length pkt)
        then parse_from fuel pkt next (insert tag val tags)
        else ok (insert tag val tags, none))
parse_tag fuel before after offset tag val tags e z b n f =
    let tail = tag_bytes tag val ++ after in
    let behind = append_assoc before (header_of tag val) (val ++ after) in
    let size = length-append before (header_of tag val) in
    parse_step fuel (before ++ tail) offset (tag / 256 % 256 + tag % 256 * 256)
      (length val / 256 % 256 + length val % 256 * 256) tag (length val) val tags
      (rw
        (
          load8-append before tail offset 0 (omega arith),
          load8-append before tail (offset + 1) 1 (omega arith),
        )
        refl)
      (rw
        (
          load8-append before tail (offset + 2) 2 (omega arith),
          load8-append before tail (offset + 2 + 1) 3 (omega arith),
        )
        refl)
      (read16 tag b) (read16 (length val) n) z
      (rw (← behind) (
        copy-append (before ++ header_of tag val) val after (offset + 4) (length val)
          (omega (arith, size)) refl))
      f

parse_from-collect :
    (tag : ℕ) (val : Str) (ts : List (ℕ × Str)) (fuel offset : ℕ) (before : Bytes) (tags : Tags)
    → length before ≡ offset
    → IsFreshFor ((tag, val) ∷ ts) tags
    → length (bytes_of ts) < fuel
    → parse_from fuel (before ++ bytes_of ((tag, val) ∷ ts)) offset tags
      ≡ ok (collect ((tag, val) ∷ ts) tags, none)
parse_from-collect tag val ts zero offset before tags e fr l = absurd (omega arith)
parse_from-collect tag val [] (suc fuel) offset before tags e (z, b, n, f, fs) l =
    parse_tag fuel before [] offset tag val tags e z b n f
    ∙ rw
        (ltb-false (offset + (4 + length val)) (length (before ++ (tag_bytes tag val ++ [])))
          (omega (arith, length-append before (tag_bytes tag val ++ []), length-append val [])))
        refl
parse_from-collect tag val ((tag', val') ∷ ts) (suc fuel) offset before tags e (z, b, n, f, fs) l =
    let after = bytes_of ((tag', val') ∷ ts) in
    let next = offset + (4 + length val) in
    let size = length-append before (tag_bytes tag val ++ after) in
    let size' = length-append val after in
    let size'' = length-append val' (bytes_of ts) in
    let regroup = append_assoc before (tag_bytes tag val) after in
    parse_tag fuel before after offset tag val tags e z b n f
    ∙ rw
        (ltb-true next (length (before ++ (tag_bytes tag val ++ after)))
          (omega (arith, size, size')))
        (rw (← regroup) (
          parse_from-collect tag' val' ts fuel next (before ++ tag_bytes tag val)
            (insert tag val tags) (omega (arith, length-append before (tag_bytes tag val))) fs
            (omega (arith, size''))))

-- What insertTag writes parseTags reads back: one tag or more that fit their fields, none of them
-- twice and none END_OF_LIST, give the map of exactly those, without an error.
pub parse_tags-insert_tags :
    (tag : ℕ) (val : Str) (ts : List (ℕ × Str))
    → IsFreshFor ((tag, val) ∷ ts) []
    → parse_tags (insert_tags ((tag, val) ∷ ts) []) ≡ ok (collect ((tag, val) ∷ ts) [], none)
unfolding parse_tags
parse_tags-insert_tags tag val ts fr =
    let all = bytes_of ((tag, val) ∷ ts) in
    let size = length-append val (bytes_of ts) in
    rw (insert_tags-bytes_of ((tag, val) ∷ ts) [])
      (parse_from-collect tag val ts (suc (length all)) 0 [] [] refl fr (omega (arith, size)))

take_exact : (n : ℕ) (xs : Bytes) → n ≤ length xs → length (take n xs) ≡ n
take_exact zero xs l = refl
take_exact (suc n) [] l = absurd (omega arith)
take_exact (suc n) (x ∷ xs) l = omega (arith, take_exact n xs (omega arith))

replicate_size : (n : ℕ) → length {A = ℕ} (replicate n 0) ≡ n
replicate_size zero = refl
replicate_size (suc n) = omega (arith, replicate_size n)

length-resize : (n : ℕ) (out : Bytes) → length (resize n out) ≡ n
length-resize n out = take_exact n (out ++ replicate (n - length out) 0) (
    omega
      (arith, length-append out (replicate (n - length out) 0), replicate_size (n - length out)))

-- insertTag returns the size of a tag as an uint8_t: a reply with one tag has the header's six bytes
-- and the tag's size modulo 256, so that a value of 252 bytes or more is cut.
pub finish-add_tag :
    (code sid tag : ℕ) (val : Str)
    → length (finish code sid (add_tag tag val ([], 0))) ≡ disc_hdr_size + (4 + length val) % 2 ^ 8
unfolding insert_tag
finish-add_tag code sid tag val =
    let (out, taglen) = add_tag tag val ([], 0) in
    length-resize (disc_hdr_size + taglen) (0x11 ∷ code ∷ be16 sid ++ be16 taglen ++ out)
    ∙ omega arith
