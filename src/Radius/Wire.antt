-- ===== src/Radius/Wire.antt =====
-- The format of RFC 2865 and what the parser of src/radius_avp.cpp makes of it.
use pppcpd.Common.{
  ℕ, zero, suc, ◌+◌, ◌-◌, ◌^◌, ◌<◌, ◌≤◌, ◌≡◌, ◌≢◌, refl, arith, List, [], ◌∷◌, ◌++◌, append_assoc,
  append-nil,
}
use pppcpd.Common.{some, false, ==_iff, ==_false, ltb, ltb-false, length, length-append, All}
use pppcpd.Common.Bytes.{Bytes, load8, copy, be32, load8-append, copy-append, read32}
use pppcpd.Common.Outcome.{ok, stuck}
use pppcpd.Radius.{Avp, parse_avp, parse_one, radius_vsa}

-- An attribute as the RFC has it: a type and a value, or a vendor with its own type and value.
pub data WireAttribute : Type 0 where
  plain : ℕ → Bytes → WireAttribute
  of_vendor : ℕ → ℕ → Bytes → WireAttribute

abbrev pub encode_attribute : WireAttribute → Bytes
encode_attribute (plain t v) = t ∷ (2 + length v) ∷ v
encode_attribute (of_vendor w t v) =
    radius_vsa ∷ (8 + length v) ∷ be32 w ++ (t ∷ (2 + length v) ∷ v)

abbrev pub encode_attributes : List WireAttribute → Bytes
encode_attributes [] = []
encode_attributes (a ∷ more) = encode_attribute a ++ encode_attributes more

-- The lengths fit their byte.
abbrev pub IsWireAttribute : WireAttribute → Type 0
IsWireAttribute (plain t v) = (t ≢ radius_vsa) × (length v + 2 < 256)
IsWireAttribute (of_vendor w t v) = (w < 2 ^ 32) × (length v + 8 < 256)

-- The object that the attribute is read into; of a plain one the vendor is what was in memory.
abbrev pub seen : ℕ → WireAttribute → Avp
seen junk (plain t v) = record {
  type = t;
  length_field = 2 + length v;
  value = v;
  vendor = junk;
  original_len = 2 + length v;
}
seen junk (of_vendor w t v) = record {
  type = t;
  length_field = 2 + length v;
  value = v;
  vendor = w;
  original_len = 8 + length v;
}

abbrev pub all_seen : (ℕ → ℕ) → ℕ → List WireAttribute → List Avp
all_seen junk at [] = []
all_seen junk at (a ∷ more) =
    seen (junk at) a ∷ all_seen junk (at + length (encode_attribute a)) more

module _ (before after : Bytes) (at : ℕ) (e : at ≡ length before) where
  -- One byte behind the attributes already read.
  byte : (ys : Bytes) (i n : ℕ) → i ≡ at + n → load8 (before ++ ys) i ≡ load8 ys n
  byte ys i n k = load8-append before ys i n (omega arith)

  room : (xs : Bytes) → 2 ≤ length xs → ltb (length (before ++ (xs ++ after))) (at + 2) ≡ false
  room xs h =
      ltb-false (length (before ++ (xs ++ after))) (at + 2)
        (omega (arith, length-append before (xs ++ after), length-append xs after))

  value_read :
      (front v : Bytes) (i n : ℕ)
      → i ≡ at + length front
      → n ≡ length v
      → copy (before ++ ((front ++ v) ++ after)) i n ≡ ok v
  value_read front v i n k l =
      rw (append_assoc front v after, ← append_assoc before front (v ++ after))
        (copy-append (before ++ front) v after i n (omega (arith, length-append before front)) l)

  parse_plain :
      (junk t : ℕ) (v : Bytes)
      → IsWireAttribute (plain t v)
      → parse_one junk (before ++ (encode_attribute (plain t v) ++ after)) at
        ≡ ok (some (seen junk (plain t v)))
  unfolding parse_one
  parse_plain junk t v (n, h) =
      let xs = encode_attribute (plain t v) ++ after in
      rw
        (
          room (encode_attribute (plain t v)) (omega arith),
          byte xs at 0 (omega arith),
          byte xs (at + 1) 1 (omega arith),
          ==_false t radius_vsa n,
          ltb-false (2 + length v) 2 (omega arith),
          value_read (t ∷ (2 + length v) ∷ []) v (at + 1 + 1) (2 + length v - 2) (omega arith)
              (omega arith),
        )
        refl

  parse_vendor :
      (junk w t : ℕ) (v : Bytes)
      → IsWireAttribute (of_vendor w t v)
      → parse_one junk (before ++ (encode_attribute (of_vendor w t v) ++ after)) at
        ≡ ok (some (seen junk (of_vendor w t v)))
  unfolding parse_one
  parse_vendor junk w t v (n, h) =
      let xs = encode_attribute (of_vendor w t v) ++ after in
      let front = radius_vsa ∷ (8 + length v) ∷ be32 w ++ (t ∷ (2 + length v) ∷ []) in
      rw
        (
          room (encode_attribute (of_vendor w t v)) (omega arith),
          byte xs at 0 (omega arith),
          byte xs (at + 1) 1 (omega arith),
          byte xs (at + 2) 2 (omega arith),
          byte xs (at + 2 + 1) 3 (omega arith),
          byte xs (at + 2 + 2) 4 (omega arith),
          byte xs (at + 2 + 2 + 1) 5 (omega arith),
          byte xs (at + 6) 6 (omega arith),
          byte xs (at + 7) 7 (omega arith),
          ltb-false (2 + length v) 2 (omega arith),
          value_read front v (at + 7 + 1) (2 + length v - 2) (omega arith) (omega arith),
          read32 w n,
        )
        refl

  parse_wire :
      (junk : ℕ) (a : WireAttribute)
      → IsWireAttribute a
      → parse_one junk (before ++ (encode_attribute a ++ after)) at ≡ ok (some (seen junk a))
  parse_wire junk (plain t v) h = parse_plain junk t v h
  parse_wire junk (of_vendor w t v) h = parse_vendor junk w t v h

seen-length :
    (junk : ℕ) (a : WireAttribute) → (seen junk a).original_len ≡ length (encode_attribute a)
seen-length junk (plain t v) = omega arith
seen-length junk (of_vendor w t v) = omega arith

encoded_some : (a : WireAttribute) → 2 ≤ length (encode_attribute a)
encoded_some (plain t v) = omega arith
encoded_some (of_vendor w t v) = omega arith

parse_from_here :
    (more : List WireAttribute) (before : Bytes) (fuel at : ℕ) (junk : ℕ → ℕ)
    → at ≡ length before
    → length (encode_attributes more) < fuel
    → All IsWireAttribute more
    → parse_avp fuel junk (before ++ encode_attributes more) at ≡ ok (all_seen junk at more)
unfolding parse_avp
parse_from_here more before zero at junk e f h = absurd (omega arith)
parse_from_here [] before (suc fuel) at junk e f h =
    rw (append-nil before, (==_iff at (length before)).1 e) refl
parse_from_here (a ∷ more) before (suc fuel) at junk e f (p, h) =
    let n = encoded_some a in
    let k = length-append (encode_attribute a) (encode_attributes more) in
    let whole : at ≢ length (before ++ (encode_attribute a ++ encode_attributes more)) =
      λ x. omega (arith, length-append before (encode_attribute a ++ encode_attributes more)) in
    let rest : parse_avp fuel junk (before ++ (encode_attribute a ++ encode_attributes more))
          (at + length (encode_attribute a))
        ≡ ok (all_seen junk (at + length (encode_attribute a)) more) =
      rw (← append_assoc before (encode_attribute a) (encode_attributes more)) (
        parse_from_here more (before ++ encode_attribute a) fuel (at + length (encode_attribute a))
          junk (omega (arith, length-append before (encode_attribute a))) (omega arith) h) in
    rw
      (
        ==_false at (length (before ++ (encode_attribute a ++ encode_attributes more))) whole,
        parse_wire before (encode_attributes more) at e (junk at) a p,
        seen-length (junk at) a,
        rest,
      )
      refl

-- Attributes in the format of the RFC, whose lengths fit, are read back to the last: those and no
-- others, with their types and values, and a vendor's with its vendor.
pub parse_avp-encode :
    (junk : ℕ → ℕ) (more : List WireAttribute)
    → All IsWireAttribute more
    → parse_avp (suc (length (encode_attributes more))) junk (encode_attributes more) 0
      ≡ ok (all_seen junk 0 more)
parse_avp-encode junk more h =
    parse_from_here more [] (suc (length (encode_attributes more))) 0 junk refl (omega arith) h

-- An object that a constructor makes from the name of a plain attribute.
abbrev pub IsPlain : Avp → Type 0
IsPlain a = (a.vendor ≡ 0) × (a.length_field ≡ 2 + length a.value)

abbrev pub wires : List Avp → List WireAttribute
wires [] = []
wires (a ∷ more) = plain a.type a.value ∷ wires more

-- An attribute that gives no size is never got past: where the parser reads one that says it has
-- length 0, as a vendor's can beside an inner length that is right, it does not end, however many
-- rounds it is given.
pub parse_avp_zero_length :
    (fuel : ℕ) (junk : ℕ → ℕ) (v : Bytes) (it : ℕ) (a : Avp)
    → it ≢ length v
    → parse_one (junk it) v it ≡ ok (some a)
    → a.original_len ≡ 0
    → parse_avp fuel junk v it ≡ stuck
unfolding parse_avp
parse_avp_zero_length zero junk v it a n read z = refl
parse_avp_zero_length (suc fuel) junk v it a n read z =
    let here : it + a.original_len ≡ it = omega arith in
    rw (==_false it (length v) n, read, here, parse_avp_zero_length fuel junk v it a n read z) refl
