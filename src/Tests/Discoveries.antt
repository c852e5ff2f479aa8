-- ===== src/Tests/Discoveries.antt =====
-- Discovery run on the bytes of packets.
use pppcpd.Common.{
  ℕ, ◌+◌, ◌%◌, ◌^◌, ◌≡◌, refl, List, [], ◌∷◌, none, arith, contains, length, drop, replicate,
}
use pppcpd.Common.Bytes.{Bytes, bswap16}
use pppcpd.Common.Outcome.{ok}
use pppcpd.Common.Map.{find, insert, emplace, ℕ_key, Str}
use pppcpd.Runtime.{Runtime}
use pppcpd.Runtime.Valid.{IsValid}
use pppcpd.Runtime.Pending.{pending}
use pppcpd.Discovery.{
  Answer, process_padr, parse_tags, finish, add_tag, pads, ac_cookie_tag, disc_hdr_size,
  service_name_tag, conn_of,
}
use pppcpd.Discovery.Tagging.{
  insert_tags, collect, IsFreshFor, parse_tags-insert_tags, finish-add_tag,
}
use pppcpd.Discovery.Sessions.{Confirmed, asked, process_padr-Confirmed}
use pppcpd.Tests.Tables.{idle, junk, plain}

abbrev awaiting : Runtime
awaiting = record idle { pending_session = (conn_of plain (7 ∷ []), tt) ∷ [] }

awaiting-IsValid : IsValid awaiting
unfolding find contains
awaiting-IsValid = record {
  distinct = tt;
  next_pos = omega arith;
  next_lt = omega arith;
  in_range = λ c h. cc;
  one_each = λ c. refl;
  keyed = λ k s h. cc;
}

abbrev cookie_tags : List (ℕ × Str)
cookie_tags = (ac_cookie_tag, 7 ∷ []) ∷ []

abbrev request : Bytes
request = 0x11 ∷ 0x19 ∷ 0 ∷ 0 ∷ 0 ∷ 5 ∷ 1 ∷ 4 ∷ 0 ∷ 1 ∷ 7 ∷ []

request_tags : parse_tags (drop disc_hdr_size request) ≡ ok (collect cookie_tags [], none)
unfolding parse_tags bswap16 emplace
request_tags = refl

process_padr-Confirmed_example :
    (o : Answer × Runtime) × (process_padr junk request plain awaiting ≡ ok o)
    × Confirmed junk plain
        (collect cookie_tags [])
        awaiting
        (pending (asked plain (collect cookie_tags [])) awaiting)
        o
    × IsValid o.1
process_padr-Confirmed_example =
    process_padr-Confirmed junk request plain awaiting (collect cookie_tags []) awaiting-IsValid
      (omega arith) request_tags

abbrev two_tags : List (ℕ × Str)
two_tags = (service_name_tag, []) ∷ (ac_cookie_tag, 7 ∷ 8 ∷ []) ∷ []

two_fit : IsFreshFor two_tags []
unfolding find insert
two_fit =
    (omega arith, omega arith, omega arith, refl, (omega arith, omega arith, omega arith, refl, tt))

parse_tags-insert_tags_example :
    parse_tags (insert_tags two_tags []) ≡ ok (collect two_tags [], none)
parse_tags-insert_tags_example =
    parse_tags-insert_tags service_name_tag [] ((ac_cookie_tag, 7 ∷ 8 ∷ []) ∷ []) two_fit

finish-add_tag_example :
    length (finish pads 1 (add_tag service_name_tag (replicate 252 65) ([], 0)))
    ≡ disc_hdr_size + (4 + length {A = ℕ} (replicate 252 65)) % 2 ^ 8
finish-add_tag_example = finish-add_tag pads 1 service_name_tag (replicate 252 65)
