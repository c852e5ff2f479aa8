-- ===== src/Radius/Names.antt =====
-- The names of attributes that src/request_response.cpp writes out, as in the dictionaries.
use pppcpd.Common.{[], ◌∷◌}
use pppcpd.Common.Map.{Str}

abbrev pub user_name : Str
user_name = b'U' ∷ b's' ∷ b'e' ∷ b'r' ∷ b'-' ∷ b'N' ∷ b'a' ∷ b'm' ∷ b'e' ∷ []

abbrev pub user_password : Str
user_password =
    b'U' ∷ b's' ∷ b'e' ∷ b'r' ∷ b'-' ∷ b'P' ∷ b'a' ∷ b's' ∷ b's' ∷ b'w' ∷ b'o' ∷ b'r' ∷ b'd' ∷ []

abbrev pub chap_password : Str
chap_password =
    b'C' ∷ b'H' ∷ b'A' ∷ b'P' ∷ b'-' ∷ b'P' ∷ b'a' ∷ b's' ∷ b's' ∷ b'w' ∷ b'o' ∷ b'r' ∷ b'd' ∷ []

abbrev pub chap_challenge : Str
chap_challenge =
    b'C' ∷ b'H' ∷ b'A' ∷ b'P' ∷ b'-' ∷ b'C' ∷ b'h' ∷ b'a' ∷ b'l' ∷ b'l' ∷ b'e' ∷ b'n' ∷ b'g' ∷ b'e'
    ∷ []

abbrev pub nas_identifier : Str
nas_identifier =
    b'N' ∷ b'A' ∷ b'S' ∷ b'-' ∷ b'I' ∷ b'd' ∷ b'e' ∷ b'n' ∷ b't' ∷ b'i' ∷ b'f' ∷ b'i' ∷ b'e' ∷ b'r'
    ∷ []

abbrev pub framed_protocol : Str
framed_protocol =
    b'F' ∷ b'r' ∷ b'a' ∷ b'm' ∷ b'e' ∷ b'd' ∷ b'-' ∷ b'P' ∷ b'r' ∷ b'o' ∷ b't' ∷ b'o' ∷ b'c' ∷ b'o'
    ∷ b'l' ∷ []

abbrev pub service_type : Str
service_type =
    b'S' ∷ b'e' ∷ b'r' ∷ b'v' ∷ b'i' ∷ b'c' ∷ b'e' ∷ b'-' ∷ b'T' ∷ b'y' ∷ b'p' ∷ b'e' ∷ []

abbrev pub calling_station_id : Str
calling_station_id =
    b'C' ∷ b'a' ∷ b'l' ∷ b'l' ∷ b'i' ∷ b'n' ∷ b'g' ∷ b'-' ∷ b'S' ∷ b't' ∷ b'a' ∷ b't' ∷ b'i' ∷ b'o'
    ∷ b'n' ∷ b'-' ∷ b'I' ∷ b'd' ∷ []

abbrev pub nas_port_id : Str
nas_port_id = b'N' ∷ b'A' ∷ b'S' ∷ b'-' ∷ b'P' ∷ b'o' ∷ b'r' ∷ b't' ∷ b'-' ∷ b'I' ∷ b'd' ∷ []

abbrev pub framed_ip_address : Str
framed_ip_address =
    b'F' ∷ b'r' ∷ b'a' ∷ b'm' ∷ b'e' ∷ b'd' ∷ b'-' ∷ b'I' ∷ b'P' ∷ b'-' ∷ b'A' ∷ b'd' ∷ b'd' ∷ b'r'
    ∷ b'e' ∷ b's' ∷ b's' ∷ []

abbrev pub client_dns_pri : Str
client_dns_pri =
    b'C' ∷ b'l' ∷ b'i' ∷ b'e' ∷ b'n' ∷ b't' ∷ b'-' ∷ b'D' ∷ b'N' ∷ b'S' ∷ b'-' ∷ b'P' ∷ b'r' ∷ b'i'
    ∷ []

abbrev pub client_dns_sec : Str
client_dns_sec =
    b'C' ∷ b'l' ∷ b'i' ∷ b'e' ∷ b'n' ∷ b't' ∷ b'-' ∷ b'D' ∷ b'N' ∷ b'S' ∷ b'-' ∷ b'S' ∷ b'e' ∷ b'c'
    ∷ []

abbrev pub framed_pool : Str
framed_pool = b'F' ∷ b'r' ∷ b'a' ∷ b'm' ∷ b'e' ∷ b'd' ∷ b'-' ∷ b'P' ∷ b'o' ∷ b'o' ∷ b'l' ∷ []

abbrev pub subscriber_profile_name : Str
subscriber_profile_name =
    b'S' ∷ b'u' ∷ b'b' ∷ b's' ∷ b'c' ∷ b'r' ∷ b'i' ∷ b'b' ∷ b'e' ∷ b'r' ∷ b'-' ∷ b'P' ∷ b'r' ∷ b'o'
    ∷ b'f' ∷ b'i' ∷ b'l' ∷ b'e' ∷ b'-' ∷ b'N' ∷ b'a' ∷ b'm' ∷ b'e' ∷ []

abbrev pub acct_session_id : Str
acct_session_id =
    b'A' ∷ b'c' ∷ b'c' ∷ b't' ∷ b'-' ∷ b'S' ∷ b'e' ∷ b's' ∷ b's' ∷ b'i' ∷ b'o' ∷ b'n' ∷ b'-' ∷ b'I'
    ∷ b'd' ∷ []

abbrev pub acct_input_packets : Str
acct_input_packets =
    b'A' ∷ b'c' ∷ b'c' ∷ b't' ∷ b'-' ∷ b'I' ∷ b'n' ∷ b'p' ∷ b'u' ∷ b't' ∷ b'-' ∷ b'P' ∷ b'a' ∷ b'c'
    ∷ b'k' ∷ b'e' ∷ b't' ∷ b's' ∷ []

abbrev pub acct_output_packets : Str
acct_output_packets =
    b'A' ∷ b'c' ∷ b'c' ∷ b't' ∷ b'-' ∷ b'O' ∷ b'u' ∷ b't' ∷ b'p' ∷ b'u' ∷ b't' ∷ b'-' ∷ b'P' ∷ b'a'
    ∷ b'c' ∷ b'k' ∷ b'e' ∷ b't' ∷ b's' ∷ []

abbrev pub acct_input_octets : Str
acct_input_octets =
    b'A' ∷ b'c' ∷ b'c' ∷ b't' ∷ b'-' ∷ b'I' ∷ b'n' ∷ b'p' ∷ b'u' ∷ b't' ∷ b'-' ∷ b'O' ∷ b'c' ∷ b't'
    ∷ b'e' ∷ b't' ∷ b's' ∷ []

abbrev pub acct_output_octets : Str
acct_output_octets =
    b'A' ∷ b'c' ∷ b'c' ∷ b't' ∷ b'-' ∷ b'O' ∷ b'u' ∷ b't' ∷ b'p' ∷ b'u' ∷ b't' ∷ b'-' ∷ b'O' ∷ b'c'
    ∷ b't' ∷ b'e' ∷ b't' ∷ b's' ∷ []

abbrev pub acct_status_type : Str
acct_status_type =
    b'A' ∷ b'c' ∷ b'c' ∷ b't' ∷ b'-' ∷ b'S' ∷ b't' ∷ b'a' ∷ b't' ∷ b'u' ∷ b's' ∷ b'-' ∷ b'T' ∷ b'y'
    ∷ b'p' ∷ b'e' ∷ []
