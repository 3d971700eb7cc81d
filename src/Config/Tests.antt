-- ===== src/Config/Tests.antt =====
-- Concrete texts of the configuration, and the theorems on them.
use madoka.Common.{
  ℕ, ◌≡◌, refl, ◌↔◌, true, false, List, [], ◌∷◌, none, some, arith, replicate, inr, any_of,
}
use madoka.Bytes.{NodeId, IsArray, bytes_eq}
use madoka.Config.Text.{
  to_string, digits_of, from_chars, read_digits, parse_port, trim, trim_front, trim_back,
}
use madoka.Config.Endpoint.{
  InetPton, find_char, rfind_char, c_str, with_port, parse_plain, parse_endpoint, format_endpoint,
  IsAddress, parse_endpoint-format,
}
use madoka.Config.Hex.{
  hex, parse_node_id, format_ipv6, format_groups, validate_identity_address, parse_node_id_iff,
}
use madoka.Config.Ports.{
  SharedPorts, tokens_of, push_ports, read_token, read_tokens, place_port, sort_ports, unique,
  parse_port_list, is_port_shared,
}
use madoka.Config.Ports.Shared.{names, parse_port_list-shared}

-- "::1"
abbrev localhost : List ℕ
localhost = 58 ∷ 58 ∷ 49 ∷ []

abbrev accepts_all : InetPton
accepts_all text = true

abbrev accepts_none : InetPton
accepts_none text = false

localhost-IsAddress : IsAddress accepts_all accepts_none localhost
unfolding find_char
localhost-IsAddress = inr ((0, refl), (refl, (refl, (refl, tt))), refl)

parse_endpoint-format_example :
    parse_endpoint accepts_all accepts_none (format_endpoint localhost 8080)
    ≡ some (localhost, 8080)
parse_endpoint-format_example =
    parse_endpoint-format accepts_all accepts_none localhost 8080 (omega arith) localhost-IsAddress

-- "[::1]:80"
localhost_formatted : format_endpoint localhost 80 ≡ 91 ∷ 58 ∷ 58 ∷ 49 ∷ 93 ∷ 58 ∷ 56 ∷ 48 ∷ []
unfolding format_endpoint find_char to_string digits_of
localhost_formatted = refl

-- "1:" has no port, and "65536" is none.
no_port : parse_endpoint accepts_all accepts_all (49 ∷ 58 ∷ []) ≡ none
unfolding parse_endpoint parse_plain rfind_char with_port c_str parse_port from_chars
no_port = refl

port_too_large : parse_port (54 ∷ 53 ∷ 53 ∷ 51 ∷ 54 ∷ []) ≡ none
unfolding parse_port from_chars read_digits
port_too_large = refl

trimmed : trim (32 ∷ 9 ∷ 97 ∷ 32 ∷ 98 ∷ 10 ∷ []) ≡ 97 ∷ 32 ∷ 98 ∷ []
unfolding trim trim_front trim_back
trimmed = refl

abbrev some_id : NodeId
some_id = 171 ∷ 7 ∷ replicate 30 0

some_id-IsArray : IsArray 32 some_id
some_id-IsArray = (refl, ground arith)

parse_node_id_iff_example :
    (parse_node_id (hex some_id) ≡ some some_id) ↔ (hex some_id ≡ hex some_id)
parse_node_id_iff_example = parse_node_id_iff (hex some_id) some_id some_id-IsArray

-- "ab07"
hex_digits : hex (171 ∷ 7 ∷ []) ≡ 97 ∷ 98 ∷ 48 ∷ 55 ∷ []
unfolding hex
hex_digits = refl

short_id : parse_node_id (97 ∷ []) ≡ none
unfolding parse_node_id
short_id = refl

-- "fd00:00ab"
ipv6_groups :
    format_ipv6 (253 ∷ 0 ∷ 0 ∷ 171 ∷ []) ≡ 102 ∷ 100 ∷ 48 ∷ 48 ∷ 58 ∷ 48 ∷ 48 ∷ 97 ∷ 98 ∷ []
unfolding format_ipv6 format_groups
ipv6_groups = refl

reserved_identity : validate_identity_address (replicate 32 0) ≡ false
unfolding validate_identity_address
reserved_identity = refl

-- "8, 2-4,3"
abbrev some_ports : List ℕ
some_ports = 56 ∷ 44 ∷ 32 ∷ 50 ∷ 45 ∷ 52 ∷ 44 ∷ 51 ∷ []

abbrev four_shared : SharedPorts
four_shared = record { shared_ports = 2 ∷ 3 ∷ 4 ∷ 8 ∷ []; share_all_ports = false }

some_ports_read : parse_port_list some_ports ≡ some four_shared
unfolding parse_port_list trim trim_front trim_back bytes_eq read_tokens tokens_of read_token
    find_char parse_port from_chars read_digits push_ports sort_ports place_port unique
some_ports_read = refl

parse_port_list-shared_example :
    is_port_shared four_shared 3
    ≡ any_of (λ token. names 3 (trim token)) (tokens_of (trim some_ports))
parse_port_list-shared_example =
    parse_port_list-shared some_ports four_shared 3 some_ports_read refl

-- "8," has an empty token at its end, and "4-2" is no range.
empty_token : parse_port_list (56 ∷ 44 ∷ []) ≡ none
unfolding parse_port_list trim trim_front trim_back bytes_eq read_tokens tokens_of read_token
    find_char parse_port from_chars read_digits
empty_token = refl

inverted_range : parse_port_list (52 ∷ 45 ∷ 50 ∷ []) ≡ none
unfolding parse_port_list trim trim_front trim_back bytes_eq read_tokens tokens_of read_token
    find_char parse_port from_chars read_digits
inverted_range = refl
