-- ===== src/Config/Ports.antt =====
-- The ports that a node shares: `parse_port_list` and `is_port_shared` of src/core/config.cpp.
pub mod Shared
use madoka.Common.{
  ℕ, zero, suc, ◌+◌, ◌-◌, ◌≡◌, refl, ap, sym, ◌∙◌, Bool, true, false, ◌&&◌, ◌||◌, List, [], ◌∷◌,
  ◌++◌, Option, none, some, arith, length, take, drop, ltb, leb, ◌==◌, if◌then◌else◌, any_of,
  Bool-cases, inl, inr,
}
use madoka.Bytes.{bytes_eq}
use madoka.Config.Text.{parse_port, trim}
use madoka.Config.Endpoint.{find_char}

-- The fields of Config that are about ports.
pub record SharedPorts : Type 0 where
  pub shared_ports : List ℕ
  pub share_all_ports : Bool

abbrev put_first : ℕ → List (List ℕ) → List (List ℕ)
put_first c [] = (c ∷ []) ∷ []
put_first c (token ∷ tokens) = (c ∷ token) ∷ tokens

-- The texts between the commas.
unfoldable pub tokens_of : List ℕ → List (List ℕ)
tokens_of [] = [] ∷ []
tokens_of (c ∷ cs) = let rest = tokens_of cs in if c == 44 then [] ∷ rest else put_first c rest

-- The loop `for (p = low; p <= high; ++p)`, with the number of ports to go.
unfoldable pub push_ports : (low count : ℕ) → List ℕ
push_ports low zero = []
push_ports low (suc count) = low ∷ push_ports (low + 1) count

abbrev push_range : Option ℕ → Option ℕ → Option (List ℕ)
push_range none high = none
push_range (some low) none = none
push_range (some low) (some high) =
    if low == 0 || (high == 0 || ltb high low) then none else some (push_ports low (high - low + 1))

abbrev push_port : Option ℕ → Option (List ℕ)
push_port none = none
push_port (some port) = if port == 0 then none else some (port ∷ [])

-- The body of the loop of `parse_port_list`: the ports that a token puts at the end of `parsed_ports`.
unfoldable pub read_token : List ℕ → Option (List ℕ)
read_token token = if length token == 0 then none else elim (find_char 45 token) [
  | none ↦ push_port (parse_port token)
  | some dash ↦
      if dash == 0 || dash == length token - 1
      then none
      else push_range (parse_port (take dash token)) (parse_port (drop (dash + 1) token))
]

abbrev append_ports : Option (List ℕ) → Option (List ℕ) → Option (List ℕ)
append_ports none rest = none
append_ports (some ports) none = none
append_ports (some ports) (some rest) = some (ports ++ rest)

unfoldable pub read_tokens : List (List ℕ) → Option (List ℕ)
read_tokens [] = some []
read_tokens (token ∷ tokens) = append_ports (read_token (trim token)) (read_tokens tokens)

unfoldable pub place_port : ℕ → List ℕ → List ℕ
place_port port [] = port ∷ []
place_port port (p ∷ ps) =
    let rest = place_port port ps in if leb port p then port ∷ p ∷ ps else p ∷ rest

-- `std::sort`
unfoldable pub sort_ports : List ℕ → List ℕ
unfolding place_port
sort_ports [] = []
sort_ports (p ∷ ps) = place_port p (sort_ports ps)

abbrev join_equal : ℕ → List ℕ → List ℕ
join_equal p [] = p ∷ []
join_equal p (q ∷ qs) = if p == q then q ∷ qs else p ∷ q ∷ qs

-- `std::unique`: of neighbours that are equal, one stays.
unfoldable pub unique : List ℕ → List ℕ
unique [] = []
unique (p ∷ ps) = join_equal p (unique ps)

abbrev none_text : List ℕ
none_text = 110 ∷ 111 ∷ 110 ∷ 101 ∷ []

-- `none` where the code returns false and leaves its outputs as they are.
unfoldable pub parse_port_list : List ℕ → Option SharedPorts
parse_port_list value =
    let trimmed = trim value in
    if length trimmed == 0
    then none
    else if bytes_eq trimmed (97 ∷ 108 ∷ 108 ∷ []) || bytes_eq trimmed (42 ∷ [])
    then some (record { shared_ports = []; share_all_ports = true })
    else if bytes_eq trimmed none_text
    then some (record { shared_ports = []; share_all_ports = false })
    else elim (read_tokens (tokens_of trimmed)) [
      | none ↦ none
      | some parsed_ports ↦
          if length parsed_ports == 0
          then none
          else some
              (record { shared_ports = unique (sort_ports parsed_ports); share_all_ports = false })
    ]

-- `std::binary_search`, on a sorted vector.
unfoldable pub binary_search : ℕ → List ℕ → Bool
binary_search port [] = false
binary_search port (p ∷ ps) =
    let rest = binary_search port ps in if ltb p port then rest else p == port

unfoldable pub is_port_shared : SharedPorts → ℕ → Bool
unfolding binary_search
is_port_shared config port =
    if config.share_all_ports then true else binary_search port config.shared_ports
